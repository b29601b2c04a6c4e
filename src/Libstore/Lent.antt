-- ===== src/Libstore/Lent.antt =====
-- storageserver_impl.go: what `Get` and `Put` leave of a key's value and of its leases.
use projects.Common.{
  ℕ, ◌≤◌, ◌≡◌, refl, ap, subst, inl, inr, String, Bool, true, false, Option, none, some, [], ltb,
  if◌then◌else◌, lookup, lookup-insert, insert, string_dec, Bool-cases, arith,
}
use projects.Storage.Rpc.{Status, GetArgs, GetReply, PutArgs, lease_seconds}
use projects.Storage.Server.{
  StorageServer, ValueStore, LeaseTerm, Leases, Callback, Revocation, valid_until, new_term,
  grant_lease_if_necessary, grant_after,
}
use projects.Storage.Calls.{
  Answer, leases_for, get_found, get_guarded, get, set_value, after_revoke, put_found, put_guarded,
  put,
}
use projects.Storage.Values.{
  SameStore, revoke-SameStore, state_of, is_done, value_at, Refuses, refusal-Refuses,
}

-- A holder's lease is still there, and no shorter.
abbrev pub Longer : Leases → Leases → Type 0
Longer ls ls' =
    (h : String) (l : LeaseTerm)
    → lookup string_dec h ls ≡ some l
    → (l' : LeaseTerm) × (lookup string_dec h ls' ≡ some l') × (valid_until l ≤ valid_until l')

insert-Longer :
    (host : String) (new : LeaseTerm) (ls : Leases)
    → ((l : LeaseTerm) → lookup string_dec host ls ≡ some l → valid_until l ≤ valid_until new)
    → Longer ls (insert string_dec host new ls)
insert-Longer host new ls f h l x = elim (string_dec host h) [
  | yes e ↦ (new, ground (arith, lookup-insert string_dec host h new ls), f l (rw e x))
  | no ne ↦ (l, ground (arith, lookup-insert string_dec host h new ls), omega arith)
]

grant_after-Longer :
    (now : ℕ) (host : String) (ls : Leases) (o : Option LeaseTerm)
    → lookup string_dec host ls ≡ o
    → Longer ls (grant_after now host ls o).0
unfolding grant_after
grant_after-Longer now host ls none e = insert-Longer host (new_term now) ls (λ l x. absurd cc)
grant_after-Longer now host ls (some k) e = elim (Bool-cases (ltb (valid_until k) now)) [
  | inl x ↦ rw x (insert-Longer host (new_term now) ls (λ l y. ground (arith, x, e, y)))
  | inr x ↦ rw x (λ h l y. (l, y, omega arith))
]

leases_for-Longer :
    (want : Bool) (now : ℕ) (host : String) (ls : Leases)
    → Longer ls (leases_for want now host ls).0
unfolding leases_for grant_lease_if_necessary
leases_for-Longer true now host ls = grant_after-Longer now host ls _ refl
leases_for-Longer false now host ls = λ h l x. (l, x, omega arith)

leases_for-granted :
    (want : Bool) (now : ℕ) (host : String) (ls : Leases)
    → (leases_for want now host ls).1.granted ≡ true
    → (lookup string_dec host (leases_for want now host ls).0 ≡ some (new_term now))
      × ((leases_for want now host ls).1.valid_seconds ≡ lease_seconds)
unfolding leases_for grant_lease_if_necessary grant_after
leases_for-granted want now host ls g =
    ground (arith, g, lookup-insert string_dec host host (new_term now) ls)

-- Every key keeps its value, and its leases get no shorter.
abbrev pub Kept : StorageServer → StorageServer → Type 0
Kept ss ss' =
    (k : String) (v : ValueStore)
    → lookup string_dec k ss.key_value_store ≡ some v
    → (v' : ValueStore) × (lookup string_dec k ss'.key_value_store ≡ some v')
      × (v'.value ≡ v.value)
      × Longer v.lease_granted v'.lease_granted

pub Kept-refl : (ss : StorageServer) → Kept ss ss
Kept-refl ss k v e = (v, e, refl, λ h l x. (l, x, omega arith))

get_found-Kept :
    (now : ℕ) (ss : StorageServer) (a : GetArgs) (o : Option ValueStore)
    → lookup string_dec a.key ss.key_value_store ≡ o
    → Kept ss (get_found now ss a o).0
unfolding get_found
get_found-Kept now ss a none e k v x = Kept-refl ss k v x
get_found-Kept now ss a (some w) e k v x =
    let ls = (leases_for a.want_lease now a.host_port w.lease_granted).0 in
    let new : ValueStore = record w { lease_granted = ls } in
    elim (string_dec a.key k) [
      | yes p ↦
          let same : w ≡ v = cc in
          (
            new,
            ground (arith, lookup-insert string_dec a.key k new ss.key_value_store),
            ap (λ u. u.value) same,
            subst (λ u. Longer u.lease_granted ls) same
                (leases_for-Longer a.want_lease now a.host_port w.lease_granted),
          )
      | no ne ↦ (
        v,
        ground (arith, lookup-insert string_dec a.key k new ss.key_value_store),
        refl,
        λ h l y. (l, y, omega arith),
      )
    ]

-- A reply with OK has the key's value; if it grants a lease, the server has recorded it.
abbrev pub Lent : ℕ → GetArgs → StorageServer → GetReply → Type 0
Lent now a ss r =
    r.status ≡ Status.ok
    → (v : ValueStore) × (lookup string_dec a.key ss.key_value_store ≡ some v)
      × (v.value ≡ r.value)
      × (r.lease.granted ≡ true
          → (lookup string_dec a.host_port v.lease_granted ≡ some (new_term now))
            × (r.lease.valid_seconds ≡ lease_seconds))

get_found-Lent :
    (now : ℕ) (ss : StorageServer) (a : GetArgs) (o : Option ValueStore)
    → Lent now a (get_found now ss a o).0 (get_found now ss a o).1
unfolding get_found
get_found-Lent now ss a none ok = absurd (ground (arith, ok))
get_found-Lent now ss a (some w) ok =
    let (ls, lease) = leases_for a.want_lease now a.host_port w.lease_granted in
    let new : ValueStore = record w { lease_granted = ls } in
    (
      new,
      ground (arith, lookup-insert string_dec a.key a.key new ss.key_value_store),
      refl,
      leases_for-granted a.want_lease now a.host_port w.lease_granted,
    )

get_guarded_lem :
    (now : ℕ) (ss : StorageServer) (a : GetArgs) (o : Option Status)
    → Refuses o
    → Kept ss (get_guarded now ss a o).0
      × Lent now a (get_guarded now ss a o).0 (get_guarded now ss a o).1
unfolding get_guarded
get_guarded_lem now ss a none h = (get_found-Kept now ss a _ refl, get_found-Lent now ss a _)
get_guarded_lem now ss a (some s) h = (Kept-refl ss, λ ok. absurd (h cc))

-- A `Get` keeps every value and every lease, and what it lends it records.
pub get-Lent :
    (hash : String → ℕ) (now : ℕ) (ss : StorageServer) (a : GetArgs)
    → Kept ss (get hash now ss a).0 × Lent now a (get hash now ss a).0 (get hash now ss a).1
unfolding get
get-Lent hash now ss a = get_guarded_lem now ss a _ (refusal-Refuses hash ss a.key)

get_found-value_at :
    (now : ℕ) (ss : StorageServer) (a : GetArgs) (o : Option ValueStore)
    → lookup string_dec a.key ss.key_value_store ≡ o
    → (get_found now ss a o).1.status ≡ Status.ok
    → value_at ss a.key ≡ some (get_found now ss a o).1.value
unfolding get_found value_at
get_found-value_at now ss a none e ok = absurd (ground (arith, ok))
get_found-value_at now ss a (some w) e ok = ground (arith, e)

get_guarded-value_at :
    (now : ℕ) (ss : StorageServer) (a : GetArgs) (o : Option Status)
    → Refuses o
    → (get_guarded now ss a o).1.status ≡ Status.ok
    → value_at ss a.key ≡ some (get_guarded now ss a o).1.value
unfolding get_guarded
get_guarded-value_at now ss a none h ok = get_found-value_at now ss a _ refl ok
get_guarded-value_at now ss a (some s) h ok = absurd (h cc)

-- An answer with OK has what the key holds.
pub get-value_at :
    (hash : String → ℕ) (now : ℕ) (ss : StorageServer) (a : GetArgs)
    → (get hash now ss a).1.status ≡ Status.ok
    → value_at ss a.key ≡ some (get hash now ss a).1.value
unfolding get
get-value_at hash now ss a ok = get_guarded-value_at now ss a _ (refusal-Refuses hash ss a.key) ok

-- The store after an update that answers `r`.
abbrev StoreAfter : StorageServer → PutArgs → StorageServer × Answer Status → Type 0
StoreAfter ss a r = r.0.key_value_store ≡ (
    if is_done r.1
    then insert string_dec a.key (record { value = a.value; lease_granted = [] }) ss.key_value_store
    else ss.key_value_store)

after_revoke-StoreAfter :
    (ss : StorageServer) (a : PutArgs) (r : Revocation)
    → SameStore ss (state_of r)
    → StoreAfter ss a (after_revoke r (λ ss'. (set_value ss' a, Status.ok)))
after_revoke-StoreAfter ss a (Revocation.revoked ss') h = ground (arith, h.values)
after_revoke-StoreAfter ss a (Revocation.dial_error ss') h = h.values
after_revoke-StoreAfter ss a (Revocation.blocked ss') h = h.values

put_found-StoreAfter :
    (env : String → Callback) (ss : StorageServer) (a : PutArgs) (o : Option ValueStore)
    → StoreAfter ss a (put_found env ss a o)
unfolding put_found
put_found-StoreAfter env ss a none = refl
put_found-StoreAfter env ss a (some v) =
    after_revoke-StoreAfter ss a _ (revoke-SameStore env ss v.lease_granted)

put_guarded-StoreAfter :
    (env : String → Callback) (ss : StorageServer) (a : PutArgs) (o : Option Status)
    → Refuses o
    → StoreAfter ss a (put_guarded env ss a o)
unfolding put_guarded
put_guarded-StoreAfter env ss a none h = put_found-StoreAfter env ss a _
put_guarded-StoreAfter env ss a (some s) h = ground arith

pub put-StoreAfter :
    (hash : String → ℕ) (env : String → Callback) (ss : StorageServer) (a : PutArgs)
    → StoreAfter ss a (put hash env ss a)
unfolding put
put-StoreAfter hash env ss a = put_guarded-StoreAfter env ss a _ (refusal-Refuses hash ss a.key)
