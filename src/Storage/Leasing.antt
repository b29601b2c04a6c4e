-- ===== src/Storage/Leasing.antt =====
-- storageserver_impl.go: which leases are granted, and when an update gets past them.
use projects.Common.{
  All, ◌∙◌, ℕ, ◌≤◌, ◌<◌, ◌≡◌, refl, ◌⊎◌, inl, inr, String, true, false, Option, none, some, List,
  [], ◌∷◌, if◌then◌else◌, ltb, Bool-cases, Option-cases, lookup, lookup-insert, string_dec, ite,
  arith, lt→ltb,
}
use projects.Storage.Rpc.{Status, PutArgs, lease_seconds}
use projects.Storage.Server.{
  check_is_right_server, check_server_is_ready, ValueStore, StorageServer, LeaseTerm, Leases,
  Callback, Revocation, valid_until, new_term, grant_lease_if_necessary, grant_after, contains,
  revoke_one, revoke_next, revoke_granted_lease, await_revoked,
}
use projects.Storage.Calls.{set_value, Answer, refusal, after_revoke, put, put_found, put_guarded}

abbrev pub Live : ℕ → Option LeaseTerm → Type 0
Live now none = ⊥
Live now (some l) = now ≤ valid_until l

grant_after_lem :
    (now : ℕ) (host j : String) (ls : Leases) (o : Option LeaseTerm)
    → lookup string_dec host ls ≡ o
    → let r = grant_after now host ls o in
      ((r.1.granted ≡ true) ⊎ Live now o)
      × (lookup string_dec j r.0 ≡ (
          if r.1.granted
          then ite (string_dec host j) (some (new_term now)) (lookup string_dec j ls)
          else lookup string_dec j ls))
      × (r.1.valid_seconds ≡ (if r.1.granted then lease_seconds else 0))
unfolding grant_after
grant_after_lem now host j ls none e =
    (inl refl, lookup-insert string_dec host j (new_term now) ls, refl)
grant_after_lem now host j ls (some l) e = elim (Bool-cases (ltb (valid_until l) now)) [
  | inl x ↦ rw x (inl refl, lookup-insert string_dec host j (new_term now) ls, refl)
  | inr x ↦ rw x (inr (ground arith), refl, refl)
]

-- A lease is refused only to a holder whose lease has not run out. A granted one is recorded for
-- the holder from now on, for the guard's seconds longer than the holder is told, and the records
-- of all other holders stay.
pub grant_lease_lem :
    (now : ℕ) (host j : String) (ls : Leases)
    → let r = grant_lease_if_necessary now host ls in
      ((r.1.granted ≡ true) ⊎ Live now (lookup string_dec host ls))
      × (lookup string_dec j r.0 ≡ (
          if r.1.granted
          then ite (string_dec host j) (some (new_term now)) (lookup string_dec j ls)
          else lookup string_dec j ls))
      × (r.1.valid_seconds ≡ (if r.1.granted then lease_seconds else 0))
unfolding grant_lease_if_necessary
grant_lease_lem now host j ls = grant_after_lem now host j ls _ refl

-- A dial that fails at a live lease leaves the holder's mutex locked.
revoke_dial_fails :
    (cb : Callback) (ss : StorageServer) (host : String) (l : LeaseTerm)
    → cb.now < valid_until l
    → cb.dials ≡ false
    → contains host ss.client_locked ≡ false
    → contains host ss.client_cache ≡ false
    → revoke_next cb ss host l
      ≡ Revocation.dial_error (record ss { client_locked = host ∷ ss.client_locked })
unfolding revoke_next revoke_one await_revoked
revoke_dial_fails cb ss host l live d a b = rw (lt→ltb _ _ live, a, b, d)

revoke_blocks :
    (cb : Callback) (ss : StorageServer) (host : String) (l : LeaseTerm)
    → cb.now < valid_until l
    → contains host ss.client_locked ≡ true
    → revoke_next cb ss host l ≡ Revocation.blocked ss
unfolding revoke_next revoke_one await_revoked
revoke_blocks cb ss host l live a = rw (lt→ltb _ _ live, a)

contains-cons : (x : String) (xs : List String) → contains x (x ∷ xs) ≡ true
unfolding contains
contains-cons x xs = ground arith

put_eq :
    (hash : String → ℕ) (env : String → Callback) (ss : StorageServer) (a : PutArgs)
    → put hash env ss a ≡ put_guarded env ss a (refusal hash ss a.key)
unfolding put
put_eq hash env ss a = refl

-- A `Put` that passes the guards on a key with a first lease goes by the revocation.
put_revokes :
    (hash : String → ℕ) (env : String → Callback) (ss : StorageServer) (a : PutArgs)
    (v : ValueStore) (r : Revocation)
    → lookup string_dec a.key ss.key_value_store ≡ some v
    → refusal hash ss a.key ≡ none
    → revoke_granted_lease env ss v.lease_granted ≡ r
    → put hash env ss a ≡ after_revoke r (λ ss'. (set_value ss' a, Status.ok))
unfolding put_guarded put_found
put_revokes hash env ss a v r e p q = rw (put_eq hash env ss a, p) (rw (e, q) refl)

refusal_locked :
    (hash : String → ℕ) (ss : StorageServer) (k : String) (hosts : List String)
    → refusal hash (record ss { client_locked = hosts }) k ≡ refusal hash ss k
unfolding refusal check_server_is_ready check_is_right_server
refusal_locked hash ss k hosts = refl

-- If the holder of a live lease, the first of its key, is not dialled yet and cannot be dialled, a
-- `Put` to the key fails. Afterwards a `Put` to any key whose first lease is the same holder's and is
-- live does not return, whatever the dial would do then.
pub dial_error_blocks :
    (hash : String → ℕ) (env later : String → Callback) (ss : StorageServer) (a b : PutArgs)
    (host : String) (l k : LeaseTerm) (ls ks : Leases) (v w : String)
    → lookup string_dec a.key ss.key_value_store
      ≡ some (record { value = v; lease_granted = (host, l) ∷ ls })
    → lookup string_dec b.key ss.key_value_store
      ≡ some (record { value = w; lease_granted = (host, k) ∷ ks })
    → (env host).now < valid_until l
    → (later host).now < valid_until k
    → (env host).dials ≡ false
    → contains host ss.client_locked ≡ false
    → contains host ss.client_cache ≡ false
    → refusal hash ss a.key ≡ none
    → refusal hash ss b.key ≡ none
    → ((put hash env ss a).1 ≡ Answer.failed)
      × ((put hash later (put hash env ss a).0 b).1 ≡ Answer.hangs)
unfolding revoke_granted_lease
dial_error_blocks hash env later ss a b host l k ls ks v w ea eb la lb d n m ra rb =
    let ss' = record ss { client_locked = host ∷ ss.client_locked } in
    let first : put hash env ss a ≡ (ss', Answer.failed) =
      put_revokes hash env ss a _ (Revocation.dial_error ss') ea ra
        (rw (revoke_dial_fails (env host) ss host l la d n m) refl) in
    let second : put hash later ss' b ≡ (ss', Answer.hangs) =
      put_revokes hash later ss' b _ (Revocation.blocked ss') eb
        (refusal_locked hash ss b.key (host ∷ ss.client_locked) ∙ rb)
        (rw (revoke_blocks (later host) ss' host k lb (contains-cons host ss.client_locked))
          refl) in
    (rw first refl, rw first (rw second refl))

-- Every holder can be dialled, no mutex is left locked, and the call is followed until the leases of
-- its key have run out.
pub record Reachable (env : String → Callback) (ss : StorageServer) (key : String) : Type 0 where
  pub dials : (h : String) → (env h).dials ≡ true
  pub unlocked : ss.client_locked ≡ []
  pub followed :
      (v : ValueStore)
      → lookup string_dec key ss.key_value_store ≡ some v
      → All (λ e. valid_until e.1 ≤ (env e.0).until) v.lease_granted

abbrev IsRevoked : Revocation → Type 0
IsRevoked r = (ss : StorageServer) × (r ≡ Revocation.revoked ss) × (ss.client_locked ≡ [])

await_lem :
    (cb : Callback) (l : LeaseTerm) (ss : StorageServer)
    → valid_until l ≤ cb.until
    → await_revoked cb l (Revocation.revoked ss) ≡ Revocation.revoked ss
unfolding await_revoked
await_lem cb l ss le = ground arith

revoke_next_reached :
    (cb : Callback) (ss : StorageServer) (host : String) (l : LeaseTerm)
    → cb.dials ≡ true
    → ss.client_locked ≡ []
    → valid_until l ≤ cb.until
    → IsRevoked (revoke_next cb ss host l)
unfolding revoke_next revoke_one contains
revoke_next_reached cb ss host l d e le =
    let free : contains host ss.client_locked ≡ false = ground (arith, e) in
    elim (Bool-cases (ltb cb.now (valid_until l))) [
      | inl x ↦ elim (Bool-cases (contains host ss.client_cache)) [
        | inl y ↦ (ss, rw (x, free, y) (await_lem cb l ss le), e)
        | inr y ↦
            let ss' = record ss { client_cache = host ∷ ss.client_cache } in
            (ss', rw (x, free, y, d) (await_lem cb l ss' le), e)
      ]
      | inr x ↦ (ss, rw x refl, e)
    ]

revoke_reached :
    (env : String → Callback) (ss : StorageServer) (ls : Leases)
    → ((h : String) → (env h).dials ≡ true)
    → ss.client_locked ≡ []
    → All (λ e. valid_until e.1 ≤ (env e.0).until) ls
    → IsRevoked (revoke_granted_lease env ss ls)
unfolding revoke_granted_lease
revoke_reached env ss [] d e ends = (ss, refl, e)
revoke_reached env ss ((host, l) ∷ ls) d e ends =
    let (ss', r, e') = revoke_next_reached (env host) ss host l (d host) e ends.0 in
    let (ss'', r', e'') = revoke_reached env ss' ls d e' ends.1 in (ss'', rw r r', e'')

-- On a key of its own, a server that is ready answers `Put` with OK if the key is new. If it is not, it
-- does so by the time that all leases of the key have run out, whether or not a holder answers its
-- callback, if every holder of a lease can be dialled and no mutex is left locked.
pub put_succeeds :
    (hash : String → ℕ) (env : String → Callback) (ss : StorageServer) (a : PutArgs)
    → refusal hash ss a.key ≡ none
    → (lookup string_dec a.key ss.key_value_store ≡ none) ⊎ Reachable env ss a.key
    → (put hash env ss a).1 ≡ Answer.replied Status.ok
unfolding put_guarded put_found
put_succeeds hash env ss a p (inl new) = rw (put_eq hash env ss a, p) (rw new refl)
put_succeeds hash env ss a p (inr reach) =
    elim (Option-cases (lookup string_dec a.key ss.key_value_store)) [
      | inl new ↦ rw (put_eq hash env ss a, p) (rw new refl)
      | inr (v, old) ↦
          let (ss', r, e') =
            revoke_reached env ss v.lease_granted reach.dials reach.unlocked
              (reach.followed v old) in
          rw (put_revokes hash env ss a v (Revocation.revoked ss') old p r) refl
    ]
