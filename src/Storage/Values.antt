-- ===== src/Storage/Values.antt =====
-- storageserver_impl.go: what a key holds after a call.
use projects.Common.{
  ℕ, ◌≡◌, ◌≢◌, String, Bool, true, false, Option, none, some, List, [], ◌∷◌, if◌then◌else◌, lookup,
  lookup-insert, string_dec, ite, arith,
}
use mathlib.Core.Option
use projects.Storage.Rpc.{Status, PutArgs}
use projects.Storage.Server.{
  StorageServer, ValueStore, Leases, LeaseTerm, Callback, Revocation, revoke_granted_lease,
  revoke_next, and_then,
}
use projects.Storage.Calls.{set_value, Answer, refusal, after_revoke, put_found, put_guarded, put}

-- The two servers store the same and answer the same guards.
pub record SameStore (ss ss' : StorageServer) : Type 0 where
  pub values : ss'.key_value_store ≡ ss.key_value_store
  pub lists : ss'.key_list_store ≡ ss.key_list_store
  pub ready : ss'.status ≡ ss.status
  pub ring : ss'.servers_list ≡ ss.servers_list
  pub id : ss'.node_id ≡ ss.node_id

abbrev pub state_of : Revocation → StorageServer
state_of (Revocation.revoked ss) = ss
state_of (Revocation.dial_error ss) = ss
state_of (Revocation.blocked ss) = ss

SameStore-trans : (a b c : StorageServer) → SameStore a b → SameStore b c → SameStore a c
SameStore-trans a b c h k = ground arith

revoke_next-SameStore :
    (cb : Callback) (ss : StorageServer) (host : String) (l : LeaseTerm)
    → SameStore ss (state_of (revoke_next cb ss host l))
unfolding revoke_next
revoke_next-SameStore cb ss host l = ground arith

and_then-SameStore :
    (ss : StorageServer) (r : Revocation) (f : StorageServer → Revocation)
    → SameStore ss (state_of r)
    → ((ss' : StorageServer) → SameStore ss' (state_of (f ss')))
    → SameStore ss (state_of (and_then r f))
and_then-SameStore ss (Revocation.revoked ss') f h k = SameStore-trans ss ss' _ h (k ss')
and_then-SameStore ss (Revocation.dial_error ss') f h k = h
and_then-SameStore ss (Revocation.blocked ss') f h k = h

pub revoke-SameStore :
    (env : String → Callback) (ss : StorageServer) (ls : Leases)
    → SameStore ss (state_of (revoke_granted_lease env ss ls))
unfolding revoke_granted_lease
revoke-SameStore env ss [] = ground arith
revoke-SameStore env ss ((host, l) ∷ ls) =
    and_then-SameStore ss (revoke_next (env host) ss host l) _
      (revoke_next-SameStore (env host) ss host l) (λ ss'. revoke-SameStore env ss' ls)

-- The text that a key holds, and the items of a list key.
unfoldable pub value_at : StorageServer → String → Option String
value_at ss k = Option.map (λ v. v.value) (lookup string_dec k ss.key_value_store)

unfoldable pub list_at : StorageServer → String → Option (List String)
list_at ss k = Option.map (λ v. v.list) (lookup string_dec k ss.key_list_store)

abbrev pub is_done : Answer Status → Bool
is_done (Answer.replied Status.ok) = true
is_done _ = false

-- What each key holds after an update of `key` to `new` that answered `r`.
abbrev pub Updated :
    {A : Type 0}
    → (StorageServer → String → Option A)
    → StorageServer
    → String
    → A
    → StorageServer × Answer Status
    → Type 0
Updated at ss key new r =
    (j : String)
    → at r.0 j ≡ (if is_done r.1 then ite (string_dec key j) (some new) (at ss j) else at ss j)

set_value_at :
    (ss ss' : StorageServer) (a : PutArgs) (j : String)
    → SameStore ss ss'
    → value_at (set_value ss' a) j ≡ ite (string_dec a.key j) (some a.value) (value_at ss j)
unfolding value_at
set_value_at ss ss' a j h = ground (
  arith,
  lookup-insert string_dec a.key j (record { value = a.value; lease_granted = [] })
      ss'.key_value_store,
)

SameStore-value_at :
    (ss ss' : StorageServer) (j : String) → SameStore ss ss' → value_at ss' j ≡ value_at ss j
unfolding value_at
SameStore-value_at ss ss' j h = ground arith

pub SameStore-list_at :
    (ss ss' : StorageServer) (j : String) → SameStore ss ss' → list_at ss' j ≡ list_at ss j
unfolding list_at
SameStore-list_at ss ss' j h = ground arith

pub SameStore-refl : (ss : StorageServer) → SameStore ss ss
SameStore-refl ss = ground arith

after_put :
    (ss : StorageServer) (a : PutArgs) (r : Revocation)
    → SameStore ss (state_of r)
    → Updated value_at ss a.key a.value (after_revoke r (λ ss'. (set_value ss' a, Status.ok)))
after_put ss a (Revocation.revoked ss') h j = set_value_at ss ss' a j h
after_put ss a (Revocation.dial_error ss') h j = SameStore-value_at ss ss' j h
after_put ss a (Revocation.blocked ss') h j = SameStore-value_at ss ss' j h

put_found_lem :
    (env : String → Callback) (ss : StorageServer) (a : PutArgs) (o : Option ValueStore)
    → Updated value_at ss a.key a.value (put_found env ss a o)
unfolding put_found
put_found_lem env ss a none j = set_value_at ss ss a j (SameStore-refl ss)
put_found_lem env ss a (some v) j = after_put ss a _ (revoke-SameStore env ss v.lease_granted) j

abbrev pub Refuses : Option Status → Type 0
Refuses o = o ≢ some Status.ok

pub refusal-Refuses :
    (hash : String → ℕ) (ss : StorageServer) (k : String) → Refuses (refusal hash ss k)
unfolding refusal
refusal-Refuses hash ss k = ground arith

put_guarded_lem :
    (env : String → Callback) (ss : StorageServer) (a : PutArgs) (o : Option Status)
    → Refuses o
    → Updated value_at ss a.key a.value (put_guarded env ss a o)
unfolding put_guarded
put_guarded_lem env ss a none h j = put_found_lem env ss a _ j
put_guarded_lem env ss a (some s) h j = ground arith

-- After `Put` answers OK the key holds the new text and every other key what it held; after any
-- other answer, an error, or a call that does not return, every key holds what it held.
pub put_lem :
    (hash : String → ℕ) (env : String → Callback) (ss : StorageServer) (a : PutArgs)
    → Updated value_at ss a.key a.value (put hash env ss a)
unfolding put
put_lem hash env ss a = put_guarded_lem env ss a _ (refusal-Refuses hash ss a.key)
