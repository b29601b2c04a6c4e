-- ===== src/Storage/Server.antt =====
-- p2/src/github.com/cmu440/tribbler/storageserver/storageserver_impl.go: the state of a storage
-- server, and its leases. Times are numbers of seconds; the mutexes of the keys make each call on
-- a key one step, so they are not part of the state.
use projects.Common.{
  ℕ, ◌+◌, String, Bool, true, false, Option, none, some, List, [], ◌∷◌, ltb, leb, ◌==◌, ◌||◌,
  if◌then◌else◌, lookup, insert, string_dec, ite,
}
use projects.Storage.Rpc.{Status, Node, Lease, no_lease, lease_seconds, lease_guard_seconds}

pub record LeaseTerm : Type 0 where
  pub start_from : ℕ
  pub valid_seconds : ℕ

abbrev pub Leases : Type 0
Leases = List (String × LeaseTerm)

pub record ValueStore : Type 0 where
  pub value : String
  pub lease_granted : Leases

pub record ListStore : Type 0 where
  pub list : List String
  pub lease_granted : Leases

-- `client_cache` holds the callback addresses that the server has dialled, and `client_locked`
-- those whose mutex a failed revocation has left locked.
pub record StorageServer : Type 0 where
  pub status : Status
  pub key_value_store : List (String × ValueStore)
  pub key_list_store : List (String × ListStore)
  pub is_master : Bool
  pub node_id : ℕ
  pub num_nodes : ℕ
  pub servers_list : List Node
  pub servers_map : List (String × Node)
  pub client_cache : List String
  pub client_locked : List String

abbrev pub is_ok : Status → Bool
is_ok Status.ok = true
is_ok _ = false

unfoldable pub check_server_is_ready : StorageServer → Bool
check_server_is_ready ss = is_ok ss.status

-- The first node whose id is at least the hash; `d` if there is none.
unfoldable pub node_of_hash : ℕ → ℕ → List Node → ℕ
node_of_hash h d [] = d
node_of_hash h d (n ∷ ns) = if leb h n.node_id then n.node_id else node_of_hash h d ns

-- `serversList[0].NodeID`; the empty list, at which the source panics, reads as 0.
unfoldable pub first_id : List Node → ℕ
first_id [] = 0
first_id (n ∷ ns) = n.node_id

-- `hash` is `StoreHash` of the part of a key before its first colon.
unfoldable pub check_is_right_server : (String → ℕ) → StorageServer → String → Bool
unfolding node_of_hash first_id
check_is_right_server hash ss key =
    node_of_hash (hash key) (first_id ss.servers_list) ss.servers_list == ss.node_id

abbrev pub valid_until : LeaseTerm → ℕ
valid_until l = l.start_from + l.valid_seconds

abbrev pub new_term : ℕ → LeaseTerm
new_term now = record { start_from = now; valid_seconds = lease_seconds + lease_guard_seconds }

unfoldable pub grant_after : ℕ → String → Leases → Option LeaseTerm → Leases × Lease
grant_after now host leases none = (
  insert string_dec host (new_term now) leases,
  record { granted = true; valid_seconds = lease_seconds },
)
grant_after now host leases (some l) =
    if ltb (valid_until l) now
    then (
      insert string_dec host (new_term now) leases,
      record { granted = true; valid_seconds = lease_seconds },
    )
    else (leases, no_lease)

unfoldable pub grant_lease_if_necessary : ℕ → String → Leases → Leases × Lease
unfolding grant_after
grant_lease_if_necessary now host leases =
    grant_after now host leases (lookup string_dec host leases)

unfoldable pub contains : String → List String → Bool
contains s [] = false
contains s (t ∷ ts) = ite (string_dec t s) true (contains s ts)

-- What happens at the revocation of one lease: the time at its start, whether a dial succeeds, whether
-- the holder's answer to the callback has come, and the time until which the call is followed.
pub record Callback : Type 0 where
  pub now : ℕ
  pub dials : Bool
  pub answers : Bool
  pub until : ℕ

-- `dial_error` ends the call with an error; `blocked` waits, for a mutex that nobody releases or for
-- the end of a lease.
pub data Revocation : Type 0 where
  revoked dial_error blocked : StorageServer → Revocation

-- The dial, under the mutex of the address, which is released unless the dial fails.
unfoldable pub revoke_one : Callback → StorageServer → String → Revocation
unfolding contains
revoke_one cb ss host =
    if contains host ss.client_locked
    then Revocation.blocked ss
    else (if contains host ss.client_cache
        then Revocation.revoked ss
        else (if cb.dials
            then Revocation.revoked (record ss { client_cache = host ∷ ss.client_cache })
            else Revocation.dial_error (record ss { client_locked = host ∷ ss.client_locked })))

-- The receive from the channel on which the holder's answer and the end of the lease are announced.
unfoldable pub await_revoked : Callback → LeaseTerm → Revocation → Revocation
await_revoked cb l (Revocation.revoked ss) =
    if cb.answers || leb (valid_until l) cb.until
    then Revocation.revoked ss
    else Revocation.blocked ss
await_revoked cb l (Revocation.dial_error ss) = Revocation.dial_error ss
await_revoked cb l (Revocation.blocked ss) = Revocation.blocked ss

-- A lease that has run out is passed over; for another the loop waits until the holder answers or
-- the lease runs out, whichever is first.
unfoldable pub revoke_next : Callback → StorageServer → String → LeaseTerm → Revocation
unfolding revoke_one await_revoked
revoke_next cb ss host l =
    if ltb cb.now (valid_until l)
    then await_revoked cb l (revoke_one cb ss host)
    else Revocation.revoked ss

abbrev pub and_then : Revocation → (StorageServer → Revocation) → Revocation
and_then (Revocation.revoked ss) f = f ss
and_then (Revocation.dial_error ss) f = Revocation.dial_error ss
and_then (Revocation.blocked ss) f = Revocation.blocked ss

-- The loop over the granted leases.
unfoldable pub revoke_granted_lease : (String → Callback) → StorageServer → Leases → Revocation
unfolding revoke_next
revoke_granted_lease env ss [] = Revocation.revoked ss
revoke_granted_lease env ss ((host, l) ∷ ls) =
    and_then (revoke_next (env host) ss host l) (λ ss'. revoke_granted_lease env ss' ls)
