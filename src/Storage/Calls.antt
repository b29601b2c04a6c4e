-- ===== src/Storage/Calls.antt =====
-- p2/src/github.com/cmu440/tribbler/storageserver/storageserver_impl.go: the calls on keys and on
-- lists. `hash` stands for `StoreHash` of a key's part before its first colon.
use projects.Common.{
  ℕ, String, Bool, Option, none, some, List, [], ◌∷◌, ◌++◌, if◌then◌else◌, lookup, insert,
  string_dec, ite,
}
use projects.Storage.Rpc.{Status, Lease, no_lease, GetArgs, GetReply, GetListReply, PutArgs}
use projects.Storage.Server.{
  StorageServer, ValueStore, ListStore, Leases, Callback, Revocation, check_server_is_ready,
  check_is_right_server, grant_lease_if_necessary, revoke_granted_lease, contains,
}

-- How a call ends: with a reply, with an error, or never.
pub data Answer {ℓ} (A : Type ℓ) : Type ℓ where
  replied : A → Answer A
  failed hangs : Answer A

-- The guards that every call begins with; `none` lets the call go on.
unfoldable pub refusal : (String → ℕ) → StorageServer → String → Option Status
refusal hash ss key =
    if check_server_is_ready ss
    then (if check_is_right_server hash ss key then none else some Status.wrong_server)
    else some Status.not_ready

unfoldable pub leases_for : Bool → ℕ → String → Leases → Leases × Lease
leases_for want now host ls = if want then grant_lease_if_necessary now host ls else (ls, no_lease)

unfoldable pub get_found :
    ℕ → StorageServer → GetArgs → Option ValueStore → StorageServer × GetReply
unfolding leases_for
get_found now ss a none =
    (ss, record { status = Status.key_not_found; value = ""; lease = no_lease })
get_found now ss a (some v) =
    let (ls, lease) = leases_for a.want_lease now a.host_port v.lease_granted in
    (
      record ss {
        key_value_store =
            insert string_dec a.key (record v { lease_granted = ls }) ss.key_value_store;
      },
      record { status = Status.ok; value = v.value; lease = lease },
    )

unfoldable pub get_guarded : ℕ → StorageServer → GetArgs → Option Status → StorageServer × GetReply
unfolding get_found
get_guarded now ss a (some s) = (ss, record { status = s; value = ""; lease = no_lease })
get_guarded now ss a none = get_found now ss a (lookup string_dec a.key ss.key_value_store)

unfoldable pub get : (String → ℕ) → ℕ → StorageServer → GetArgs → StorageServer × GetReply
unfolding get_guarded refusal
get hash now ss a = get_guarded now ss a (refusal hash ss a.key)

unfoldable pub list_found :
    ℕ → StorageServer → GetArgs → Option ListStore → StorageServer × GetListReply
unfolding leases_for
list_found now ss a none =
    (ss, record { status = Status.key_not_found; value = []; lease = no_lease })
list_found now ss a (some v) =
    let (ls, lease) = leases_for a.want_lease now a.host_port v.lease_granted in
    (
      record ss {
        key_list_store =
            insert string_dec a.key (record v { lease_granted = ls }) ss.key_list_store;
      },
      record { status = Status.ok; value = v.list; lease = lease },
    )

unfoldable pub list_guarded :
    ℕ → StorageServer → GetArgs → Option Status → StorageServer × GetListReply
unfolding list_found
list_guarded now ss a (some s) = (ss, record { status = s; value = []; lease = no_lease })
list_guarded now ss a none = list_found now ss a (lookup string_dec a.key ss.key_list_store)

unfoldable pub get_list : (String → ℕ) → ℕ → StorageServer → GetArgs → StorageServer × GetListReply
unfolding list_guarded refusal
get_list hash now ss a = list_guarded now ss a (refusal hash ss a.key)

abbrev pub set_value : StorageServer → PutArgs → StorageServer
set_value ss a = record ss {
  key_value_store =
      insert string_dec a.key (record { value = a.value; lease_granted = [] }) ss.key_value_store;
}

-- An update goes on once every lease is revoked.
abbrev pub after_revoke :
    Revocation → (StorageServer → StorageServer × Status) → StorageServer × Answer Status
after_revoke (Revocation.revoked ss) f = ((f ss).0, Answer.replied (f ss).1)
after_revoke (Revocation.dial_error ss) f = (ss, Answer.failed)
after_revoke (Revocation.blocked ss) f = (ss, Answer.hangs)

unfoldable pub put_found :
    (String → Callback)
    → StorageServer
    → PutArgs
    → Option ValueStore
    → StorageServer × Answer Status
put_found env ss a none = (set_value ss a, Answer.replied Status.ok)
put_found env ss a (some v) =
    after_revoke (revoke_granted_lease env ss v.lease_granted) λ ss'. (set_value ss' a, Status.ok)

unfoldable pub put_guarded :
    (String → Callback) → StorageServer → PutArgs → Option Status → StorageServer × Answer Status
unfolding put_found
put_guarded env ss a (some s) = (ss, Answer.replied s)
put_guarded env ss a none = put_found env ss a (lookup string_dec a.key ss.key_value_store)

unfoldable pub put :
    (String → ℕ) → (String → Callback) → StorageServer → PutArgs → StorageServer × Answer Status
unfolding put_guarded refusal
put hash env ss a = put_guarded env ss a (refusal hash ss a.key)

abbrev pub set_list : StorageServer → String → List String → StorageServer
set_list ss key l = record ss {
  key_list_store =
      insert string_dec key (record { list = l; lease_granted = [] }) ss.key_list_store;
}

unfoldable pub append_item : PutArgs → List String → StorageServer → StorageServer × Status
unfolding contains
append_item a l ss =
    if contains a.value l
    then (set_list ss a.key l, Status.item_exists)
    else (set_list ss a.key (l ++ a.value ∷ []), Status.ok)

unfoldable pub append_found :
    (String → Callback) → StorageServer → PutArgs → Option ListStore → StorageServer × Answer Status
unfolding append_item
append_found env ss a none = (set_list ss a.key (a.value ∷ []), Answer.replied Status.ok)
append_found env ss a (some v) =
    after_revoke (revoke_granted_lease env ss v.lease_granted) (append_item a v.list)

unfoldable pub append_guarded :
    (String → Callback) → StorageServer → PutArgs → Option Status → StorageServer × Answer Status
unfolding append_found
append_guarded env ss a (some s) = (ss, Answer.replied s)
append_guarded env ss a none = append_found env ss a (lookup string_dec a.key ss.key_list_store)

unfoldable pub append_to_list :
    (String → ℕ) → (String → Callback) → StorageServer → PutArgs → StorageServer × Answer Status
unfolding append_guarded refusal
append_to_list hash env ss a = append_guarded env ss a (refusal hash ss a.key)

-- Removes the first copy of the item.
unfoldable pub remove_first : String → List String → List String
remove_first s [] = []
remove_first s (t ∷ ts) = ite (string_dec t s) ts (t ∷ remove_first s ts)

unfoldable pub remove_item : PutArgs → List String → StorageServer → StorageServer × Status
unfolding contains remove_first
remove_item a l ss =
    if contains a.value l
    then (set_list ss a.key (remove_first a.value l), Status.ok)
    else (set_list ss a.key l, Status.item_not_found)

unfoldable pub remove_found :
    (String → Callback) → StorageServer → PutArgs → Option ListStore → StorageServer × Answer Status
unfolding remove_item
remove_found env ss a none = (ss, Answer.replied Status.item_not_found)
remove_found env ss a (some v) =
    after_revoke (revoke_granted_lease env ss v.lease_granted) (remove_item a v.list)

unfoldable pub remove_guarded :
    (String → Callback) → StorageServer → PutArgs → Option Status → StorageServer × Answer Status
unfolding remove_found
remove_guarded env ss a (some s) = (ss, Answer.replied s)
remove_guarded env ss a none = remove_found env ss a (lookup string_dec a.key ss.key_list_store)

unfoldable pub remove_from_list :
    (String → ℕ) → (String → Callback) → StorageServer → PutArgs → StorageServer × Answer Status
unfolding remove_guarded refusal
remove_from_list hash env ss a = remove_guarded env ss a (refusal hash ss a.key)
