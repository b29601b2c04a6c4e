-- ===== src/Libstore/Calls.antt =====
-- p2/src/github.com/cmu440/tribbler/libstore/libstore_impl.go: the calls of a libstore. What the
-- storage servers answer is a parameter, a `Network`; `hash` stands for `StoreHash` of a key's part
-- before its first colon.
use projects.Common.{
  ℕ, String, Bool, true, false, Option, none, some, List, [], ◌∷◌, ◌++◌, length, leb, if◌then◌else◌,
  lookup, insert, delete, string_dec,
}
use projects.Storage.Rpc.{
  Status, GetArgs, GetReply, GetListReply, PutArgs, Lease, query_cache_thresh,
}
use projects.Storage.Server.{is_ok, contains}
use projects.Libstore.Route.{find_shash_ring}
use projects.Libstore.Cache.{LeaseMode, LeaseType, ValueLib, ListLib, Libstore, expired, trim}

-- The answers of the hosts; `none` is an error of the rpc call.
pub record Network : Type 0 where
  pub dials : String → Bool
  pub get : String → GetArgs → Option GetReply
  pub get_list : String → GetArgs → Option GetListReply
  pub put : String → PutArgs → Option Status
  pub append_to_list : String → PutArgs → Option Status
  pub remove_from_list : String → PutArgs → Option Status

-- `no_server` is the panic on an empty list of servers.
pub data Error : Type 0 where
  no_server dial call refused : Error

pub data Result (A : Type 0) : Type 0 where
  ok : A → Result A
  error : Error → Result A

unfoldable pub result_of : {A : Type 0} → Option A → Result A
result_of none = Result.error Error.call
result_of (some a) = Result.ok a

-- A remote call, over the client of the host, which is dialled if there is none yet.
unfoldable pub call_host :
    {A : Type 0} → Network → Libstore → String → (String → Option A) → Libstore × Result A
unfolding contains result_of
call_host net ls host f =
    if contains host ls.client_map
    then (ls, result_of (f host))
    else (if net.dials host
        then (record ls { client_map = host ∷ ls.client_map }, result_of (f host))
        else (ls, Result.error Error.dial))

unfoldable pub call_key :
    {A : Type 0}
    → (String → ℕ)
    → Network
    → Libstore
    → String
    → (String → Option A)
    → Libstore × Result A
unfolding find_shash_ring call_host
call_key hash net ls key f = elim (find_shash_ring hash ls.servers key) [
  | none ↦ (ls, Result.error Error.no_server)
  | some n ↦ call_host net ls n.host_port f
]

-- The entry of a cache, unless its lease has run out, and the cache without such an entry.
unfoldable pub fresh :
    {V : Type 0} → (V → LeaseType) → ℕ → String → List (String × V) → List (String × V) × Option V
unfolding expired
fresh lease now key m = elim (lookup string_dec key m) [
  | none ↦ (m, none)
  | some v ↦ if expired now (lease v) then (delete string_dec key m, none) else (m, some v)
]

-- Records a query of a key that has a history, and says how many recent ones there are.
unfoldable pub note_query : ℕ → String → List (String × List ℕ) → List (String × List ℕ) × Option ℕ
unfolding trim
note_query now key h = elim (lookup string_dec key h) [
  | none ↦ (h, none)
  | some ts ↦ let q = trim now ts ++ now ∷ [] in (insert string_dec key q h, some (length q))
]

unfoldable pub want_lease : LeaseMode → Option ℕ → Bool
want_lease LeaseMode.never o = false
want_lease LeaseMode.always o = true
want_lease LeaseMode.normal none = false
want_lease LeaseMode.normal (some n) = leb query_cache_thresh n

abbrev pub get_args : Libstore → String → Bool → GetArgs
get_args ls key want = record { key = key; want_lease = want; host_port = ls.my_host_port }

abbrev pub lease_of : ℕ → Lease → LeaseType
lease_of now l = record { start_from = now; valid_seconds = l.valid_seconds }

unfoldable pub finish_get : ℕ → String → Libstore → Result GetReply → Libstore × Result String
finish_get now key ls (Result.error e) = (ls, Result.error e)
finish_get now key ls (Result.ok r) =
    if is_ok r.status
    then (if r.lease.granted
        then (
          record ls {
            key_value =
                insert string_dec key (record { value = r.value; lease = lease_of now r.lease })
                  ls.key_value;
          },
          Result.ok r.value,
        )
        else (ls, Result.ok r.value))
    else (ls, Result.error Error.refused)

-- The use of the storage server.
unfoldable pub fetch :
    (String → ℕ) → Network → ℕ → Libstore → String → Bool → Libstore × Result String
unfolding call_key finish_get
fetch hash net now ls key want =
    let (ls', r) = call_key hash net ls key (λ host. net.get host (get_args ls key want)) in
    finish_get now key ls' r

-- What the cache and the history give for a query, and the libstore after both are seen to.
unfoldable pub look_up : ℕ → String → Libstore → Libstore × (Option ValueLib × Option ℕ)
unfolding fresh note_query
look_up now key ls =
    let (m, hit) = fresh (λ v. v.lease) now key ls.key_value in
    let (h, queries) = note_query now key ls.value_history in
    (record ls { key_value = m; value_history = h }, (hit, queries))

unfoldable pub get : (String → ℕ) → Network → ℕ → Libstore → String → Libstore × Result String
unfolding look_up fetch want_lease
get hash net now ls key =
    let (ls', (hit, queries)) = look_up now key ls in
    elim hit [
      | some v ↦ (ls', Result.ok v.value)
      | none ↦ fetch hash net now ls' key (want_lease ls'.mode queries)
    ]

-- A key that is written gets a history.
unfoldable pub add_history : String → List (String × List ℕ) → List (String × List ℕ)
add_history key h = elim (lookup string_dec key h) [
  | none ↦ insert string_dec key [] h
  | some ts ↦ h
]

unfoldable pub finish_put : Libstore × Result Status → Libstore × Result Unit
finish_put (ls, Result.error e) = (ls, Result.error e)
finish_put (ls, Result.ok s) =
    if is_ok s then (ls, Result.ok tt) else (ls, Result.error Error.refused)

abbrev pub put_args : String → String → PutArgs
put_args key value = record { key = key; value = value }

unfoldable pub put : (String → ℕ) → Network → Libstore → String → String → Libstore × Result Unit
unfolding add_history call_key finish_put
put hash net ls key value =
    let ls' = record ls { value_history = add_history key ls.value_history } in
    finish_put (call_key hash net ls' key (λ host. net.put host (put_args key value)))

abbrev pub is_missing : Status → Bool
is_missing Status.key_not_found = true
is_missing _ = false

unfoldable pub finish_get_list :
    ℕ → String → Libstore → Result GetListReply → Libstore × Result (List String)
finish_get_list now key ls (Result.error e) = (ls, Result.error e)
finish_get_list now key ls (Result.ok r) =
    if is_ok r.status
    then (if r.lease.granted
        then (
          record ls {
            key_list =
                insert string_dec key (record { list = r.value; lease = lease_of now r.lease })
                  ls.key_list;
          },
          Result.ok r.value,
        )
        else (ls, Result.ok r.value))
    else (if is_missing r.status then (ls, Result.ok []) else (ls, Result.error Error.refused))

unfoldable pub fetch_list :
    (String → ℕ) → Network → ℕ → Libstore → String → Bool → Libstore × Result (List String)
unfolding call_key finish_get_list
fetch_list hash net now ls key want =
    let (ls', r) = call_key hash net ls key (λ host. net.get_list host (get_args ls key want)) in
    finish_get_list now key ls' r

unfoldable pub look_up_list : ℕ → String → Libstore → Libstore × (Option ListLib × Option ℕ)
unfolding fresh note_query
look_up_list now key ls =
    let (m, hit) = fresh (λ v. v.lease) now key ls.key_list in
    let (h, queries) = note_query now key ls.list_history in
    (record ls { key_list = m; list_history = h }, (hit, queries))

unfoldable pub get_list :
    (String → ℕ) → Network → ℕ → Libstore → String → Libstore × Result (List String)
unfolding look_up_list fetch_list want_lease
get_list hash net now ls key =
    let (ls', (hit, queries)) = look_up_list now key ls in
    elim hit [
      | some v ↦ (ls', Result.ok v.list)
      | none ↦ fetch_list hash net now ls' key (want_lease ls'.mode queries)
    ]

unfoldable pub append_to_list :
    (String → ℕ) → Network → Libstore → String → String → Libstore × Result Unit
unfolding add_history call_key finish_put
append_to_list hash net ls key item =
    let ls' = record ls { list_history = add_history key ls.list_history } in
    finish_put (call_key hash net ls' key (λ host. net.append_to_list host (put_args key item)))

unfoldable pub remove_from_list :
    (String → ℕ) → Network → Libstore → String → String → Libstore × Result Unit
unfolding call_key finish_put
remove_from_list hash net ls key item =
    finish_put (call_key hash net ls key (λ host. net.remove_from_list host (put_args key item)))

-- The callback of a storage server.
unfoldable pub revoke_lease : Libstore → String → Libstore × Status
revoke_lease ls key = elim (lookup string_dec key ls.key_value) [
  | some v ↦ (record ls { key_value = delete string_dec key ls.key_value }, Status.ok)
  | none ↦ elim (lookup string_dec key ls.key_list) [
    | some v ↦ (record ls { key_list = delete string_dec key ls.key_list }, Status.ok)
    | none ↦ (ls, Status.key_not_found)
  ]
]
