-- ===== src/Storage/Tests.antt =====
-- The theorems about storageserver_impl.go and the routing of libstore_impl.go at concrete inputs.
use mathlib.Core.List.{Perm}
use mathlib.Core.Option
use projects.Common.{
  subst, ◌≤◌, All, ℕ, ◌≡◌, refl, ◌↔◌, String, true, false, none, some, [], ◌∷◌, ◌++◌, map, lookup,
  insert, string_dec, inr, arith,
}
use projects.Storage.Rpc.{Status, Node, PutArgs}
use projects.Storage.Server.{
  valid_until, ValueStore, revoke_granted_lease, StorageServer, Leases, Callback,
  check_is_right_server, check_server_is_ready, contains,
}
use projects.Storage.Calls.{Answer, refusal, put, append_to_list, remove_from_list}
use projects.Storage.Ring.{register_server}
use projects.Storage.Values.{is_done, value_at, list_at, Updated, put_lem}
use projects.Storage.Items.{items_of, items, Distinct, append_to_list_lem}
use projects.Storage.Sets.{NoDuplicates, append_to_list-NoDuplicates}
use projects.Storage.Removal.{Without, remove_from_list-Without}
use projects.Storage.Leasing.{dial_error_blocks, put_succeeds}
use projects.Storage.Joining.{IsSorted, register_completes}
use projects.Libstore.Route.{find_shash_ring, route_agrees}

abbrev low : Node
low = record { host_port = "a:1"; node_id = 10 }

abbrev high : Node
high = record { host_port = "b:2"; node_id = 20 }

abbrev held : Leases
held = ("c:9", record { start_from = 100; valid_seconds = 12 }) ∷ []

abbrev server : StorageServer
server = record {
  status = Status.ok;
  key_value_store = ("u:x", record { value = "old"; lease_granted = held }) ∷ [];
  key_list_store = ("u:l", record { list = "p" ∷ "q" ∷ []; lease_granted = held }) ∷ [];
  is_master = true;
  node_id = 20;
  num_nodes = 2;
  servers_list = low ∷ high ∷ [];
  servers_map = [];
  client_cache = [];
  client_locked = [];
}

-- Every key hashes to 15, so it belongs to the second node.
abbrev hash : String → ℕ
hash key = 15

abbrev answering : String → Callback
answering host = record { now = 105; dials = true; answers = true; until = 112 }

abbrev silent : String → Callback
silent host = record { now = 105; dials = false; answers = false; until = 105 }

abbrev put_x : PutArgs
put_x = record { key = "u:x"; value = "new" }

abbrev item_p : PutArgs
item_p = record { key = "u:l"; value = "p" }

abbrev item_r : PutArgs
item_r = record { key = "u:l"; value = "r" }

put_lem_example : Updated value_at server "u:x" "new" (put hash answering server put_x)
put_lem_example = put_lem hash answering server put_x

append_to_list_lem_example :
    Updated list_at server "u:l"
      (items server "u:l" ++ "r" ∷ [])
      (append_to_list hash answering server item_r)
append_to_list_lem_example = append_to_list_lem hash answering server item_r

Distinct-lists :
    (k : String)
    → Distinct (items_of (Option.map (λ v. v.list) (lookup string_dec k server.key_list_store)))
unfolding lookup contains string_dec
Distinct-lists k = ground arith

server-NoDuplicates : NoDuplicates server
unfolding list_at
server-NoDuplicates k = Distinct-lists k

append_to_list-NoDuplicates_example : NoDuplicates (append_to_list hash answering server item_r).0
append_to_list-NoDuplicates_example =
    append_to_list-NoDuplicates hash answering server item_r server-NoDuplicates

removed : is_done (remove_from_list hash answering server item_p).1 ≡ true
unfolding remove_from_list check_server_is_ready check_is_right_server lookup string_dec
    revoke_granted_lease
removed = refl

remove_from_list-Without_example :
    Without "p" (items server "u:l") (items (remove_from_list hash answering server item_p).0 "u:l")
remove_from_list-Without_example = remove_from_list-Without hash answering server item_p removed

server_takes : refusal hash server "u:x" ≡ none
unfolding refusal check_server_is_ready check_is_right_server
server_takes = refl

found :
    lookup string_dec "u:x" server.key_value_store
    ≡ some (record { value = "old"; lease_granted = held })
unfolding lookup string_dec
found = refl

absent : contains "c:9" [] ≡ false
unfolding contains
absent = refl

dial_error_blocks_example :
    ((put hash silent server put_x).1 ≡ Answer.failed)
    × ((put hash answering (put hash silent server put_x).0 put_x).1 ≡ Answer.hangs)
dial_error_blocks_example =
    dial_error_blocks hash silent answering server put_x put_x "c:9"
      (record { start_from = 100; valid_seconds = 12 })
      (record { start_from = 100; valid_seconds = 12 }) [] [] "old" "old" found found (omega arith)
      (omega arith) refl absent absent server_takes server_takes

followed :
    (v : ValueStore)
    → lookup string_dec "u:x" server.key_value_store ≡ some v
    → All (λ e. valid_until e.1 ≤ (answering e.0).until) v.lease_granted
unfolding lookup string_dec
followed v e =
    let same : record { value = "old"; lease_granted = held } ≡ v = cc in
    subst (λ (v : ValueStore). All (λ e. valid_until e.1 ≤ (answering e.0).until) v.lease_granted)
      same (omega arith, tt)

put_succeeds_example : (put hash answering server put_x).1 ≡ Answer.replied Status.ok
put_succeeds_example =
    put_succeeds hash answering server put_x server_takes
      (inr (record { dials = λ h. refl; unlocked = refl; followed = followed }))

abbrev filling : StorageServer
filling = record server {
  status = Status.not_ready;
  servers_list = [];
  servers_map = ("b:2", high) ∷ [];
}

not_known : lookup string_dec "a:1" filling.servers_map ≡ none
unfolding lookup string_dec
not_known = refl

register_completes_example :
    let r = register_server filling low in
    (r.0.status ≡ Status.ok)
    × (r.1 ≡ some (record { status = Status.ok; servers = r.0.servers_list }))
    × IsSorted r.0.servers_list
    × Perm r.0.servers_list (map (λ e. e.1) (insert string_dec "a:1" low filling.servers_map))
register_completes_example = register_completes filling low refl not_known refl

routed : find_shash_ring hash server.servers_list "u:x" ≡ some high
unfolding find_shash_ring
routed = refl

route_agrees_example : (check_is_right_server hash server "u:x" ≡ true) ↔ (20 ≡ high.node_id)
route_agrees_example = route_agrees hash "u:x" server high routed
