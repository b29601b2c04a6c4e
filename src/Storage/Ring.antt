-- ===== src/Storage/Ring.antt =====
-- p2/src/github.com/cmu440/tribbler/storageserver/storageserver_impl.go: how the servers of a ring
-- find one another. A server is new, or a slave that has joined; the master fills the ring by
-- `RegisterServer`.
use projects.Common.{
  ℕ, zero, suc, String, Bool, true, false, Option, none, some, List, [], ◌∷◌, map, ltb, ◌==◌,
  if◌then◌else◌, lookup, insert, string_dec, length,
}
use projects.Storage.Rpc.{Status, Node, RegisterReply}
use projects.Storage.Server.{StorageServer, is_ok}

blank_nodes : ℕ → List Node
blank_nodes zero = []
blank_nodes (suc n) = record { host_port = ""; node_id = 0 } ∷ blank_nodes n

-- `NewStorageServer` up to the registration; `none` is the error of an illegal `numNodes`.
unfoldable pub new_storage_server : Bool → ℕ → ℕ → Option StorageServer
unfolding blank_nodes
new_storage_server is_master zero node_id = none
new_storage_server is_master (suc n) node_id = some (record {
  status = Status.not_ready;
  key_value_store = [];
  key_list_store = [];
  is_master = is_master;
  node_id = node_id;
  num_nodes = suc n;
  servers_list = blank_nodes (suc n);
  servers_map = [];
  client_cache = [];
  client_locked = [];
})

-- A slave whose registration was answered OK.
unfoldable pub joined : StorageServer → RegisterReply → StorageServer
joined ss reply = record ss {
  servers_list = reply.servers;
  num_nodes = length reply.servers;
  status = Status.ok;
}

-- The inner loop: `x` is at index `i`, and is exchanged with each later node that is smaller.
unfoldable pub exchange : Node → List Node → Node × List Node
exchange x [] = (x, [])
exchange x (y ∷ ys) =
    let less = ltb y.node_id x.node_id in
    let (least, rest) = exchange (if less then y else x) ys in
    (least, (if less then x else y) ∷ rest)

-- The outer loop, over the indices that are left.
unfoldable pub sort_nodes : ℕ → List Node → List Node
unfolding exchange
sort_nodes zero l = l
sort_nodes (suc n) [] = []
sort_nodes (suc n) (x ∷ xs) = let (least, rest) = exchange x xs in least ∷ sort_nodes n rest

unfoldable pub nodes_of : List (String × Node) → List Node
nodes_of m = map (λ e. e.1) m

-- `none` is an error of the call; the node is in the map even then.
unfoldable pub register_master : StorageServer → Node → Bool → StorageServer × Option RegisterReply
unfolding sort_nodes nodes_of
register_master ss node known =
    let registered = insert string_dec node.host_port node ss.servers_map in
    let ss' = record ss { servers_map = registered } in
    let filled = record ss' {
      servers_list = sort_nodes ss.num_nodes (nodes_of registered);
      status = Status.ok;
    } in
    let ready = if known then ss' else filled in
    if ltb ss.num_nodes (length registered)
    then (ss', none)
    else (if length registered == ss.num_nodes
        then (ready, some (record { servers = ready.servers_list; status = Status.ok }))
        else (ss', some (record { servers = []; status = Status.not_ready })))

unfoldable pub is_known : Option Node → Bool
is_known none = false
is_known (some n) = true

unfoldable pub register_server : StorageServer → Node → StorageServer × Option RegisterReply
unfolding register_master is_known
register_server ss node =
    if ss.is_master
    then register_master ss node (is_known (lookup string_dec node.host_port ss.servers_map))
    else (ss, none)

unfoldable pub get_servers : StorageServer → Option RegisterReply
get_servers ss =
    if ss.is_master
    then some
        (record { servers = if is_ok ss.status then ss.servers_list else []; status = ss.status })
    else none
