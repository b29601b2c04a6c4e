-- ===== src/Libstore/Route.antt =====
-- p2/src/github.com/cmu440/tribbler/libstore/libstore_impl.go: which server a key is sent to, and
-- that the server agrees. `hash` stands for `StoreHash` of a key's part before its first colon.
use projects.Common.{
  ℕ, ◌≡◌, ◌↔◌, String, true, Option, none, some, List, [], ◌∷◌, leb, if◌then◌else◌, arith,
}
use projects.Storage.Rpc.{Node}
use projects.Storage.Server.{StorageServer, check_is_right_server, node_of_hash, first_id}

first_or : Option Node → List Node → Option Node
first_or d [] = d
first_or d (n ∷ ns) = some n

-- The loop over the servers; `d` is the result once they are used up.
unfoldable pub find_from : ℕ → Option Node → List Node → Option Node
find_from h d [] = d
find_from h d (n ∷ ns) = if leb h n.node_id then some n else find_from h d ns

-- The server of a key; `none` is the panic on an empty list.
unfoldable pub find_shash_ring : (String → ℕ) → List Node → String → Option Node
unfolding first_or find_from
find_shash_ring hash servers key = find_from (hash key) (first_or none servers) servers

find_from-node_of_hash :
    (h : ℕ) (d n : Node) (ns : List Node)
    → find_from h (some d) ns ≡ some n
    → node_of_hash h d.node_id ns ≡ n.node_id
unfolding find_from node_of_hash
find_from-node_of_hash h d n [] e = ground arith
find_from-node_of_hash h d n (m ∷ ns) e = ground (arith, find_from-node_of_hash h d n ns)

route_id :
    (hash : String → ℕ) (key : String) (servers : List Node) (n : Node)
    → find_shash_ring hash servers key ≡ some n
    → node_of_hash (hash key) (first_id servers) servers ≡ n.node_id
unfolding find_shash_ring first_id
route_id hash key [] n e = ground arith
route_id hash key (m ∷ ns) n e = find_from-node_of_hash (hash key) m n (m ∷ ns) e

-- A storage server takes a key exactly if it has the id of the node that a client with the same
-- list of servers sends the key to.
pub route_agrees :
    (hash : String → ℕ) (key : String) (ss : StorageServer) (n : Node)
    → find_shash_ring hash ss.servers_list key ≡ some n
    → (check_is_right_server hash ss key ≡ true) ↔ (ss.node_id ≡ n.node_id)
unfolding check_is_right_server
route_agrees hash key ss n e = ground (arith, route_id hash key ss.servers_list n e)
