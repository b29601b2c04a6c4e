-- ===== src/Libstore/Tests.antt =====
-- The theorems about libstore_impl.go at concrete inputs.
use projects.Common.{
  ℕ, zero, suc, ◌≤◌, ◌<◌, ◌≡◌, refl, String, true, false, Option, none, some, [], ◌∷◌, lookup,
  string_dec, arith, length,
}
use projects.Storage.Rpc.{Status, Node, RegisterReply, PutArgs, query_cache_thresh}
use projects.Storage.Server.{StorageServer, Callback, is_ok}
use projects.Storage.Calls as Serve
use projects.Libstore.Cache.{LeaseMode, Libstore, trim, new_libstore}
use projects.Libstore.Calls.{Network, get, revoke_lease}
use projects.Libstore.Answers.{question}
use projects.Libstore.Coherence.{Cluster, with_client}
use projects.Libstore.Queries.{
  without_leases, servers_of, Recent, trim-Recent, reader_never_leases, new_libstore_lem,
}

abbrev only : Node
only = record { host_port = "b:2"; node_id = 20 }

abbrev server : StorageServer
server = record {
  status = Status.ok;
  key_value_store = ("u:x", record { value = "old"; lease_granted = [] }) ∷ [];
  key_list_store = [];
  is_master = true;
  node_id = 20;
  num_nodes = 1;
  servers_list = only ∷ [];
  servers_map = [];
  client_cache = [];
  client_locked = [];
}

abbrev hash : String → ℕ
hash key = 15

abbrev client : String → Libstore
client host = record {
  servers = only ∷ [];
  key_value = [];
  key_list = [];
  value_history = [];
  list_history = [];
  mode = LeaseMode.always;
  my_host_port = host;
  client_map = "b:2" ∷ [];
}

-- The server answers every question at `t`.
abbrev answering : ℕ → StorageServer → Network
answering t ss = record {
  dials = λ host. true;
  get = λ host a. some (Serve.get hash t ss a).1;
  get_list = λ host a. none;
  put = λ host a. none;
  append_to_list = λ host a. none;
  remove_from_list = λ host a. none;
}

abbrev c0 : Cluster
c0 = record { clock = 90; server = server; clients = client }

-- The client at `c:9` reads and gets a lease.
abbrev c1 : Cluster
c1 = record c0 {
  clock = 101;
  server = (Serve.get hash 101 server (question 100 "u:x" (client "c:9"))).0;
  clients = with_client client "c:9" (get hash (answering 101 server) 100 (client "c:9") "u:x").0;
}

abbrev put_x : PutArgs
put_x = record { key = "u:x"; value = "new" }

abbrev env : String → Callback
env host = record { now = 105; dials = true; answers = true; until = 105 }

-- The server revokes the lease and takes a new value.
abbrev c2 : Cluster
c2 = record {
  clock = 105;
  server = (Serve.put hash env c1.server put_x).0;
  clients = λ h. (revoke_lease (c1.clients h) "u:x").0;
}

trim-Recent_example :
    Recent 12 (trim 12 (1 ∷ 4 ∷ 8 ∷ [])) × (length (trim 12 (1 ∷ 4 ∷ 8 ∷ [])) ≤ query_cache_thresh)
trim-Recent_example =
    trim-Recent 12 (1 ∷ 4 ∷ 8 ∷ [])
      ((omega arith, (omega arith, tt)), ((omega arith, tt), (tt, tt)))

abbrev reader : Libstore
reader = record (client "c:9") { mode = LeaseMode.normal }

reader_never_leases_example :
    let r = get hash (answering 101 server) 100 reader "u:x" in
    (get hash (without_leases (answering 101 server)) 100 reader "u:x" ≡ r)
    × (lookup string_dec "u:x" r.0.value_history ≡ none)
    × (r.0.mode ≡ LeaseMode.normal)
unfolding lookup string_dec
reader_never_leases_example =
    reader_never_leases hash (answering 101 server) 100 reader "u:x" refl refl

abbrev busy_once : ℕ → Option RegisterReply
busy_once zero = some (record { status = Status.not_ready; servers = [] })
busy_once (suc n) = some (record { status = Status.ok; servers = only ∷ [] })

new_libstore_lem_example :
    servers_of (new_libstore true busy_once "b:2" "c:9" LeaseMode.normal) ≡ some (only ∷ [])
new_libstore_lem_example =
    new_libstore_lem busy_once "b:2" "c:9" LeaseMode.normal 1
      (record { status = Status.ok; servers = only ∷ [] }) waits refl refl
  where
    waits :
        (i : ℕ) → i < 1 → (q : RegisterReply) × (busy_once i ≡ some q) × (is_ok q.status ≡ false)
    waits zero lt = (record { status = Status.not_ready; servers = [] }, refl, refl)
    waits (suc i) lt = absurd (omega arith)
