-- ===== src/Libstore/Staleness.antt =====
-- libstore_impl.go: a cache never gives a value that the server no longer has.
use projects.Common.{ℕ, ◌≤◌, ◌≡◌, ◌⊎◌, String, true}
use projects.Storage.Rpc.{Status, PutArgs}
use projects.Storage.Server.{StorageServer, Callback}
use projects.Storage.Calls.{Answer}
use projects.Storage.Calls as Serve
use projects.Libstore.Cache.{Libstore}
use projects.Libstore.Calls.{put, revoke_lease}
use projects.Libstore.Covering.{Coherent}
use projects.Libstore.Coherence.{Cluster}

module _ (hash : String → ℕ) (c : Cluster) (t : ℕ) (a : PutArgs) (env : String → Callback)
    (clients : String → Libstore) (co : Coherent c) (le : c.clock ≤ t)
    (served : (h : String)
      → (clients h ≡ c.clients h) ⊎ (clients h ≡ (revoke_lease (c.clients h) a.key).0))
    (now : (h : String) → (env h).now ≤ t) (until : (h : String) → (env h).until ≤ t)
    (answered : (h : String)
      → (env h).answers ≡ true
      → clients h ≡ (revoke_lease (c.clients h) a.key).0) where
  abbrev done : StorageServer × Answer Status
  done = Serve.put hash env c.server a
