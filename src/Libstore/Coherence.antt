-- ===== src/Libstore/Coherence.antt =====
-- libstore_impl.go and storageserver_impl.go: a storage server with any number of libstores, over time.
-- A call is one step: the libstore holds the mutex of its key from the look into its cache to the
-- use of the reply, and the server that of the key it serves. The clocks of all hosts agree. A `Get` reads its clock when it has
-- the mutex; the source reads it just before, so a wait for the mutex is not covered.
use projects.Common.{ℕ, ◌≤◌, ◌≡◌, ◌⊎◌, String, true, none, some, [], string_dec, ite}
use projects.Storage.Rpc.{GetArgs, PutArgs}
use projects.Storage.Server.{StorageServer, Callback}
use projects.Storage.Calls.{Answer}
use projects.Storage.Calls as Serve
use projects.Libstore.Cache.{Libstore, epoch_time, Timer}
use projects.Libstore.Calls.{Network, get, put, revoke_lease}
use projects.Libstore.Answers.{question, hit}

pub record Cluster : Type 0 where
  pub clock : ℕ
  pub server : StorageServer
  pub clients : String → Libstore

abbrev pub with_client : (String → Libstore) → String → Libstore → String → Libstore
with_client f host ls h = ite (string_dec host h) ls (f h)

-- The server's answer to `Get` at the time, when it comes.
abbrev pub Answering : (String → ℕ) → ℕ → StorageServer → Network → Type 0
Answering hash t ss net =
    (host : String) (a : GetArgs)
    → (net.get host a ≡ some (Serve.get hash t ss a).1) ⊎ (net.get host a ≡ none)

pub data Step (hash : String → ℕ) (c : Cluster) : Cluster → Type 0 where
  -- A `Get` whose question reaches the server at `t`; the answer may be lost.
  asks :
      (host key : String) (now t : ℕ) (net : Network)
      → c.clock ≤ now
      → now ≤ t
      → hit now key (c.clients host) ≡ none
      → Answering hash t c.server net
      → Step hash c (record c {
        clock = t;
        server = (Serve.get hash t c.server (question now key (c.clients host))).0;
        clients = with_client c.clients host (get hash net now (c.clients host) key).0;
      })
  -- A `Get` that no server serves: a hit, a failed dial or a lost question.
  silent :
      (host key : String) (now t : ℕ) (net : Network)
      → c.clock ≤ now
      → now ≤ t
      → ((h : String) (a : GetArgs) → net.get h a ≡ none)
      → Step hash c (record c {
        clock = t;
        clients = with_client c.clients host (get hash net now (c.clients host) key).0;
      })
  -- A `Put` at the server, followed until `t`. A client may serve the callback, and one whose answer
  -- has come has served it.
  puts :
      (t : ℕ) (a : PutArgs) (env : String → Callback) (clients : String → Libstore)
      → c.clock ≤ t
      → ((h : String) → (env h).now ≤ t)
      → ((h : String) → (env h).until ≤ t)
      → ((h : String)
          → (clients h ≡ c.clients h) ⊎ (clients h ≡ (revoke_lease (c.clients h) a.key).0))
      → ((h : String) → (env h).answers ≡ true → clients h ≡ (revoke_lease (c.clients h) a.key).0)
      → Step hash c
          (record { clock = t; server = (Serve.put hash env c.server a).0; clients = clients })
  -- What a libstore does for a `Put` of its own.
  writes :
      (host key value : String) (net : Network)
      → Step hash c (record c {
        clients = with_client c.clients host (put hash net (c.clients host) key value).0;
      })
  upkeep :
      (host : String) (now : ℕ) (tm : Timer)
      → Step hash c
          (record c { clients = with_client c.clients host (epoch_time now tm (c.clients host)) })
  -- The calls on lists, and time that passes.
  elsewhere :
      (t : ℕ) (server : StorageServer) (clients : String → Libstore)
      → c.clock ≤ t
      → server.key_value_store ≡ c.server.key_value_store
      → ((h : String)
          → ((clients h).key_value ≡ (c.clients h).key_value)
            × ((clients h).my_host_port ≡ (c.clients h).my_host_port))
      → Step hash c (record { clock = t; server = server; clients = clients })

-- From libstores with empty caches that know their own hosts.
pub data Reach (hash : String → ℕ) : Cluster → Type 0 where
  start :
      (c : Cluster)
      → ((h : String) → ((c.clients h).key_value ≡ []) × ((c.clients h).my_host_port ≡ h))
      → Reach hash c
  next : {c d : Cluster} → Reach hash c → Step hash c d → Reach hash d
