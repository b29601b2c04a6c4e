-- ===== src/Tribbler/Backend.antt =====
-- libstore_impl.go and storageserver_impl.go behind the tribbler server: a libstore that takes no
-- leases and the one storage server of its ring, over a network that answers. It is a store as the
-- tribbler server relies on it.
use projects.Common.{
  ℕ, ◌≡◌, refl, sym, ap, inl, inr, String, true, false, Option, none, some, List, [], ◌∷◌, ◌++◌,
  if◌then◌else◌, lookup, lookup-insert, string_dec, Bool-cases, Option-cases, arith,
}
use projects.Storage.Rpc.{Status, Node}
use projects.Storage.Server.{
  StorageServer, ValueStore, ListStore, Callback, contains, check_server_is_ready,
  check_is_right_server, node_of_hash, first_id, revoke_granted_lease,
}
use projects.Storage.Calls.{
  Answer, refusal, leases_for, get_found, get_guarded, list_found, list_guarded, set_value,
  set_list, put_found, put_guarded, append_item, append_found, append_guarded, remove_first,
  remove_item, remove_found, remove_guarded,
}
use projects.Storage.Calls as Serve
use projects.Storage.Values.{list_at}
use projects.Storage.Items.{items}
use projects.Libstore.Route.{find_shash_ring, find_from}
use projects.Libstore.Cache.{LeaseMode, Libstore}
use projects.Libstore.Calls.{
  fresh, note_query, look_up, fetch, want_lease, finish_get, finish_get_list, look_up_list,
  fetch_list, add_history, finish_put, Network, Result, result_of, call_host, call_key, get_args,
  put_args,
}
use projects.Libstore.Calls as Client

abbrev pub here : Node
here = record { host_port = "here:1"; node_id = 1 }

-- What changes: the server's keys, none of them leased, and the client's histories.
pub record Deployed : Type 0 where
  pub values : List (String × ValueStore)
  pub lists : List (String × ListStore)
  pub value_history : List (String × List ℕ)
  pub list_history : List (String × List ℕ)
  pub values_free :
      (k : String) (v : ValueStore) → lookup string_dec k values ≡ some v → v.lease_granted ≡ []
  pub lists_free :
      (k : String) (v : ListStore) → lookup string_dec k lists ≡ some v → v.lease_granted ≡ []

abbrev pub server_of : Deployed → StorageServer
server_of s = record {
  status = Status.ok;
  key_value_store = s.values;
  key_list_store = s.lists;
  is_master = true;
  node_id = 1;
  num_nodes = 1;
  servers_list = here ∷ [];
  servers_map = [];
  client_cache = [];
  client_locked = [];
}

abbrev pub libstore : List (String × List ℕ) → List (String × List ℕ) → Libstore
libstore value_history list_history = record {
  servers = here ∷ [];
  key_value = [];
  key_list = [];
  value_history = value_history;
  list_history = list_history;
  mode = LeaseMode.never;
  my_host_port = "there:2";
  client_map = "here:1" ∷ [];
}

abbrev pub libstore_of : Deployed → Libstore
libstore_of s = libstore s.value_history s.list_history

abbrev pub status_of : Answer Status → Option Status
status_of (Answer.replied st) = some st
status_of Answer.failed = none
status_of Answer.hangs = none

abbrev pub env : String → Callback
env host = record { now = 0; dials = true; answers = true; until = 0 }

module _ (hash : String → ℕ) (now : ℕ) where
  abbrev pub network : Deployed → Network
  network s = record {
    dials = λ host. true;
    get = λ host a. some (Serve.get hash now (server_of s) a).1;
    get_list = λ host a. some (Serve.get_list hash now (server_of s) a).1;
    put = λ host a. status_of (Serve.put hash env (server_of s) a).1;
    append_to_list = λ host a. status_of (Serve.append_to_list hash env (server_of s) a).1;
    remove_from_list = λ host a. status_of (Serve.remove_from_list hash env (server_of s) a).1;
  }

  pub refusal_lem : (s : Deployed) (k : String) → refusal hash (server_of s) k ≡ none
  unfolding refusal check_server_is_ready check_is_right_server node_of_hash first_id
  refusal_lem s k = ground arith

  route_lem : (k : String) → find_shash_ring hash (here ∷ []) k ≡ some here
  unfolding find_shash_ring find_from
  route_lem k = ground arith

  call_key_lem :
      {A : Type 0} (h h' : List (String × List ℕ)) (net : Network) (k : String)
      (f : String → Option A)
      → call_key hash net (libstore h h') k f ≡ (libstore h h', result_of (f "here:1"))
  unfolding call_key call_host contains string_dec
  call_key_lem h h' net k f = rw (call_key, route_lem k) refl

  -- The server's side of each call.
  pub serve_get :
      (s : Deployed) (k : String)
      → Serve.get hash now (server_of s) (get_args (libstore_of s) k false)
        ≡ get_found now
            (server_of s)
            (get_args (libstore_of s) k false)
            (lookup string_dec k s.values)
  unfolding Serve.get get_guarded
  serve_get s k = rw (refusal_lem s k) refl

  pub serve_get_list :
      (s : Deployed) (k : String)
      → Serve.get_list hash now (server_of s) (get_args (libstore_of s) k false)
        ≡ list_found now
            (server_of s)
            (get_args (libstore_of s) k false)
            (lookup string_dec k s.lists)
  unfolding Serve.get_list list_guarded
  serve_get_list s k = rw (refusal_lem s k) refl

  pub serve_put :
      (s : Deployed) (k v : String)
      → Serve.put hash env (server_of s) (put_args k v)
        ≡ (set_value (server_of s) (put_args k v), Answer.replied Status.ok)
  unfolding Serve.put put_guarded put_found revoke_granted_lease
  serve_put s k v = rw (refusal_lem s k) (elim (Option-cases (lookup string_dec k s.values)) [
    | inl e ↦ rw e refl
    | inr (w, e) ↦ rw (e, s.values_free k w e) refl
  ])

  pub serve_append :
      (s : Deployed) (k x : String)
      → Serve.append_to_list hash env (server_of s) (put_args k x) ≡ (
          if contains x (items (server_of s) k)
          then (set_list (server_of s) k (items (server_of s) k), Answer.replied Status.item_exists)
          else (
            set_list (server_of s) k (items (server_of s) k ++ x ∷ []),
            Answer.replied Status.ok,
          ))
  unfolding Serve.append_to_list append_guarded append_found append_item revoke_granted_lease
      list_at contains
  serve_append s k x = rw (refusal_lem s k) (elim (Option-cases (lookup string_dec k s.lists)) [
    | inl e ↦ rw e refl
    | inr (w, e) ↦
        rw (e, s.lists_free k w e)
          (elim (Bool-cases (contains x w.list)) [ inl c ↦ rw c refl | inr c ↦ rw c refl ])
  ])

  pub serve_remove :
      (s : Deployed) (k x : String)
      → Serve.remove_from_list hash env (server_of s) (put_args k x) ≡ (
          if contains x (items (server_of s) k)
          then (
            set_list (server_of s) k (remove_first x (items (server_of s) k)),
            Answer.replied Status.ok,
          )
          else (
            (Serve.remove_from_list hash env (server_of s) (put_args k x)).0,
            Answer.replied Status.item_not_found,
          ))
  unfolding Serve.remove_from_list remove_guarded remove_found remove_item revoke_granted_lease
      list_at contains
  serve_remove s k x = rw (refusal_lem s k) (elim (Option-cases (lookup string_dec k s.lists)) [
    | inl e ↦ rw e refl
    | inr (w, e) ↦
        rw (e, s.lists_free k w e)
          (elim (Bool-cases (contains x w.list)) [ inl c ↦ rw c refl | inr c ↦ rw c refl ])
  ])

  -- The client's side.
  pub client_get :
      (s : Deployed) (k : String)
      → Client.get hash (network s) now (libstore_of s) k
        ≡ finish_get now k
            (libstore (note_query now k s.value_history).0 s.list_history)
            (Result.ok (Serve.get hash now (server_of s) (get_args (libstore_of s) k false)).1)
  unfolding Client.get look_up fresh fetch want_lease result_of lookup
  client_get s k =
      rw
        (call_key_lem (note_query now k s.value_history).0 s.list_history (network s) k (λ host.
          (network s).get host
            (get_args (libstore (note_query now k s.value_history).0 s.list_history) k false)))
        refl

  pub client_get_list :
      (s : Deployed) (k : String)
      → Client.get_list hash (network s) now (libstore_of s) k
        ≡ finish_get_list now k
            (libstore s.value_history (note_query now k s.list_history).0)
            (Result.ok (Serve.get_list hash now (server_of s) (get_args (libstore_of s) k false)).1)
  unfolding Client.get_list look_up_list fresh fetch_list want_lease result_of lookup
  client_get_list s k =
      rw
        (call_key_lem s.value_history (note_query now k s.list_history).0 (network s) k (λ host.
          (network s).get_list host
            (get_args (libstore s.value_history (note_query now k s.list_history).0) k false)))
        refl

  pub client_put :
      (s : Deployed) (k v : String)
      → Client.put hash (network s) (libstore_of s) k v
        ≡ finish_put (
          libstore (add_history k s.value_history) s.list_history,
          result_of (status_of (Serve.put hash env (server_of s) (put_args k v)).1),
        )
  unfolding Client.put
  client_put s k v =
      rw
        (call_key_lem (add_history k s.value_history) s.list_history (network s) k
          (λ host. (network s).put host (put_args k v)))
        refl

  pub client_append :
      (s : Deployed) (k x : String)
      → Client.append_to_list hash (network s) (libstore_of s) k x
        ≡ finish_put (
          libstore s.value_history (add_history k s.list_history),
          result_of (status_of (Serve.append_to_list hash env (server_of s) (put_args k x)).1),
        )
  unfolding Client.append_to_list
  client_append s k x =
      rw
        (call_key_lem s.value_history (add_history k s.list_history) (network s) k
          (λ host. (network s).append_to_list host (put_args k x)))
        refl

  pub client_remove :
      (s : Deployed) (k x : String)
      → Client.remove_from_list hash (network s) (libstore_of s) k x
        ≡ finish_put (
          libstore_of s,
          result_of (status_of (Serve.remove_from_list hash env (server_of s) (put_args k x)).1),
        )
  unfolding Client.remove_from_list
  client_remove s k x =
      rw
        (call_key_lem s.value_history s.list_history (network s) k
          (λ host. (network s).remove_from_list host (put_args k x)))
        refl

-- The keys and lists after the server's calls are free of leases as well.
pub set_value-free :
    (s : Deployed) (k v j : String) (w : ValueStore)
    → lookup string_dec j (set_value (server_of s) (put_args k v)).key_value_store ≡ some w
    → w.lease_granted ≡ []
set_value-free s k v j w e =
    let new : ValueStore = record { value = v; lease_granted = [] } in
    let at = lookup-insert string_dec k j new s.values in
    elim (string_dec k j) [
      | yes p ↦
          let same : new ≡ w = ground (arith, at, e, p) in
          sym (ap (λ (w : ValueStore). w.lease_granted) same)
      | no p ↦ s.values_free j w (ground (arith, at, e, p))
    ]

pub set_list-free :
    (s : Deployed) (k : String) (l : List String) (j : String) (w : ListStore)
    → lookup string_dec j (set_list (server_of s) k l).key_list_store ≡ some w
    → w.lease_granted ≡ []
set_list-free s k l j w e =
    let new : ListStore = record { list = l; lease_granted = [] } in
    let at = lookup-insert string_dec k j new s.lists in
    elim (string_dec k j) [
      | yes p ↦
          let same : new ≡ w = ground (arith, at, e, p) in
          sym (ap (λ (w : ListStore). w.lease_granted) same)
      | no p ↦ s.lists_free j w (ground (arith, at, e, p))
    ]
