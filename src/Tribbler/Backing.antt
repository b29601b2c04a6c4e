-- ===== src/Tribbler/Backing.antt =====
-- libstore_impl.go and storageserver_impl.go: the libstore and its storage server as a key-value store,
-- and what its calls answer.
use mathlib.Core.Option
use projects.Common.{
  ℕ, ◌≡◌, refl, sym, ◌∙◌, ap, inl, inr, String, Bool, true, false, not, Option, none, some, List,
  [], ◌∷◌, ◌++◌, lookup, lookup-insert, string_dec, Bool-cases, Option-cases, arith,
}
use projects.Storage.Server.{StorageServer, ValueStore, ListStore, contains, revoke_granted_lease}
use projects.Storage.Calls.{
  set_value, set_list, get_found, list_found, leases_for, remove_first, remove_item, remove_found,
  remove_guarded, Answer,
}
use projects.Storage.Calls as Serve
use projects.Storage.Values.{list_at}
use projects.Storage.Items.{items, items_of}
use projects.Libstore.Cache.{Libstore}
use projects.Libstore.Calls.{
  get_args, put_args, Result, result_of, finish_get, finish_get_list, finish_put,
}
use projects.Libstore.Calls as Client
use projects.Tribbler.Store.{KeyValue}
use projects.Tribbler.Backend.{
  Deployed, server_of, libstore_of, env, network, serve_get, serve_get_list, serve_put,
  serve_append, serve_remove, client_get, client_get_list, client_put, client_append, client_remove,
  set_value-free, set_list-free, refusal_lem,
}

abbrev pub text_in : List (String × ValueStore) → String → Option String
text_in m k = Option.map (λ v. v.value) (lookup string_dec k m)

abbrev pub items_in : List (String × ListStore) → String → List String
items_in m k = items_of (Option.map (λ v. v.list) (lookup string_dec k m))

abbrev pub given : {A : Type 0} → Result A → Option A
given (Result.ok a) = some a
given (Result.error e) = none

abbrev pub worked : {A : Type 0} → Result A → Bool
worked (Result.ok a) = true
worked (Result.error e) = false

abbrev pub listed : Result (List String) → List String × Bool
listed (Result.ok l) = (l, true)
listed (Result.error e) = ([], false)

abbrev pub Free : StorageServer → Type 0
Free ss =
    ((k : String) (v : ValueStore)
      → lookup string_dec k ss.key_value_store ≡ some v
      → v.lease_granted ≡ [])
    × ((k : String) (v : ListStore)
        → lookup string_dec k ss.key_list_store ≡ some v
        → v.lease_granted ≡ [])

abbrev pub after_call : Libstore → (ss : StorageServer) → Free ss → Deployed
after_call ls ss free = record {
  values = ss.key_value_store;
  lists = ss.key_list_store;
  value_history = ls.value_history;
  list_history = ls.list_history;
  values_free = free.0;
  lists_free = free.1;
}

module _ (hash : String → ℕ) (now : ℕ) where
  abbrev pub got : Deployed → String → StorageServer
  got s k = (Serve.get hash now (server_of s) (get_args (libstore_of s) k false)).0

  abbrev pub got_list : Deployed → String → StorageServer
  got_list s k = (Serve.get_list hash now (server_of s) (get_args (libstore_of s) k false)).0

  pub got-values :
      (s : Deployed) (k j : String)
      → (lookup string_dec j (got s k).key_value_store ≡ lookup string_dec j s.values)
        × ((got s k).key_list_store ≡ s.lists)
  unfolding get_found leases_for
  got-values s k j =
      rw (got, serve_get hash now s k)
        (elim (Option-cases (lookup string_dec k s.values)) [
          | inl e ↦ rw e (refl, refl)
          | inr (v, e) ↦ rw e (
            lookup-insert string_dec k j v s.values ∙ (elim (string_dec k j) [
              | yes p ↦ ground (arith, p, e)
              | no p ↦ ground (arith, p)
            ]),
            refl,
          )
        ])

  pub got_list-lists :
      (s : Deployed) (k j : String)
      → (lookup string_dec j (got_list s k).key_list_store ≡ lookup string_dec j s.lists)
        × ((got_list s k).key_value_store ≡ s.values)
  unfolding list_found leases_for
  got_list-lists s k j =
      rw (got_list, serve_get_list hash now s k)
        (elim (Option-cases (lookup string_dec k s.lists)) [
          | inl e ↦ rw e (refl, refl)
          | inr (v, e) ↦ rw e (
            lookup-insert string_dec k j v s.lists ∙ (elim (string_dec k j) [
              | yes p ↦ ground (arith, p, e)
              | no p ↦ ground (arith, p)
            ]),
            refl,
          )
        ])

  pub got-Free : (s : Deployed) (k : String) → Free (got s k)
  got-Free s k = (
    λ j v e. s.values_free j v (sym (got-values s k j).0 ∙ e),
    λ j v e. s.lists_free j v (ap (lookup string_dec j) (sym (got-values s k j).1) ∙ e),
  )

  pub got_list-Free : (s : Deployed) (k : String) → Free (got_list s k)
  got_list-Free s k = (
    λ j v e. s.values_free j v (ap (lookup string_dec j) (sym (got_list-lists s k j).1) ∙ e),
    λ j v e. s.lists_free j v (sym (got_list-lists s k j).0 ∙ e),
  )

  pub put-Free :
      (s : Deployed) (k v : String) → Free (Serve.put hash env (server_of s) (put_args k v)).0
  put-Free s k v = rw (serve_put hash now s k v) (set_value-free s k v, s.lists_free)

  pub append-Free :
      (s : Deployed) (k x : String)
      → Free (Serve.append_to_list hash env (server_of s) (put_args k x)).0
  append-Free s k x =
      rw (serve_append hash now s k x) (elim (Bool-cases (contains x (items (server_of s) k))) [
        | inl c ↦ rw c (s.values_free, set_list-free s k (items (server_of s) k))
        | inr c ↦ rw c (s.values_free, set_list-free s k (items (server_of s) k ++ x ∷ []))
      ])

  pub remove-Free :
      (s : Deployed) (k x : String)
      → Free (Serve.remove_from_list hash env (server_of s) (put_args k x)).0
  unfolding Serve.remove_from_list remove_guarded remove_found remove_item revoke_granted_lease
      contains
  remove-Free s k x =
      rw (refusal_lem hash now s k) (elim (Option-cases (lookup string_dec k s.lists)) [
        | inl e ↦ rw e (s.values_free, s.lists_free)
        | inr (w, e) ↦
            rw (e, s.lists_free k w e)
              (elim (Bool-cases (contains x w.list)) [
                | inl c ↦ rw c (s.values_free, set_list-free s k (remove_first x w.list))
                | inr c ↦ rw c (s.values_free, set_list-free s k w.list)
              ])
      ])

  -- The calls of the libstore, each with what it makes of the server.
  abbrev pub backed : KeyValue Deployed
  backed = record {
    get = λ s k.
        let r = Client.get hash (network hash now s) now (libstore_of s) k in
        (after_call r.0 (got s k) (got-Free s k), given r.1);
    put = λ s k v.
        let r = Client.put hash (network hash now s) (libstore_of s) k v in
        (
          after_call r.0 (Serve.put hash env (server_of s) (put_args k v)).0 (put-Free s k v),
          worked r.1,
        );
    get_list = λ s k.
        let r = Client.get_list hash (network hash now s) now (libstore_of s) k in
        (after_call r.0 (got_list s k) (got_list-Free s k), listed r.1);
    append_to_list = λ s k x.
        let r = Client.append_to_list hash (network hash now s) (libstore_of s) k x in
        (
          after_call r.0 (Serve.append_to_list hash env (server_of s) (put_args k x)).0
              (append-Free s k x),
          worked r.1,
        );
    remove_from_list = λ s k x.
        let r = Client.remove_from_list hash (network hash now s) (libstore_of s) k x in
        (
          after_call r.0 (Serve.remove_from_list hash env (server_of s) (put_args k x)).0
              (remove-Free s k x),
          worked r.1,
        );
  }

  pub get-given : (s : Deployed) (k : String) → (backed.get s k).1 ≡ text_in s.values k
  unfolding get_found leases_for finish_get
  get-given s k =
      rw (client_get hash now s k, serve_get hash now s k)
        (elim (Option-cases (lookup string_dec k s.values)) [
          | inl e ↦ rw e refl
          | inr (v, e) ↦ rw e refl
        ])

  pub get_list-listed :
      (s : Deployed) (k : String) → (backed.get_list s k).1 ≡ (items_in s.lists k, true)
  unfolding list_found leases_for finish_get_list
  get_list-listed s k =
      rw (client_get_list hash now s k, serve_get_list hash now s k)
        (elim (Option-cases (lookup string_dec k s.lists)) [
          | inl e ↦ rw e refl
          | inr (v, e) ↦ rw e refl
        ])

  pub put-worked : (s : Deployed) (k v : String) → (backed.put s k v).1 ≡ true
  unfolding finish_put result_of
  put-worked s k v = rw (client_put hash now s k v, serve_put hash now s k v) refl

  pub append-worked :
      (s : Deployed) (k x : String)
      → (backed.append_to_list s k x).1 ≡ not (contains x (items_in s.lists k))
  unfolding finish_put result_of list_at
  append-worked s k x =
      rw (client_append hash now s k x, serve_append hash now s k x)
        (elim (Bool-cases (contains x (items (server_of s) k))) [
          | inl c ↦ rw c refl
          | inr c ↦ rw c refl
        ])

  pub remove-worked :
      (s : Deployed) (k x : String)
      → (backed.remove_from_list s k x).1 ≡ contains x (items_in s.lists k)
  unfolding finish_put result_of list_at
  remove-worked s k x =
      rw (client_remove hash now s k x, serve_remove hash now s k x)
        (elim (Bool-cases (contains x (items (server_of s) k))) [
          | inl c ↦ rw c refl
          | inr c ↦ rw c refl
        ])
