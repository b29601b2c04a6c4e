-- ===== src/Tribbler/Lawful.antt =====
-- libstore_impl.go and storageserver_impl.go: the libstore and its storage server keep the laws that the
-- tribbler server relies on.
use mathlib.Core.Option
use projects.Common.{
  fun_ext, ℕ, ◌≡◌, refl, ◌∙◌, ap, inl, inr, String, true, not, some, [], ◌∷◌, ◌++◌, if◌then◌else◌,
  ite, lookup, string_dec, Bool-cases, Option-cases, arith,
}
use projects.Storage.Rpc.{Status}
use projects.Storage.Server.{StorageServer, contains, revoke_granted_lease}
use projects.Storage.Calls.{
  set_value, set_list, get_found, list_found, leases_for, remove_first, remove_item, remove_found,
  remove_guarded, Answer,
}
use projects.Storage.Calls as Serve
use projects.Storage.Values.{value_at, list_at, is_done, put_lem}
use projects.Storage.Items.{items_of, append_to_list_lem, remove_from_list_lem}
use projects.Libstore.Calls.{put_args}
use projects.Tribbler.Store.{Laws}
use projects.Tribbler.Backend.{
  Deployed, server_of, env, serve_put, serve_append, serve_remove, refusal_lem,
}
use projects.Tribbler.Backing.{
  text_in, items_in, got, got_list, got-values, got_list-lists, backed, get-given, get_list-listed,
  put-worked, append-worked, remove-worked,
}

module _ (hash : String → ℕ) (now : ℕ) where
  pub get-same :
      (s : Deployed) (k j : String)
      → text_in (got hash now s k).key_value_store j ≡ text_in s.values j
  get-same s k j = ap (Option.map (λ v. v.value)) (got-values hash now s k j).0

  pub get-lists-same :
      (s : Deployed) (k j : String)
      → items_in (got hash now s k).key_list_store j ≡ items_in s.lists j
  get-lists-same s k j = ap (λ l. items_in l j) (got-values hash now s k j).1

  pub get_list-same :
      (s : Deployed) (k j : String)
      → items_in (got_list hash now s k).key_list_store j ≡ items_in s.lists j
  get_list-same s k j =
      ap (λ o. items_of (Option.map (λ v. v.list) o)) (got_list-lists hash now s k j).0

  pub get_list-values-same :
      (s : Deployed) (k j : String)
      → text_in (got_list hash now s k).key_value_store j ≡ text_in s.values j
  get_list-values-same s k j = ap (λ l. text_in l j) (got_list-lists hash now s k j).1

  abbrev pub put_at : Deployed → String → String → StorageServer × Answer Status
  put_at s k v = Serve.put hash env (server_of s) (put_args k v)

  abbrev pub appended : Deployed → String → String → StorageServer × Answer Status
  appended s k x = Serve.append_to_list hash env (server_of s) (put_args k x)

  abbrev pub removed : Deployed → String → String → StorageServer × Answer Status
  removed s k x = Serve.remove_from_list hash env (server_of s) (put_args k x)

  pub put-value :
      (s : Deployed) (k v j : String)
      → text_in (put_at s k v).0.key_value_store j
        ≡ ite (string_dec k j) (some v) (text_in s.values j)
  unfolding value_at
  put-value s k v j =
      let told : is_done (put_at s k v).1 ≡ true =
        ap (λ r. is_done r.1) (serve_put hash now s k v) in
      put_lem hash env (server_of s) (put_args k v) j ∙ rw told refl

  pub put-list :
      (s : Deployed) (k v j : String)
      → items_in (put_at s k v).0.key_list_store j ≡ items_in s.lists j
  put-list s k v j = ap (λ r. items_in r.0.key_list_store j) (serve_put hash now s k v)

  append-told :
      (s : Deployed) (k x : String)
      → is_done (appended s k x).1 ≡ not (contains x (items_in s.lists k))
  unfolding list_at
  append-told s k x =
      ap (λ r. is_done r.1) (serve_append hash now s k x)
      ∙ elim (Bool-cases (contains x (items_in s.lists k))) [
        | inl c ↦ rw c refl
        | inr c ↦ rw c refl
      ]

  pub append-value :
      (s : Deployed) (k x j : String)
      → text_in (appended s k x).0.key_value_store j ≡ text_in s.values j
  unfolding list_at
  append-value s k x j =
      ap (λ r. text_in r.0.key_value_store j) (serve_append hash now s k x)
      ∙ elim (Bool-cases (contains x (items_in s.lists k))) [
        | inl c ↦ rw c refl
        | inr c ↦ rw c refl
      ]

  pub append-list :
      (s : Deployed) (k x j : String)
      → items_in (appended s k x).0.key_list_store j ≡ (
          if contains x (items_in s.lists k)
          then items_in s.lists j
          else ite (string_dec k j) (items_in s.lists k ++ x ∷ []) (items_in s.lists j))
  unfolding list_at
  append-list s k x j =
      ground (arith, append_to_list_lem hash env (server_of s) (put_args k x) j, append-told s k x)

  remove-told :
      (s : Deployed) (k x : String) → is_done (removed s k x).1 ≡ contains x (items_in s.lists k)
  unfolding list_at
  remove-told s k x =
      ap (λ r. is_done r.1) (serve_remove hash now s k x)
      ∙ elim (Bool-cases (contains x (items_in s.lists k))) [
        | inl c ↦ rw c refl
        | inr c ↦ rw c refl
      ]

  pub remove-value :
      (s : Deployed) (k x j : String)
      → text_in (removed s k x).0.key_value_store j ≡ text_in s.values j
  unfolding Serve.remove_from_list remove_guarded remove_found remove_item revoke_granted_lease
      contains
  remove-value s k x j =
      rw (removed, refusal_lem hash now s k)
        (elim (Option-cases (lookup string_dec k s.lists)) [
          | inl e ↦ rw e refl
          | inr (w, e) ↦
              rw (e, s.lists_free k w e)
                (elim (Bool-cases (contains x w.list)) [ inl c ↦ rw c refl | inr c ↦ rw c refl ])
        ])

  pub remove-list :
      (s : Deployed) (k x j : String)
      → items_in (removed s k x).0.key_list_store j ≡ (
          if contains x (items_in s.lists k)
          then ite (string_dec k j) (remove_first x (items_in s.lists k)) (items_in s.lists j)
          else items_in s.lists j)
  unfolding list_at
  remove-list s k x j =
      ground
        (arith, remove_from_list_lem hash env (server_of s) (put_args k x) j, remove-told s k x)

  -- The libstore and its server are a store as the tribbler server relies on it.
  unfoldable pub backed_laws : Laws (backed hash now)
  backed_laws = record {
    value = λ s. text_in s.values;
    items = λ s. items_in s.lists;
    get-value = get-given hash now;
    get-values = λ s k. fun_ext (get-same s k);
    get-lists = λ s k. fun_ext (get-lists-same s k);
    put-ok = put-worked hash now;
    put-values = put-value;
    put-lists = λ s k v. fun_ext (put-list s k v);
    get_list-items = get_list-listed hash now;
    get_list-values = λ s k. fun_ext (get_list-values-same s k);
    get_list-lists = λ s k. fun_ext (get_list-same s k);
    append-ok = append-worked hash now;
    append-values = λ s k x. fun_ext (append-value s k x);
    append-lists = append-list;
    remove-ok = remove-worked hash now;
    remove-values = λ s k x. fun_ext (remove-value s k x);
    remove-lists = remove-list;
  }
