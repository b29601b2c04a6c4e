-- ===== src/Tribbler/Store.antt =====
-- p2/src/github.com/cmu440/tribbler/libstore/libstore_api.go: what the tribbler server uses of its
-- libstore, and what it relies on, which Lawful shows of a libstore with its storage server.
use projects.Common.{
  ◌≡◌, String, Bool, true, not, Option, some, List, [], ◌∷◌, ◌++◌, if◌then◌else◌, string_dec, ite,
}
use projects.Storage.Server.{contains}
use projects.Storage.Calls.{remove_first}

-- The calls. `none` and `false` are errors.
pub record KeyValue (S : Type 0) : Type 0 where
  pub get : S → String → S × Option String
  pub put : S → String → String → S × Bool
  pub get_list : S → String → S × (List String × Bool)
  pub append_to_list : S → String → String → S × Bool
  pub remove_from_list : S → String → String → S × Bool

-- A store that answers every call, with `value` and `items` as what it holds.
pub record Laws {S : Type 0} (kv : KeyValue S) : Type 0 where
  pub value : S → String → Option String
  pub items : S → String → List String
  pub get-value : (s : S) (k : String) → (kv.get s k).1 ≡ value s k
  pub get-values : (s : S) (k : String) → value (kv.get s k).0 ≡ value s
  pub get-lists : (s : S) (k : String) → items (kv.get s k).0 ≡ items s
  pub put-ok : (s : S) (k v : String) → (kv.put s k v).1 ≡ true
  pub put-values :
      (s : S) (k v j : String)
      → value (kv.put s k v).0 j ≡ ite (string_dec k j) (some v) (value s j)
  pub put-lists : (s : S) (k v : String) → items (kv.put s k v).0 ≡ items s
  pub get_list-items : (s : S) (k : String) → (kv.get_list s k).1 ≡ (items s k, true)
  pub get_list-values : (s : S) (k : String) → value (kv.get_list s k).0 ≡ value s
  pub get_list-lists : (s : S) (k : String) → items (kv.get_list s k).0 ≡ items s
  pub append-ok :
      (s : S) (k x : String) → (kv.append_to_list s k x).1 ≡ not (contains x (items s k))
  pub append-values : (s : S) (k x : String) → value (kv.append_to_list s k x).0 ≡ value s
  pub append-lists :
      (s : S) (k x j : String)
      → items (kv.append_to_list s k x).0 j ≡ (
          if contains x (items s k)
          then items s j
          else ite (string_dec k j) (items s k ++ x ∷ []) (items s j))
  pub remove-ok : (s : S) (k x : String) → (kv.remove_from_list s k x).1 ≡ contains x (items s k)
  pub remove-values : (s : S) (k x : String) → value (kv.remove_from_list s k x).0 ≡ value s
  pub remove-lists :
      (s : S) (k x j : String)
      → items (kv.remove_from_list s k x).0 j ≡ (
          if contains x (items s k)
          then ite (string_dec k j) (remove_first x (items s k)) (items s j)
          else items s j)
