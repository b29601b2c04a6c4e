-- ===== src/Storage/Sets.antt =====
-- storageserver_impl.go: the lists of a server are sets in the order of insertion.
use projects.Common.{
  if_neg, if_pos, ℕ, ◌≡◌, refl, String, Bool, true, false, Option, none, some, List, [], ◌∷◌, ◌++◌,
  if◌then◌else◌, lookup, string_dec, ite, arith,
}
use projects.Storage.Rpc.{Status, PutArgs}
use projects.Storage.Server.{StorageServer, ListStore, Callback, Revocation, contains}
use projects.Storage.Calls.{
  Answer, after_revoke, append_item, append_found, append_guarded, append_to_list, remove_first,
  remove_from_list,
}
use projects.Storage.Values.{list_at, is_done, Refuses, refusal-Refuses}
use projects.Storage.Items.{
  items_of, items, Distinct, append_to_list_lem, remove_from_list_lem, append-Distinct,
  remove_first-Distinct,
}

append_item_done :
    (a : PutArgs) (l : List String) (ss : StorageServer)
    → is_done (Answer.replied (append_item a l ss).1) ≡ true
    → contains a.value l ≡ false
unfolding append_item
append_item_done a l ss h = ground arith

after_append_done :
    (a : PutArgs) (l : List String) (r : Revocation)
    → is_done (after_revoke r (append_item a l)).1 ≡ true
    → contains a.value l ≡ false
after_append_done a l (Revocation.revoked ss) h = append_item_done a l ss h
after_append_done a l (Revocation.dial_error ss) h = cc
after_append_done a l (Revocation.blocked ss) h = cc

append_found_done :
    (env : String → Callback) (ss : StorageServer) (a : PutArgs) (o : Option ListStore)
    → lookup string_dec a.key ss.key_list_store ≡ o
    → is_done (append_found env ss a o).1 ≡ true
    → contains a.value (items ss a.key) ≡ false
unfolding append_found list_at contains
append_found_done env ss a none e h = rw e refl
append_found_done env ss a (some v) e h = rw e (after_append_done a v.list _ h)

append_guarded_done :
    (env : String → Callback) (ss : StorageServer) (a : PutArgs) (o : Option Status)
    → Refuses o
    → is_done (append_guarded env ss a o).1 ≡ true
    → contains a.value (items ss a.key) ≡ false
unfolding append_guarded
append_guarded_done env ss a none n h = append_found_done env ss a _ refl h
append_guarded_done env ss a (some s) n h = ground arith

append_to_list_done :
    (hash : String → ℕ) (env : String → Callback) (ss : StorageServer) (a : PutArgs)
    → is_done (append_to_list hash env ss a).1 ≡ true
    → contains a.value (items ss a.key) ≡ false
unfolding append_to_list
append_to_list_done hash env ss a h =
    append_guarded_done env ss a _ (refusal-Refuses hash ss a.key) h

-- No list of the server holds an item twice.
abbrev pub NoDuplicates : StorageServer → Type 0
NoDuplicates ss = (k : String) → Distinct (items ss k)

kept :
    (ss : StorageServer) (key j : String) (new : List String) (done : Bool)
    → NoDuplicates ss
    → (done ≡ true → Distinct new)
    → Distinct
        (items_of (if done then ite (string_dec key j) (some new) (list_at ss j) else list_at ss j))
kept ss key j new false d n = d j
kept ss key j new true d n = elim (string_dec key j) [
  | yes p ↦ rw (if_pos _ p) (n refl)
  | no p ↦ rw (if_neg _ p) (d j)
]

-- `AppendToList` never puts an item into a list that has it, on any path.
pub append_to_list-NoDuplicates :
    (hash : String → ℕ) (env : String → Callback) (ss : StorageServer) (a : PutArgs)
    → NoDuplicates ss
    → NoDuplicates (append_to_list hash env ss a).0
append_to_list-NoDuplicates hash env ss a d j = rw (append_to_list_lem hash env ss a j) (
    kept ss a.key j (items ss a.key ++ a.value ∷ []) _ d (λ h.
      append-Distinct a.value (items ss a.key) (append_to_list_done hash env ss a h) (d a.key)))

-- `RemoveFromList` keeps the lists free of duplicates.
pub remove_from_list-NoDuplicates :
    (hash : String → ℕ) (env : String → Callback) (ss : StorageServer) (a : PutArgs)
    → NoDuplicates ss
    → NoDuplicates (remove_from_list hash env ss a).0
remove_from_list-NoDuplicates hash env ss a d j = rw (remove_from_list_lem hash env ss a j) (
    kept ss a.key j (remove_first a.value (items ss a.key)) _ d
      (λ h. (remove_first-Distinct a.value (items ss a.key) (d a.key)).0))

-- When the lists hold no item twice, an item that `RemoveFromList` has answered OK for is gone.
pub remove_from_list_gone :
    (hash : String → ℕ) (env : String → Callback) (ss : StorageServer) (a : PutArgs)
    → NoDuplicates ss
    → is_done (remove_from_list hash env ss a).1 ≡ true
    → contains a.value (items (remove_from_list hash env ss a).0 a.key) ≡ false
remove_from_list_gone hash env ss a d h = rw (remove_from_list_lem hash env ss a a.key) (
    rw h (
      rw (if_pos (string_dec a.key a.key) refl)
        (remove_first-Distinct a.value (items ss a.key) (d a.key)).1))
