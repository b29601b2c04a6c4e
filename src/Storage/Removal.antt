-- ===== src/Storage/Removal.antt =====
-- storageserver_impl.go: what `RemoveFromList` takes out of a list.
use projects.Common.{
  if_pos, if_neg, ℕ, ◌≡◌, refl, ap, String, true, false, Option, none, some, List, [], ◌∷◌, ◌++◌,
  lookup, string_dec, arith,
}
use projects.Storage.Rpc.{Status, PutArgs}
use projects.Storage.Server.{StorageServer, ListStore, Callback, Revocation, contains}
use projects.Storage.Calls.{
  after_revoke, remove_item, remove_found, remove_guarded, remove_first, remove_from_list,
}
use projects.Storage.Values.{list_at, is_done, Refuses, refusal-Refuses}
use projects.Storage.Calls.{Answer}
use projects.Storage.Items.{items, remove_from_list_lem}

remove_item_done :
    (a : PutArgs) (l : List String) (ss : StorageServer)
    → is_done (Answer.replied (remove_item a l ss).1) ≡ true
    → contains a.value l ≡ true
unfolding remove_item
remove_item_done a l ss h = ground arith

after_remove_done :
    (a : PutArgs) (l : List String) (r : Revocation)
    → is_done (after_revoke r (remove_item a l)).1 ≡ true
    → contains a.value l ≡ true
after_remove_done a l (Revocation.revoked ss) h = remove_item_done a l ss h
after_remove_done a l (Revocation.dial_error ss) h = cc
after_remove_done a l (Revocation.blocked ss) h = cc

remove_found_done :
    (env : String → Callback) (ss : StorageServer) (a : PutArgs) (o : Option ListStore)
    → lookup string_dec a.key ss.key_list_store ≡ o
    → is_done (remove_found env ss a o).1 ≡ true
    → contains a.value (items ss a.key) ≡ true
unfolding remove_found list_at contains
remove_found_done env ss a none e h = cc
remove_found_done env ss a (some v) e h = rw e (after_remove_done a v.list _ h)

remove_guarded_done :
    (env : String → Callback) (ss : StorageServer) (a : PutArgs) (o : Option Status)
    → Refuses o
    → is_done (remove_guarded env ss a o).1 ≡ true
    → contains a.value (items ss a.key) ≡ true
unfolding remove_guarded
remove_guarded_done env ss a none n h = remove_found_done env ss a _ refl h
remove_guarded_done env ss a (some s) n h = ground arith

remove_from_list_done :
    (hash : String → ℕ) (env : String → Callback) (ss : StorageServer) (a : PutArgs)
    → is_done (remove_from_list hash env ss a).1 ≡ true
    → contains a.value (items ss a.key) ≡ true
unfolding remove_from_list
remove_from_list_done hash env ss a h =
    remove_guarded_done env ss a _ (refusal-Refuses hash ss a.key) h

-- `new` is `old` without its first copy of `s`.
pub record Without (s : String) (old new : List String) : Type 0 where
  pub before : List String
  pub after : List String
  pub old_eq : old ≡ before ++ (s ∷ after)
  pub new_eq : new ≡ before ++ after
  pub is_first : contains s before ≡ false

remove_first-Without :
    (s : String) (l : List String) → contains s l ≡ true → Without s l (remove_first s l)
unfolding contains remove_first
remove_first-Without s [] h = cc
remove_first-Without s (t ∷ l) h = elim (string_dec t s) [
  | yes p ↦ rw (if_pos (string_dec t s) p) (record {
    before = [];
    after = l;
    old_eq = ap (λ k. k ∷ l) p;
    new_eq = refl;
    is_first = refl;
  })
  | no p ↦
      let rest = remove_first-Without s l (rw (if_neg (string_dec t s) p) at h) in
      rw (if_neg (string_dec t s) p) (record {
        before = t ∷ rest.before;
        after = rest.after;
        old_eq = ap (λ k. t ∷ k) rest.old_eq;
        new_eq = ap (λ k. t ∷ k) rest.new_eq;
        is_first = rw (if_neg (string_dec t s) p) rest.is_first;
      })
]

-- When `RemoveFromList` answers OK, the item was in the list, and the list has kept all before and
-- all after its first copy, in order.
pub remove_from_list-Without :
    (hash : String → ℕ) (env : String → Callback) (ss : StorageServer) (a : PutArgs)
    → is_done (remove_from_list hash env ss a).1 ≡ true
    → Without a.value (items ss a.key) (items (remove_from_list hash env ss a).0 a.key)
remove_from_list-Without hash env ss a h = rw (remove_from_list_lem hash env ss a a.key) (
    rw h (
      rw (if_pos (string_dec a.key a.key) refl)
        (remove_first-Without a.value (items ss a.key) (remove_from_list_done hash env ss a h))))
