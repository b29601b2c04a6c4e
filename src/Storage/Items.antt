-- ===== src/Storage/Items.antt =====
-- storageserver_impl.go: what a list key holds after `AppendToList` and `RemoveFromList`.

use projects.Common.{
  subst, ℕ, ◌≡◌, refl, String, true, false, ◌||◌, Option, none, some, List, [], ◌∷◌, ◌++◌, inl, inr,
  if◌then◌else◌, Bool-cases, lookup, lookup-insert, string_dec, ite, arith,
}
use projects.Storage.Rpc.{Status, PutArgs}
use projects.Storage.Server.{StorageServer, ListStore, Callback, Revocation, contains}
use projects.Storage.Calls.{
  Answer, after_revoke, set_list, append_item, append_found, append_guarded, append_to_list,
  remove_first, remove_item, remove_found, remove_guarded, remove_from_list,
}
use projects.Storage.Values.{
  SameStore, SameStore-refl, SameStore-list_at, list_at, state_of, is_done, Updated, Refuses,
  refusal-Refuses, revoke-SameStore,
}

-- The items of a key: none where the key is missing.
abbrev pub items_of : Option (List String) → List String
items_of none = []
items_of (some l) = l

abbrev pub items : StorageServer → String → List String
items ss k = items_of (list_at ss k)

set_list_at :
    (ss ss' : StorageServer) (k : String) (l : List String) (j : String)
    → SameStore ss ss'
    → list_at (set_list ss' k l) j ≡ ite (string_dec k j) (some l) (list_at ss j)
unfolding list_at
set_list_at ss ss' k l j h = ground (
  arith,
  lookup-insert string_dec k j (record { list = l; lease_granted = [] }) ss'.key_list_store,
)

-- Writing back the items that a key holds changes nothing.
set_list_same :
    (ss ss' : StorageServer) (k : String) (v : ListStore) (j : String)
    → lookup string_dec k ss.key_list_store ≡ some v
    → SameStore ss ss'
    → list_at (set_list ss' k v.list) j ≡ list_at ss j
unfolding list_at
set_list_same ss ss' k v j e h =
    let written =
      lookup-insert string_dec k j (record { list = v.list; lease_granted = [] })
        ss'.key_list_store in
    elim (string_dec k j) [
      | yes p ↦
          ground (arith, written, subst (λ x. lookup string_dec x ss.key_list_store ≡ some v) p e)
      | no p ↦ ground (arith, written)
    ]

append_item_lem :
    (ss ss' : StorageServer) (a : PutArgs) (v : ListStore) (j : String)
    → lookup string_dec a.key ss.key_list_store ≡ some v
    → SameStore ss ss'
    → let r = append_item a v.list ss' in
      list_at r.0 j ≡ (
        if is_done (Answer.replied r.1)
        then ite (string_dec a.key j) (some (v.list ++ a.value ∷ [])) (list_at ss j)
        else list_at ss j)
unfolding append_item
append_item_lem ss ss' a v j e h = elim (Bool-cases (contains a.value v.list)) [
  | inl c ↦ rw c (set_list_same ss ss' a.key v j e h)
  | inr c ↦ rw c (set_list_at ss ss' a.key (v.list ++ a.value ∷ []) j h)
]

after_append :
    (ss : StorageServer) (a : PutArgs) (v : ListStore) (r : Revocation)
    → lookup string_dec a.key ss.key_list_store ≡ some v
    → SameStore ss (state_of r)
    → Updated list_at ss a.key (v.list ++ a.value ∷ []) (after_revoke r (append_item a v.list))
after_append ss a v (Revocation.revoked ss') e h j = append_item_lem ss ss' a v j e h
after_append ss a v (Revocation.dial_error ss') e h j = SameStore-list_at ss ss' j h
after_append ss a v (Revocation.blocked ss') e h j = SameStore-list_at ss ss' j h

append_found_lem :
    (env : String → Callback) (ss : StorageServer) (a : PutArgs) (o : Option ListStore)
    → lookup string_dec a.key ss.key_list_store ≡ o
    → Updated list_at ss a.key (items ss a.key ++ a.value ∷ []) (append_found env ss a o)
unfolding append_found list_at
append_found_lem env ss a none e j =
    rw e (set_list_at ss ss a.key (a.value ∷ []) j (SameStore-refl ss))
append_found_lem env ss a (some v) e j =
    rw e (after_append ss a v _ e (revoke-SameStore env ss v.lease_granted) j)

append_guarded_lem :
    (env : String → Callback) (ss : StorageServer) (a : PutArgs) (o : Option Status)
    → Refuses o
    → Updated list_at ss a.key (items ss a.key ++ a.value ∷ []) (append_guarded env ss a o)
unfolding append_guarded
append_guarded_lem env ss a none h j = append_found_lem env ss a _ refl j
append_guarded_lem env ss a (some s) h j = ground arith

-- After `AppendToList` answers OK the key's list has the item at its end and every other list is as
-- it was; after any other answer, an error, or a call that does not return, all lists are.
pub append_to_list_lem :
    (hash : String → ℕ) (env : String → Callback) (ss : StorageServer) (a : PutArgs)
    → Updated list_at ss a.key (items ss a.key ++ a.value ∷ []) (append_to_list hash env ss a)
unfolding append_to_list
append_to_list_lem hash env ss a = append_guarded_lem env ss a _ (refusal-Refuses hash ss a.key)

remove_item_lem :
    (ss ss' : StorageServer) (a : PutArgs) (v : ListStore) (j : String)
    → lookup string_dec a.key ss.key_list_store ≡ some v
    → SameStore ss ss'
    → let r = remove_item a v.list ss' in
      list_at r.0 j ≡ (
        if is_done (Answer.replied r.1)
        then ite (string_dec a.key j) (some (remove_first a.value v.list)) (list_at ss j)
        else list_at ss j)
unfolding remove_item
remove_item_lem ss ss' a v j e h = elim (Bool-cases (contains a.value v.list)) [
  | inl c ↦ rw c (set_list_at ss ss' a.key (remove_first a.value v.list) j h)
  | inr c ↦ rw c (set_list_same ss ss' a.key v j e h)
]

after_remove :
    (ss : StorageServer) (a : PutArgs) (v : ListStore) (r : Revocation)
    → lookup string_dec a.key ss.key_list_store ≡ some v
    → SameStore ss (state_of r)
    → Updated list_at ss a.key (remove_first a.value v.list) (after_revoke r (remove_item a v.list))
after_remove ss a v (Revocation.revoked ss') e h j = remove_item_lem ss ss' a v j e h
after_remove ss a v (Revocation.dial_error ss') e h j = SameStore-list_at ss ss' j h
after_remove ss a v (Revocation.blocked ss') e h j = SameStore-list_at ss ss' j h

remove_found_lem :
    (env : String → Callback) (ss : StorageServer) (a : PutArgs) (o : Option ListStore)
    → lookup string_dec a.key ss.key_list_store ≡ o
    → Updated list_at ss a.key (remove_first a.value (items ss a.key)) (remove_found env ss a o)
unfolding remove_found list_at
remove_found_lem env ss a none e j = refl
remove_found_lem env ss a (some v) e j =
    rw e (after_remove ss a v _ e (revoke-SameStore env ss v.lease_granted) j)

remove_guarded_lem :
    (env : String → Callback) (ss : StorageServer) (a : PutArgs) (o : Option Status)
    → Refuses o
    → Updated list_at ss a.key (remove_first a.value (items ss a.key)) (remove_guarded env ss a o)
unfolding remove_guarded
remove_guarded_lem env ss a none h j = remove_found_lem env ss a _ refl j
remove_guarded_lem env ss a (some s) h j = ground arith

-- After `RemoveFromList` answers OK the key's list lacks its first copy of the item and every other
-- list is as it was; after any other answer, an error, or a call that does not return, all lists are.
pub remove_from_list_lem :
    (hash : String → ℕ) (env : String → Callback) (ss : StorageServer) (a : PutArgs)
    → Updated list_at ss a.key
        (remove_first a.value (items ss a.key))
        (remove_from_list hash env ss a)
unfolding remove_from_list
remove_from_list_lem hash env ss a = remove_guarded_lem env ss a _ (refusal-Refuses hash ss a.key)

-- No item stands twice in the list.
abbrev pub Distinct : List String → Type 0
Distinct [] = Unit {0}
Distinct (x ∷ xs) = (contains x xs ≡ false) × Distinct xs

contains-append :
    (x y : String) (xs : List String)
    → contains x (xs ++ y ∷ []) ≡ (contains x xs || ite (string_dec y x) true false)
unfolding contains
contains-append x y [] = ground arith
contains-append x y (z ∷ xs) = ground (arith, contains-append x y xs)

pub append-Distinct :
    (x : String) (xs : List String) → contains x xs ≡ false → Distinct xs → Distinct (xs ++ x ∷ [])
unfolding contains
append-Distinct x [] h d = (refl, tt)
append-Distinct x (y ∷ xs) h d =
    (ground (arith, contains-append y x xs), append-Distinct x xs (ground arith) d.1)

contains-remove_first :
    (x y : String) (xs : List String)
    → contains x xs ≡ false
    → contains x (remove_first y xs) ≡ false
unfolding contains remove_first
contains-remove_first x y [] h = refl
contains-remove_first x y (z ∷ xs) h = ground (arith, contains-remove_first x y xs)

pub remove_first-Distinct :
    (x : String) (xs : List String)
    → Distinct xs
    → Distinct (remove_first x xs) × (contains x (remove_first x xs) ≡ false)
unfolding contains remove_first
remove_first-Distinct x [] d = (tt, refl)
remove_first-Distinct x (y ∷ xs) d = elim (string_dec y x) [
  | yes p ↦ ground arith
  | no p ↦ ground (arith, remove_first-Distinct x xs d.1, contains-remove_first y x xs d.0)
]
