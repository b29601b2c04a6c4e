-- ===== src/Tribbler/Tests.antt =====
-- The theorems about tribserver_impl.go at concrete inputs.
use mathlib.Core.List.Permᴰ
use projects.Common.{◌≡◌, refl, String, some, List, [], ◌∷◌, lookup, string_dec}
use projects.Storage.Server.{contains}
use projects.Tribbler.Server.{
  Status, Tribble, add_subscription, remove_subscription, get_subscriptions, create_user,
}
use projects.Tribbler.Subscribing.{Users, subscribe_unsubscribe, create_user_once}
use projects.Tribbler.Fixture.{runtime, deployed}
use projects.Tribbler.Store.{KeyValue, Laws}
use projects.Tribbler.Backend.{Deployed}
use projects.Tribbler.Backing.{backed}
use projects.Tribbler.Lawful.{backed_laws}

abbrev hello : Tribble
hello = record { user_id = "ann"; posted = 3; contents = "hello" }

-- Ann has posted one tribble, and Bob follows her.
abbrev posted : Deployed
posted =
    deployed
      (("ann:user", "ann:user")
        ∷ ("bob:user", "bob:user")
        ∷ ("ann:aab", runtime.marshal hello)
        ∷ [])
      (("ann:tribble_list", "aab" ∷ []) ∷ ("bob:subscribe_list", "ann" ∷ []) ∷ [])

-- The libstore with its storage server, at the time 100.
abbrev store : KeyValue Deployed
store = backed (λ k. 0) 100

abbrev store_laws : Laws store
store_laws = backed_laws (λ k. 0) 100

abbrev as_sent : List String → List String
as_sent l = l

both_exist : Users store store_laws posted "ann" "bob" []
unfolding backed_laws lookup string_dec
both_exist = record {
  user = "ann:user";
  user_exists = refl;
  other = "bob:user";
  target_exists = refl;
  subscriptions = refl;
}

subscribe_unsubscribe_example :
    let (added, r) = add_subscription store posted "ann" "bob" in
    let (removed, r') = remove_subscription store added "ann" "bob" in
    (r ≡ Status.ok)
    × ((get_subscriptions store added "ann").1 ≡ some (Status.ok, "bob" ∷ []))
    × (r' ≡ Status.ok)
    × ((get_subscriptions store removed "ann").1 ≡ some (Status.ok, []))
unfolding contains
subscribe_unsubscribe_example =
    subscribe_unsubscribe store store_laws "ann" "bob" posted [] both_exist refl

create_user_once_example :
    let (made, r) = create_user store posted "cat" in
    let (again, r') = create_user store made "cat" in
    (r ≡ Status.ok)
    × (store_laws.value made "cat:user" ≡ some "cat:user")
    × (r' ≡ Status.exists)
    × (store_laws.value again ≡ store_laws.value made)
    × (store_laws.items again ≡ store_laws.items made)
unfolding backed_laws lookup string_dec
create_user_once_example = create_user_once store store_laws posted "cat" refl
