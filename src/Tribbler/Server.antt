-- ===== src/Tribbler/Server.antt =====
-- p2/src/github.com/cmu440/tribbler/tribserver/tribserver_impl.go: the calls of a tribbler server. The
-- clock and the order in which goroutines deliver are arguments; `Runtime` has what the server uses
-- of the packages json, fmt and sort.
use Prim.Native.String.{◌++◌ as append}
use projects.Common.{
  ℕ, zero, suc, String, Bool, true, false, not, ◌&&◌, Option, none, some, List, [], ◌∷◌, ◌++◌,
  if◌then◌else◌,
}
use projects.Tribbler.Store.{KeyValue}

pub data Status : Type 0 where
  unset ok no_such_user no_such_target_user exists : Status

pub record Tribble : Type 0 where
  pub user_id : String
  pub posted : ℕ
  pub contents : String

-- `unmarshal t v` reads the text `v` into the variable `t`; `print` is `%d`.
pub record Runtime : Type 0 where
  pub marshal : Tribble → String
  pub unmarshal : Tribble → String → Tribble
  pub print : ℕ → String
  pub sort : List Tribble → List Tribble

abbrev pub user_key : String → String
user_key u = append u ":user"

abbrev pub subscribe_key : String → String
subscribe_key u = append u ":subscribe_list"

abbrev pub list_key : String → String
list_key u = append u ":tribble_list"

abbrev pub tribble_key : String → String → String
tribble_key u id = append u (append ":" id)

-- The text that a failed `Get` leaves.
abbrev pub text_of : Option String → String
text_of none = ""
text_of (some v) = v

abbrev pub zero_tribble : Tribble
zero_tribble = record { user_id = ""; posted = 0; contents = "" }

abbrev pub is_empty : {A : Type 0} → List A → Bool
is_empty [] = true
is_empty (x ∷ xs) = false

unfoldable pub take : {A : Type 0} → ℕ → List A → List A
take zero l = []
take (suc n) [] = []
take (suc n) (x ∷ xs) = x ∷ take n xs

-- The variable keeps its value from one text to the next.
unfoldable pub decode_all : Runtime → Tribble → List String → List Tribble
decode_all rt t [] = []
decode_all rt t (v ∷ vs) = rt.unmarshal t v ∷ decode_all rt (rt.unmarshal t v) vs

-- The first hundred after sorting.
unfoldable pub latest : Runtime → List Tribble → List Tribble
unfolding take
latest rt l = take 100 (rt.sort l)

module _ {S : Type 0} (kv : KeyValue S) where
  unfoldable pub create_user : S → String → S × Status
  create_user s u =
      let (s', found) = kv.get s (user_key u) in
      elim found [
        | none ↦ ((kv.put s' (user_key u) (user_key u)).0, Status.ok)
        | some v ↦ (s', Status.exists)
      ]

  unfoldable pub subscribe : S → String → String → S × Status
  subscribe s u target =
      let (s', fine) = kv.append_to_list s (subscribe_key u) target in
      if fine then (s', Status.ok) else (s', Status.exists)

  unfoldable pub unsubscribe : S → String → String → S × Status
  unsubscribe s u target =
      let (s', fine) = kv.remove_from_list s (subscribe_key u) target in
      if fine then (s', Status.ok) else (s', Status.no_such_target_user)

  -- The guards of the two calls on subscriptions.
  unfoldable pub with_users : S → String → String → (S → S × Status) → S × Status
  with_users s u target f =
      let (s', user) = kv.get s (user_key u) in
      let (s'', other) = kv.get s' (user_key target) in
      elim user [
        | none ↦ (s'', Status.no_such_user)
        | some v ↦ elim other [ none ↦ (s'', Status.no_such_target_user) | some w ↦ f s'' ]
      ]

  unfoldable pub add_subscription : S → String → String → S × Status
  unfolding with_users subscribe
  add_subscription s u target = with_users s u target (λ s'. subscribe s' u target)

  unfoldable pub remove_subscription : S → String → String → S × Status
  unfolding with_users unsubscribe
  remove_subscription s u target = with_users s u target (λ s'. unsubscribe s' u target)

  -- The guard of the other calls; the outer `none` of an answer is an error of the call.
  unfoldable pub with_user :
      {A : Type 0} → S → String → (S → S × Option (Status × List A)) → S × Option (Status × List A)
  with_user s u f =
      let (s', user) = kv.get s (user_key u) in
      elim user [ none ↦ (s', some (Status.no_such_user, [])) | some v ↦ f s' ]

  unfoldable pub read_subscriptions : S → String → S × Option (Status × List String)
  read_subscriptions s u =
      let (s', (ids, fine)) = kv.get_list s (subscribe_key u) in
      if fine then (s', some (Status.ok, ids)) else (s', none)

  unfoldable pub get_subscriptions : S → String → S × Option (Status × List String)
  unfolding with_user read_subscriptions
  get_subscriptions s u = with_user s u (λ s'. read_subscriptions s' u)

  -- The id is a second reading of the clock.
  unfoldable pub write_tribble : Runtime → S → String → String → ℕ → ℕ → S × Option Status
  write_tribble rt s u contents posted id =
      let t : Tribble = record { user_id = u; posted = posted; contents = contents } in
      let (s', stored) = kv.put s (tribble_key u (rt.print id)) (rt.marshal t) in
      if not stored
      then (s', none)
      else (let (s'', listed) = kv.append_to_list s' (list_key u) (rt.print id) in
          if listed then (s'', some Status.ok) else (s'', none))

  unfoldable pub post_tribble : Runtime → S → String → String → ℕ → ℕ → S × Option Status
  unfolding write_tribble
  post_tribble rt s u contents posted id =
      let (s', user) = kv.get s (user_key u) in
      elim user [
        | none ↦ (s', some Status.no_such_user)
        | some v ↦ write_tribble rt s' u contents posted id
      ]

  -- The texts of the tribbles, in the order in which the goroutines deliver them.
  unfoldable pub fetch_all : S → String → List String → S × List String
  fetch_all s u [] = (s, [])
  fetch_all s u (id ∷ ids) =
      let (s', v) = kv.get s (tribble_key u id) in
      let (s'', vs) = fetch_all s' u ids in (s'', text_of v ∷ vs)

  unfoldable pub get_tribbles_one_user :
      Runtime → (List String → List String) → S → String → S × Option (List Tribble)
  unfolding fetch_all decode_all
  get_tribbles_one_user rt order s u =
      let (s', (ids, fine)) = kv.get_list s (list_key u) in
      if not (is_empty ids) && not fine
      then (s', none)
      else (let (s'', vs) = fetch_all s' u (order ids) in
          (s'', some (decode_all rt zero_tribble vs)))

  unfoldable pub read_tribbles :
      Runtime → (List String → List String) → S → String → S × Option (Status × List Tribble)
  unfolding get_tribbles_one_user latest
  read_tribbles rt order s u =
      let (s', r) = get_tribbles_one_user rt order s u in
      elim r [ none ↦ (s', none) | some l ↦ (s', some (Status.ok, latest rt l)) ]

  unfoldable pub get_tribbles :
      Runtime → (List String → List String) → S → String → S × Option (Status × List Tribble)
  unfolding with_user read_tribbles
  get_tribbles rt order s u = with_user s u (λ s'. read_tribbles rt order s' u)

  abbrev pub list_or_empty : Option (List Tribble) → List Tribble
  list_or_empty none = []
  list_or_empty (some l) = l

  -- The tribbles of several users; an error of one of them leaves nothing of that user.
  unfoldable pub gather :
      Runtime → (String → List String → List String) → S → List String → S × List Tribble
  unfolding get_tribbles_one_user
  gather rt order s [] = (s, [])
  gather rt order s (u ∷ us) =
      let (s', r) = get_tribbles_one_user rt (order u) s u in
      let (s'', l) = gather rt order s' us in (s'', list_or_empty r ++ l)

  unfoldable pub read_subscribed :
      Runtime
      → (List String → List String)
      → (String → List String → List String)
      → S
      → String
      → S × Option (Status × List Tribble)
  unfolding gather latest
  read_subscribed rt users order s u =
      let (s', (us, fine)) = kv.get_list s (subscribe_key u) in
      if not (is_empty us) && not fine
      then (s', none)
      else (let (s'', l) = gather rt order s' (users us) in (s'', some (Status.ok, latest rt l)))

  unfoldable pub get_tribbles_by_subscription :
      Runtime
      → (List String → List String)
      → (String → List String → List String)
      → S
      → String
      → S × Option (Status × List Tribble)
  unfolding with_user read_subscribed
  get_tribbles_by_subscription rt users order s u =
      with_user s u (λ s'. read_subscribed rt users order s' u)
