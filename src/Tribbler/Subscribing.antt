-- ===== src/Tribbler/Subscribing.antt =====
-- tribserver_impl.go: a subscription that is added is listed, and one that is removed is gone.
use projects.Common.{
  ◌≡◌, refl, sym, ap, ◌∙◌, subst, String, true, false, not, Option, none, some, List, [], ◌∷◌, ◌++◌,
  arith,
}
use projects.Storage.Server.{contains}
use projects.Storage.Calls.{remove_first}
use projects.Tribbler.Store.{KeyValue, Laws}
use projects.Tribbler.Server.{
  Status, user_key, subscribe_key, with_users, subscribe, unsubscribe, add_subscription,
  remove_subscription, with_user, read_subscriptions, get_subscriptions, create_user,
}

contains-append_one : (x : String) (l : List String) → contains x (l ++ x ∷ []) ≡ true
unfolding contains
contains-append_one x [] = ground arith
contains-append_one x (y ∷ l) = ground (arith, contains-append_one x l)

remove_first-append_one :
    (x : String) (l : List String) → contains x l ≡ false → remove_first x (l ++ x ∷ []) ≡ l
unfolding contains remove_first
remove_first-append_one x [] e = ground arith
remove_first-append_one x (y ∷ l) e = ground (arith, remove_first-append_one x l)

module _ {S : Type 0} (kv : KeyValue S) (w : Laws kv) where
  -- Both users exist, and the first has the subscriptions.
  pub record Users (s : S) (u target : String) (l : List String) : Type 0 where
    pub user : String
    pub user_exists : w.value s (user_key u) ≡ some user
    pub other : String
    pub target_exists : w.value s (user_key target) ≡ some other
    pub subscriptions : w.items s (subscribe_key u) ≡ l

  module _ (u target : String) where
    -- After the guards of a call.
    abbrev guarded : S → S
    guarded s = (kv.get (kv.get s (user_key u)).0 (user_key target)).0

    with_users_eq :
        (s : S) (l : List String) (f : S → S × Status)
        → Users s u target l
        → with_users kv s u target f ≡ f (guarded s)
    unfolding with_users
    with_users_eq s l f h =
        let first : (kv.get s (user_key u)).1 ≡ some h.user =
          w.get-value s (user_key u) ∙ h.user_exists in
        let second : (kv.get (kv.get s (user_key u)).0 (user_key target)).1 ≡ some h.other =
          w.get-value (kv.get s (user_key u)).0 (user_key target)
          ∙ ap (λ (f : String → Option String). f (user_key target)) (w.get-values s (user_key u))
          ∙ h.target_exists in
        rw (with_users, first, second) refl

    values_guarded : (s : S) → w.value (guarded s) ≡ w.value s
    values_guarded s =
        w.get-values (kv.get s (user_key u)).0 (user_key target) ∙ w.get-values s (user_key u)

    lists_guarded : (s : S) → w.items (guarded s) ≡ w.items s
    lists_guarded s =
        w.get-lists (kv.get s (user_key u)).0 (user_key target) ∙ w.get-lists s (user_key u)

    -- What a call that keeps the values and sets the list leaves.
    Users-after :
        (s s' : S) (l l' : List String)
        → Users s u target l
        → w.value s' ≡ w.value s
        → w.items s' (subscribe_key u) ≡ l'
        → Users s' u target l'
    Users-after s s' l l' h same e = record {
      user = h.user;
      user_exists = ap (λ (f : String → Option String). f (user_key u)) same ∙ h.user_exists;
      other = h.other;
      target_exists =
          ap (λ (f : String → Option String). f (user_key target)) same ∙ h.target_exists;
      subscriptions = e;
    }

    add_lem :
        (s : S) (l : List String)
        → Users s u target l
        → contains target l ≡ false
        → ((add_subscription kv s u target).1 ≡ Status.ok)
          × Users (add_subscription kv s u target).0 u target (l ++ target ∷ [])
    unfolding add_subscription
    add_lem s l h new =
        let g = guarded s in
        let listed : w.items g (subscribe_key u) ≡ l =
          ap (λ (f : String → List String). f (subscribe_key u)) (lists_guarded s)
          ∙ h.subscriptions in
        let absent : contains target (w.items g (subscribe_key u)) ≡ false =
          ap (contains target) listed ∙ new in
        let fine : (kv.append_to_list g (subscribe_key u) target).1 ≡ true =
          w.append-ok g (subscribe_key u) target ∙ ap not absent in
        let added : w.items (kv.append_to_list g (subscribe_key u) target).0 (subscribe_key u)
            ≡ l ++ target ∷ [] =
          ground
            (arith, w.append-lists g (subscribe_key u) target (subscribe_key u), absent, listed) in
        let done : subscribe kv g u target
            ≡ ((kv.append_to_list g (subscribe_key u) target).0, Status.ok) =
          rw (subscribe, fine) refl in
        subst (λ (r : S × Status). (r.1 ≡ Status.ok) × Users r.0 u target (l ++ target ∷ []))
          (sym (with_users_eq s l (λ s'. subscribe kv s' u target) h ∙ done))
          (
            refl,
            Users-after s _ l _ h (w.append-values g (subscribe_key u) target ∙ values_guarded s)
                added,
          )

    remove_lem :
        (s : S) (l : List String)
        → Users s u target l
        → contains target l ≡ true
        → ((remove_subscription kv s u target).1 ≡ Status.ok)
          × Users (remove_subscription kv s u target).0 u target (remove_first target l)
    unfolding remove_subscription
    remove_lem s l h old =
        let g = guarded s in
        let listed : w.items g (subscribe_key u) ≡ l =
          ap (λ (f : String → List String). f (subscribe_key u)) (lists_guarded s)
          ∙ h.subscriptions in
        let present : contains target (w.items g (subscribe_key u)) ≡ true =
          ap (contains target) listed ∙ old in
        let fine : (kv.remove_from_list g (subscribe_key u) target).1 ≡ true =
          w.remove-ok g (subscribe_key u) target ∙ present in
        let gone : w.items (kv.remove_from_list g (subscribe_key u) target).0 (subscribe_key u)
            ≡ remove_first target l =
          ground (
            arith,
            w.remove-lists g (subscribe_key u) target (subscribe_key u),
            present,
            ap (remove_first target) listed,
          ) in
        let done : unsubscribe kv g u target
            ≡ ((kv.remove_from_list g (subscribe_key u) target).0, Status.ok) =
          rw (unsubscribe, fine) refl in
        subst (λ (r : S × Status). (r.1 ≡ Status.ok) × Users r.0 u target (remove_first target l))
          (sym (with_users_eq s l (λ s'. unsubscribe kv s' u target) h ∙ done))
          (
            refl,
            Users-after s _ l _ h (w.remove-values g (subscribe_key u) target ∙ values_guarded s)
                gone,
          )

    list_lem :
        (s : S) (l : List String)
        → Users s u target l
        → (get_subscriptions kv s u).1 ≡ some (Status.ok, l)
    unfolding get_subscriptions read_subscriptions with_user
    list_lem s l h =
        let s' = (kv.get s (user_key u)).0 in
        let found : (kv.get s (user_key u)).1 ≡ some h.user =
          w.get-value s (user_key u) ∙ h.user_exists in
        let listed : (kv.get_list s' (subscribe_key u)).1 ≡ (l, true) =
          w.get_list-items s' (subscribe_key u)
          ∙ ap (λ (f : String → List String). (f (subscribe_key u), true))
              (w.get-lists s (user_key u))
          ∙ ap (λ k. (k, true)) h.subscriptions in
        rw (with_user, found, read_subscriptions, listed) refl

    -- A new subscription of a user to another is listed last by `GetSubscriptions`; removing it
    -- again brings the old list back. Both calls answer OK. For a libstore whose storage server
    -- answers every call, as in Lawful.
    pub subscribe_unsubscribe :
        (s : S) (l : List String)
        → Users s u target l
        → contains target l ≡ false
        → let (added, r) = add_subscription kv s u target in
          let (removed, r') = remove_subscription kv added u target in
          (r ≡ Status.ok)
          × ((get_subscriptions kv added u).1 ≡ some (Status.ok, l ++ target ∷ []))
          × (r' ≡ Status.ok)
          × ((get_subscriptions kv removed u).1 ≡ some (Status.ok, l))
    subscribe_unsubscribe s l h new =
        let (ok, after) = add_lem s l h new in
        let s' = (add_subscription kv s u target).0 in
        let (ok', last) = remove_lem s' (l ++ target ∷ []) after (contains-append_one target l) in
        (
          ok,
          list_lem s' (l ++ target ∷ []) after,
          ok',
          list_lem _ _ last ∙ ap (λ k. some (Status.ok, k)) (remove_first-append_one target l new),
        )

  created :
      (s : S) (u : String)
      → w.value s (user_key u) ≡ none
      → create_user kv s u
        ≡ ((kv.put (kv.get s (user_key u)).0 (user_key u) (user_key u)).0, Status.ok)
  unfolding create_user
  created s u e =
      let missing : (kv.get s (user_key u)).1 ≡ none = w.get-value s (user_key u) ∙ e in
      rw (create_user, missing) refl

  known :
      (s : S) (u v : String)
      → w.value s (user_key u) ≡ some v
      → create_user kv s u ≡ ((kv.get s (user_key u)).0, Status.exists)
  unfolding create_user
  known s u v e =
      let found : (kv.get s (user_key u)).1 ≡ some v = w.get-value s (user_key u) ∙ e in
      rw (create_user, found) refl

  put_user :
      (s : S) (u : String)
      → w.value (kv.put s (user_key u) (user_key u)).0 (user_key u) ≡ some (user_key u)
  put_user s u = ground (arith, w.put-values s (user_key u) (user_key u) (user_key u))

  -- `CreateUser` of a new name answers OK and makes the user, and a second call with the name
  -- answers that the user exists and changes nothing that the store holds. For a libstore whose
  -- storage server answers every call, as in Lawful.
  pub create_user_once :
      (s : S) (u : String)
      → w.value s (user_key u) ≡ none
      → let (made, r) = create_user kv s u in
        let (again, r') = create_user kv made u in
        (r ≡ Status.ok)
        × (w.value made (user_key u) ≡ some (user_key u))
        × (r' ≡ Status.exists)
        × (w.value again ≡ w.value made)
        × (w.items again ≡ w.items made)
  create_user_once s u e =
      let made = (kv.put (kv.get s (user_key u)).0 (user_key u) (user_key u)).0 in
      let user : w.value made (user_key u) ≡ some (user_key u) =
        put_user (kv.get s (user_key u)).0 u in
      let again = known made u (user_key u) user in
      rw (created s u e) (
        refl,
        user,
        ap (λ r. r.1) again,
        ap (λ r. w.value r.0) again ∙ w.get-values made (user_key u),
        ap (λ r. w.items r.0) again ∙ w.get-lists made (user_key u),
      )
