-- ===== src/Tribbler/Reading.antt =====
-- tribserver_impl.go: what a reader of tribbles gets, whatever the order of its goroutines.
use mathlib.Core.List.{Permᴰ}
use projects.Common.{
  ◌≤◌, ◌≡◌, refl, sym, ap, ◌∙◌, subst, String, true, Option, some, List, [], ◌∷◌, map, All,
}
use projects.Tribbler.Store.{KeyValue, Laws}
use projects.Tribbler.Server.{
  Status, Tribble, Runtime, user_key, list_key, tribble_key, text_of, zero_tribble, take,
  decode_all, latest, fetch_all, get_tribbles_one_user, read_tribbles, with_user, get_tribbles,
}

map-Perm : {A B : Type 0} (f : A → B) (l l' : List A) → Permᴰ l l' → Permᴰ (map f l) (map f l')
map-Perm f _ _ Permᴰ.nil = Permᴰ.nil
map-Perm f _ _ (Permᴰ.cons {l₁} {l₂} e d) = Permᴰ.cons (ap f e) (map-Perm f l₁ l₂ d)
map-Perm f _ _ (Permᴰ.swap e g) = Permᴰ.swap (ap f e) (ap f g)
map-Perm f l l' (Permᴰ.trans {l₂} d d') = Permᴰ.trans (map-Perm f l l₂ d) (map-Perm f l₂ l' d')

pub All-Perm : {A : Type 0} (P : A → Type 0) (l l' : List A) → Permᴰ l l' → All P l' → All P l
All-Perm P _ _ Permᴰ.nil a = tt
All-Perm P _ _ (Permᴰ.cons {l₁} {l₂} e d) a = (subst P (sym e) a.0, All-Perm P l₁ l₂ d a.1)
All-Perm P _ _ (Permᴰ.swap e g) (x, (y, rest)) = (subst P (sym e) y, (subst P (sym g) x, rest))
All-Perm P l l' (Permᴰ.trans {l₂} d d') a = All-Perm P l l₂ d (All-Perm P l₂ l' d' a)

-- Newest first.
abbrev pub NewestFirst : List Tribble → Type 0
NewestFirst [] = Unit
NewestFirst (t ∷ ts) = All (λ u. u.posted ≤ t.posted) ts × NewestFirst ts

-- What is relied on of json and of sort: a text gives back the tribble whatever the variable held
-- before, and sorting gives a permutation with the newest first.
pub record Runs (rt : Runtime) : Type 0 where
  pub round_trip : (t u : Tribble) → rt.unmarshal u (rt.marshal t) ≡ t
  pub sorts : (l : List Tribble) → NewestFirst (rt.sort l)
  pub permutes : (l : List Tribble) → Permᴰ (rt.sort l) l

module _ {S : Type 0} (kv : KeyValue S) (w : Laws kv) (rt : Runtime) (runs : Runs rt) where
  -- The calls have not changed what the store holds.
  pub record Same (s s' : S) : Type 0 where
    pub values : w.value s' ≡ w.value s
    pub lists : w.items s' ≡ w.items s

  abbrev pub text_at : S → String → String → String
  text_at s u id = text_of (w.value s (tribble_key u id))

  -- Every listed id has a tribble in the store.
  abbrev pub Stored : S → String → Type 0
  Stored s u =
      All (λ id. (t : Tribble) × (w.value s (tribble_key u id) ≡ some (rt.marshal t)))
        (w.items s (list_key u))

  abbrev pub tribble_at : S → String → String → Tribble
  tribble_at s u id = rt.unmarshal zero_tribble (text_at s u id)

  -- The tribbles of a user, in the order of the list.
  abbrev pub tribbles_of : S → String → List Tribble
  tribbles_of s u = map (tribble_at s u) (w.items s (list_key u))

  pub Same-trans : (a b c : S) → Same a b → Same b c → Same a c
  Same-trans a b c h k = record { values = k.values ∙ h.values; lists = k.lists ∙ h.lists }

  fetch_all_lem :
      (s : S) (u : String) (ids : List String)
      → ((fetch_all kv s u ids).1 ≡ map (text_at s u) ids) × Same s (fetch_all kv s u ids).0
  unfolding fetch_all
  fetch_all_lem s u [] = (refl, record { values = refl; lists = refl })
  fetch_all_lem s u (id ∷ ids) =
      let s' = (kv.get s (tribble_key u id)).0 in
      let (texts, same) = fetch_all_lem s' u ids in
      let one : Same s s' = record {
        values = w.get-values s (tribble_key u id);
        lists = w.get-lists s (tribble_key u id);
      } in
      let rest : map (text_at s' u) ids ≡ map (text_at s u) ids =
        ap (λ (f : String → Option String). map (λ id. text_of (f (tribble_key u id))) ids)
          one.values in
      (
        rw (w.get-value s (tribble_key u id)) (ap (◌∷◌ (text_at s u id)) (texts ∙ rest)),
        Same-trans s s' _ one same,
      )

  decode_all_lem :
      (u : Tribble) (vs : List String)
      → All (λ v. (t : Tribble) × (v ≡ rt.marshal t)) vs
      → decode_all rt u vs ≡ map (rt.unmarshal zero_tribble) vs
  unfolding decode_all
  decode_all_lem u [] a = refl
  decode_all_lem u (v ∷ vs) ((t, e), a) =
      let here : rt.unmarshal u v ≡ rt.unmarshal zero_tribble v =
        ap (rt.unmarshal u) e
        ∙ runs.round_trip t u
        ∙ sym (ap (rt.unmarshal zero_tribble) e ∙ runs.round_trip t zero_tribble) in
      let rest = decode_all_lem (rt.unmarshal u v) vs a in cc

  map-map :
      {A B C : Type 0} (g : B → C) (f : A → B) (l : List A) → map g (map f l) ≡ map (λ x. g (f x)) l
  map-map g f [] = refl
  map-map g f (x ∷ l) = ap (◌∷◌ (g (f x))) (map-map g f l)

  -- The texts of stored tribbles.
  marshalled :
      (s : S) (u : String) (ids : List String)
      → All (λ id. (t : Tribble) × (w.value s (tribble_key u id) ≡ some (rt.marshal t))) ids
      → All (λ v. (t : Tribble) × (v ≡ rt.marshal t)) (map (text_at s u) ids)
  marshalled s u [] a = tt
  marshalled s u (id ∷ ids) a = ((a.0.0, ap text_of a.0.1), marshalled s u ids a.1)

  one_user_eq :
      (order : List String → List String) (s : S) (u : String) (ids : List String)
      → (kv.get_list s (list_key u)).1 ≡ (ids, true)
      → get_tribbles_one_user kv rt order s u ≡ (
          let (s', vs) = fetch_all kv (kv.get_list s (list_key u)).0 u (order ids) in
          (s', some (decode_all rt zero_tribble vs)))
  unfolding get_tribbles_one_user
  one_user_eq order s u [] e = rw (get_tribbles_one_user, e) refl
  one_user_eq order s u (id ∷ ids) e = rw (get_tribbles_one_user, e) refl

  -- What a read of one user's tribbles gives.
  pub record Reads (s : S) (expected : List Tribble) (r : S × Option (List Tribble)) : Type 0 where
    pub tribbles : List Tribble
    pub read : r.1 ≡ some tribbles
    pub all : Permᴰ tribbles expected
    pub same : Same s r.0

  pub one_user_lem :
      (order : List String → List String) (s : S) (u : String)
      → ((l : List String) → Permᴰ (order l) l)
      → Stored s u
      → Reads s (tribbles_of s u) (get_tribbles_one_user kv rt order s u)
  one_user_lem order s u ord st =
      let ids = w.items s (list_key u) in
      let s' = (kv.get_list s (list_key u)).0 in
      let (texts, same) = fetch_all_lem s' u (order ids) in
      let first : Same s s' = record {
        values = w.get_list-values s (list_key u);
        lists = w.get_list-lists s (list_key u);
      } in
      let as_before : map (text_at s' u) (order ids) ≡ map (text_at s u) (order ids) =
        ap (λ (f : String → Option String). map (λ id. text_of (f (tribble_key u id))) (order ids))
          first.values in
      let stored = All-Perm _ (order ids) ids (ord ids) st in
      let eq = one_user_eq order s u ids (w.get_list-items s (list_key u)) in
      let decoded : decode_all rt zero_tribble (fetch_all kv s' u (order ids)).1
          ≡ map (tribble_at s u) (order ids) =
        ap (decode_all rt zero_tribble) (texts ∙ as_before)
        ∙ decode_all_lem zero_tribble (map (text_at s u) (order ids))
            (marshalled s u (order ids) stored)
        ∙ map-map (rt.unmarshal zero_tribble) (text_at s u) (order ids) in
      record {
        tribbles = map (tribble_at s u) (order ids);
        read = ap (λ r. r.1) eq ∙ ap some decoded;
        all = map-Perm (tribble_at s u) (order ids) ids (ord ids);
        same =
            subst (λ (r : S × Option (List Tribble)). Same s r.0) (sym eq)
              (Same-trans s s' _ first same);
      }

  -- The reply shows a hundred tribbles at most, the newest ones first.
  pub record Shows (expected : List Tribble) (r : Option (Status × List Tribble)) : Type 0 where
    pub sorted : List Tribble
    pub replied : r ≡ some (Status.ok, take 100 sorted)
    pub newest_first : NewestFirst sorted
    pub all : Permᴰ sorted expected

  read_tribbles-Shows :
      (order : List String → List String) (s : S) (u : String)
      → ((l : List String) → Permᴰ (order l) l)
      → Stored s u
      → Shows (tribbles_of s u) (read_tribbles kv rt order s u).1
  unfolding read_tribbles latest
  read_tribbles-Shows order s u ord st =
      let r = one_user_lem order s u ord st in
      record {
        sorted = rt.sort r.tribbles;
        replied = rw (read_tribbles, r.read) refl;
        newest_first = runs.sorts r.tribbles;
        all = Permᴰ.trans (runs.permutes r.tribbles) r.all;
      }

  pub Same-Stored : (s s' : S) (u : String) → Same s s' → Stored s u → Stored s' u
  Same-Stored s s' u same st = subst2 same.values same.lists st
    where
      subst2 :
          {f f' : String → Option String} {g g' : String → List String}
          → f' ≡ f
          → g' ≡ g
          → All
              (λ id. (t : Tribble) × (f (tribble_key u id) ≡ some (rt.marshal t)))
              (g (list_key u))
          → All
              (λ id. (t : Tribble) × (f' (tribble_key u id) ≡ some (rt.marshal t)))
              (g' (list_key u))
      subst2 {f} {f'} {g} {g'} e h a =
          subst
            (λ g.
              All (λ id. (t : Tribble) × (f' (tribble_key u id) ≡ some (rt.marshal t)))
                (g (list_key u)))
            (sym h)
            (subst
              (λ (f : String → Option String).
                All (λ id. (t : Tribble) × (f (tribble_key u id) ≡ some (rt.marshal t)))
                  (g (list_key u)))
              (sym e) a)

  pub Same-tribbles_of : (s s' : S) (u : String) → Same s s' → tribbles_of s' u ≡ tribbles_of s u
  Same-tribbles_of s s' u same =
      ap
        (λ (f : String → Option String).
          map (λ id. rt.unmarshal zero_tribble (text_of (f (tribble_key u id))))
            (w.items s' (list_key u)))
        same.values
      ∙ ap (λ (g : String → List String). map (tribble_at s u) (g (list_key u))) same.lists

  pub with_user_eq :
      {A : Type 0} (s : S) (u v : String) (f : S → S × Option (Status × List A))
      → w.value s (user_key u) ≡ some v
      → with_user kv s u f ≡ f (kv.get s (user_key u)).0
  unfolding with_user
  with_user_eq s u v f e =
      let found : (kv.get s (user_key u)).1 ≡ some v = w.get-value s (user_key u) ∙ e in
      rw (with_user, found) refl

  pub get-Same : (s : S) (k : String) → Same s (kv.get s k).0
  get-Same s k = record { values = w.get-values s k; lists = w.get-lists s k }

  -- `GetTribbles` of a user who exists gives the newest hundred of the user's tribbles, newest first,
  -- in whatever order the goroutines deliver them.
  pub get_tribbles-Shows :
      (order : List String → List String) (s : S) (u v : String)
      → ((l : List String) → Permᴰ (order l) l)
      → w.value s (user_key u) ≡ some v
      → Stored s u
      → Shows (tribbles_of s u) (get_tribbles kv rt order s u).1
  unfolding get_tribbles
  get_tribbles-Shows order s u v ord e st =
      let s' = (kv.get s (user_key u)).0 in
      let same = get-Same s (user_key u) in
      subst (λ (r : S × Option (Status × List Tribble)). Shows (tribbles_of s u) r.1)
        (sym (with_user_eq s u v (λ s'. read_tribbles kv rt order s' u) e))
        (subst (λ l. Shows l (read_tribbles kv rt order s' u).1) (Same-tribbles_of s s' u same)
          (read_tribbles-Shows order s' u ord (Same-Stored s s' u same st)))
