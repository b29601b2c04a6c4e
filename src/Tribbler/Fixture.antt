-- ===== src/Tribbler/Fixture.antt =====
-- Concrete stand-ins for what the tribbler server takes as parameters: an encoding of tribbles as
-- texts, a sort, and a state of the libstore and its storage server.
use mathlib.Core.List.{Permᴰ}
use mathlib.Core.List.Permᴰ
use Prim.Native.Char.{Char, code}
use Prim.Native.String.{[] as «end», ◌∷◌ as ◌▹◌}
use projects.Common.{
  ℕ, zero, suc, ◌≤◌, ◌≡◌, refl, sym, ap, String, Bool, some, List, [], ◌∷◌, All, ◌==◌, leb,
  if◌then◌else◌, Bool-cases, inl, inr, string_dec, lookup, arith,
}
use projects.Storage.Server.{ValueStore, ListStore}
use projects.Tribbler.Backend.{Deployed}
use projects.Tribbler.Server.{Tribble, Runtime}
use projects.Tribbler.Reading.{NewestFirst, Runs, All-Perm}

is_more : Char → Bool
is_more c = code c == b'a'

-- A number as so many marks, before the rest of a text.
unfoldable pub put_number : ℕ → String → String
put_number zero rest = "b" ▹ rest
put_number (suc n) rest = "a" ▹ put_number n rest

take_number : String → ℕ × String
unfolding is_more
take_number «end» = (0, «end»)
take_number (c ▹ s) = let (n, rest) = take_number s in if is_more c then (suc n, rest) else (0, s)

number_lem : (n : ℕ) (rest : String) → take_number (put_number n rest) ≡ (n, rest)
unfolding put_number take_number is_more
number_lem zero rest = refl
number_lem (suc n) rest = rw (number_lem n rest) refl

-- A text with a mark before each character, before the rest.
put_text : String → String → String
put_text «end» rest = "b" ▹ rest
put_text (c ▹ s) rest = "a" ▹ c ▹ put_text s rest

take_text : String → String × String
unfolding is_more
take_text «end» = («end», «end»)
take_text (m ▹ «end») = («end», «end»)
take_text (m ▹ c ▹ s) =
    let (t, rest) = take_text s in if is_more m then (c ▹ t, rest) else («end», c ▹ s)

text_lem : (s rest : String) → take_text (put_text s rest) ≡ (s, rest)
unfolding put_text take_text is_more
text_lem «end» «end» = refl
text_lem «end» (c ▹ rest) = refl
text_lem (c ▹ s) rest = rw (text_lem s rest) refl

pub marshal : Tribble → String
marshal t = put_number t.posted (put_text t.user_id t.contents)

pub unmarshal : Tribble → String → Tribble
unfolding take_number take_text
unmarshal u s =
    let (n, rest) = take_number s in
    let (user, contents) = take_text rest in
    record { user_id = user; posted = n; contents = contents }

round_trip : (t u : Tribble) → unmarshal u (marshal t) ≡ t
unfolding unmarshal marshal
round_trip t u =
    rw (number_lem t.posted (put_text t.user_id t.contents), text_lem t.user_id t.contents) refl

put_in : Tribble → List Tribble → List Tribble
put_in t [] = t ∷ []
put_in t (u ∷ us) = if leb u.posted t.posted then t ∷ u ∷ us else u ∷ put_in t us

pub sort : List Tribble → List Tribble
unfolding put_in
sort [] = []
sort (t ∷ ts) = put_in t (sort ts)

put_in-Perm : (t : Tribble) (l : List Tribble) → Permᴰ (put_in t l) (t ∷ l)
unfolding put_in
put_in-Perm t [] = Permᴰ.refl (t ∷ [])
put_in-Perm t (u ∷ us) = elim (Bool-cases (leb u.posted t.posted)) [
  | inl e ↦ rw e (Permᴰ.refl (t ∷ u ∷ us))
  | inr e ↦ rw e (Permᴰ.trans (Permᴰ.cons refl (put_in-Perm t us)) (Permᴰ.swap refl refl))
]

sort-Perm : (l : List Tribble) → Permᴰ (sort l) l
unfolding sort
sort-Perm [] = Permᴰ.nil
sort-Perm (t ∷ ts) = Permᴰ.trans (put_in-Perm t (sort ts)) (Permᴰ.cons refl (sort-Perm ts))

older :
    (t u : Tribble) (l : List Tribble)
    → u.posted ≤ t.posted
    → All (λ v. v.posted ≤ u.posted) l
    → All (λ v. v.posted ≤ t.posted) l
older t u [] le a = tt
older t u (v ∷ l) le a = (omega (arith, le, a.0), older t u l le a.1)

put_in-NewestFirst : (t : Tribble) (l : List Tribble) → NewestFirst l → NewestFirst (put_in t l)
unfolding put_in
put_in-NewestFirst t [] a = (tt, tt)
put_in-NewestFirst t (u ∷ us) a = elim (Bool-cases (leb u.posted t.posted)) [
  | inl e ↦ rw e (((ground arith), older t u us (ground arith) a.0), a)
  | inr e ↦ rw e (
    All-Perm (λ v. v.posted ≤ u.posted) (put_in t us) (t ∷ us) (put_in-Perm t us)
        ((ground arith), a.0),
    put_in-NewestFirst t us a.1,
  )
]

sort-NewestFirst : (l : List Tribble) → NewestFirst (sort l)
unfolding sort
sort-NewestFirst [] = tt
sort-NewestFirst (t ∷ ts) = put_in-NewestFirst t (sort ts) (sort-NewestFirst ts)

abbrev pub runtime : Runtime
runtime = record {
  marshal = marshal;
  unmarshal = unmarshal;
  print = λ n. put_number n "";
  sort = sort;
}

pub runtime_runs : Runs runtime
runtime_runs = record { round_trip = round_trip; sorts = sort-NewestFirst; permutes = sort-Perm }

-- A storage server that holds the texts and the lists, with no lease granted and no history.
abbrev pub stored : List (String × String) → List (String × ValueStore)
stored [] = []
stored ((k, v) ∷ m) = (k, record { value = v; lease_granted = [] }) ∷ stored m

abbrev pub stored_lists : List (String × List String) → List (String × ListStore)
stored_lists [] = []
stored_lists ((k, l) ∷ m) = (k, record { list = l; lease_granted = [] }) ∷ stored_lists m

pub stored-free :
    (m : List (String × String)) (k : String) (v : ValueStore)
    → lookup string_dec k (stored m) ≡ some v
    → v.lease_granted ≡ []
unfolding lookup
stored-free [] k v e = absurd cc
stored-free ((j, x) ∷ m) k v e = elim (string_dec j k) [
  | yes p ↦
      let new : ValueStore = record { value = x; lease_granted = [] } in
      let same : new ≡ v = ground (arith, p, e) in
      sym (ap (λ (v : ValueStore). v.lease_granted) same)
  | no p ↦ stored-free m k v (ground (arith, p, e))
]

pub stored_lists-free :
    (m : List (String × List String)) (k : String) (v : ListStore)
    → lookup string_dec k (stored_lists m) ≡ some v
    → v.lease_granted ≡ []
unfolding lookup
stored_lists-free [] k v e = absurd cc
stored_lists-free ((j, x) ∷ m) k v e = elim (string_dec j k) [
  | yes p ↦
      let new : ListStore = record { list = x; lease_granted = [] } in
      let same : new ≡ v = ground (arith, p, e) in
      sym (ap (λ (v : ListStore). v.lease_granted) same)
  | no p ↦ stored_lists-free m k v (ground (arith, p, e))
]

abbrev pub deployed : List (String × String) → List (String × List String) → Deployed
deployed values lists = record {
  values = stored values;
  lists = stored_lists lists;
  value_history = [];
  list_history = [];
  values_free = stored-free values;
  lists_free = stored_lists-free lists;
}
