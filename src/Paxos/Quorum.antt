-- ===== src/Paxos/Quorum.antt =====
-- paxos.go: `numOk > len(px.peers)/2`. Two majorities of one set of peers have a peer in common.
use projects.Common.{
  ltb, ℕ, zero, suc, ◌+◌, ◌/◌, ◌≤◌, ◌<◌, ◌≡◌, refl, subst, ◌≢◌, ◌⊎◌, inl, inr, Bool, true, false,
  List, [], ◌∷◌, ◌==◌, if◌then◌else◌, Bool-cases, All, length, arith,
}

-- Membership that can be taken apart into data.
abbrev pub In : {A : Type 0} → A → List A → Type 0
In x [] = ⊥
In x (y ∷ ys) = (y ≡ x) ⊎ In x ys

pub All-In {κ} : {A : Type 0} (P : A → Type κ) (x : A) (l : List A) → All P l → In x l → P x
All-In P x [] a i = absurd i
All-In P x (y ∷ l) a (inl e) = subst P e a.0
All-In P x (y ∷ l) a (inr i) = All-In P x l a.1 i

pub All-map {ℓ κ λ'} :
    {A : Type ℓ} (P : A → Type κ) (Q : A → Type λ') (l : List A)
    → ((x : A) → P x → Q x)
    → All P l
    → All Q l
All-map P Q [] f a = tt
All-map P Q (x ∷ l) f a = (f x a.0, All-map P Q l f a.1)

-- No number stands twice.
abbrev pub Nodup : List ℕ → Type 0
Nodup [] = Unit
Nodup (x ∷ xs) = All (λ y. y ≢ x) xs × Nodup xs

-- More than half of the peers `0 … n - 1`, each with the property.
pub record Quorum (n : ℕ) (P : ℕ → Type 0) : Type 0 where
  pub members : List ℕ
  pub distinct : Nodup members
  pub peers : All (λ i. i < n) members
  pub most : n / 2 < length members
  pub all : All P members

mem : ℕ → List ℕ → Bool
mem i [] = false
mem i (x ∷ xs) = if i == x then true else mem i xs

mem-In : (i : ℕ) (xs : List ℕ) → mem i xs ≡ true → In i xs
unfolding mem
mem-In i [] h = cc
mem-In i (x ∷ xs) h = elim (Bool-cases (i == x)) [
  | inl e ↦ inl (ground arith)
  | inr e ↦ inr (mem-In i xs (ground arith))
]

mem_fresh : (x : ℕ) (xs : List ℕ) → All (λ y. y ≢ x) xs → mem x xs ≡ false
unfolding mem
mem_fresh x [] a = refl
mem_fresh x (y ∷ xs) a = ground (arith, mem_fresh x xs a.1)

-- How many numbers below `n` pass the test.
count_below : ℕ → (ℕ → Bool) → ℕ
count_below zero p = 0
count_below (suc n) p = if p n then suc (count_below n p) else count_below n p

-- One more number passes than is in the list.
count_below-cons :
    (n x : ℕ) (xs : List ℕ)
    → mem x xs ≡ false
    → count_below n (λ i. mem i (x ∷ xs))
      ≡ (if ltb x n then suc (count_below n (λ i. mem i xs)) else count_below n (λ i. mem i xs))
unfolding count_below mem
count_below-cons zero x xs h = ground arith
count_below-cons (suc n) x xs h =
    let same : n ≡ x → mem n xs ≡ false = λ e. rw e h in
    ground (arith, count_below-cons n x xs h, same)

length-le-count_below :
    (n : ℕ) (xs : List ℕ)
    → Nodup xs
    → All (λ i. i < n) xs
    → length xs ≤ count_below n (λ i. mem i xs)
length-le-count_below n [] d a = omega arith
length-le-count_below n (x ∷ xs) d a =
    ground (arith, count_below-cons n x xs (mem_fresh x xs d.0), length-le-count_below n xs d.1 a.1)

-- Two tests that together pass more often than there are numbers pass at a common one.
common :
    (n : ℕ) (p q : ℕ → Bool)
    → n < count_below n p + count_below n q
    → (i : ℕ) × (p i ≡ true) × (q i ≡ true)
unfolding count_below
common zero p q h = absurd (omega arith)
common (suc n) p q h = elim (Bool-cases (p n)) [
  | inl hp ↦ elim (Bool-cases (q n)) [ inl hq ↦ (n, hp, hq) | inr hq ↦ common n p q (ground arith) ]
  | inr hp ↦ common n p q (ground arith)
]

-- Two quorums share a peer.
pub Quorum-meet :
    {P Q : ℕ → Type 0} (n : ℕ) → Quorum n P → Quorum n Q → (i : ℕ) × (i < n) × P i × Q i
Quorum-meet {P} {Q} n a b =
    let (i, ha, hb) =
      common n (λ i. mem i a.members) (λ i. mem i b.members)
        (omega (
          arith,
          a.most,
          b.most,
          length-le-count_below n a.members a.distinct a.peers,
          length-le-count_below n b.members b.distinct b.peers,
        )) in
    let ia = mem-In i a.members ha in
    (
      i,
      All-In _ i a.members a.peers ia,
      All-In P i a.members a.all ia,
      All-In Q i b.members b.all (mem-In i b.members hb),
    )
