-- ===== src/Paxos/Rounds.antt =====
-- paxos.go: the numbers that a proposer takes, and the value that its prepare phase chooses.
use native.Mathlib.Nat.{mod-eq_of_lt, div-add-mod', mod-lt, mul-add-mod_self_right}
use projects.Common.{
  ℕ, suc, ◌+◌, ◌-◌, ◌*◌, ◌/◌, ◌%◌, ◌^◌, leb, ◌≤◌, ◌<◌, ◌≡◌, refl, ◌∙◌, ap, ◌⊎◌, ◌≢◌, inl, inr, Bool,
  true, false, Option, List, [], ◌∷◌, ◌++◌, All, Any, Any-map, Bool-cases, ltb, if◌then◌else◌,
  arith,
}
use projects.Paxos.Rpc.{PaxosValue, PrepareReply}
use projects.Paxos.Proposer.{int64, next_seq_num, Tally, is_ok, tally_prepare, collect_prepares}

add_mul_mod : (k n m : ℕ) → m < n → (k * n + m) % n ≡ m
add_mul_mod k n m h = mul-add-mod_self_right k n m ∙ mod-eq_of_lt h

-- Raising a number above `highest` adds whole multiples of `n` to it.
raised :
    (now n me highest : ℕ)
    → let d = highest - (now * n + me) in
      now * n + me + (d - d % n + n) ≡ (now + d / n + 1) * n + me
raised now n me highest = let d = highest - (now * n + me) in omega (arith, div-add-mod' d n)

-- Clock and number with which a proposer of `n` peers stays within the values of an int64.
pub record Fits (now n highest : ℕ) : Type 0 where
  pub clock : now * n + n ≤ 2 ^ 63
  pub number : highest + n ≤ 2 ^ 63

-- The number without the wrap-around.
abbrev whole : ℕ → ℕ → ℕ → ℕ → ℕ
whole now n me highest =
    let seq_num = now * n + me in
    if leb seq_num highest
    then seq_num + ((highest - seq_num) - (highest - seq_num) % n + n)
    else seq_num

int64_lem : (m : ℕ) → m < 2 ^ 64 → int64 m ≡ m
int64_lem m lt = mod-eq_of_lt lt

next_seq_num-whole :
    (now n me highest : ℕ)
    → me < n
    → Fits now n highest
    → next_seq_num now n me highest ≡ whole now n me highest
unfolding next_seq_num
next_seq_num-whole now n me highest h f =
    let d = highest - (now * n + me) in
    let first : int64 (int64 (now * n) + me) ≡ now * n + me =
      ap (λ k. int64 (k + me)) (int64_lem (now * n) (omega (arith, f.clock)))
      ∙ int64_lem (now * n + me) (omega (arith, f.clock, h)) in
    elim (Bool-cases (leb (now * n + me) highest)) [
      | inl x ↦
          rw (first, x)
            (int64_lem (now * n + me + (d - d % n + n)) (ground (arith, x, f.number, h)))
      | inr x ↦ rw (first, x) refl
    ]

whole_lem :
    (now n me highest : ℕ)
    → me < n
    → (highest < whole now n me highest) × (whole now n me highest % n ≡ me)
whole_lem now n me highest h =
    let d = highest - (now * n + me) in
    ground (
      arith,
      raised now n me highest,
      add_mul_mod (now + d / n + 1) n me h,
      add_mul_mod now n me h,
      mod-lt d {m = n},
    )

-- A proposer's number is above the number that rejected it, and leaves its own index as the
-- remainder by the number of peers, while the numbers fit.
pub next_seq_num_lem :
    (now n me highest : ℕ)
    → me < n
    → Fits now n highest
    → (highest < next_seq_num now n me highest) × (next_seq_num now n me highest % n ≡ me)
next_seq_num_lem now n me highest h f =
    rw (next_seq_num-whole now n me highest h f) (whole_lem now n me highest h)

-- Two peers of one cluster never take the same proposal number, whatever their clocks show and
-- whatever numbers have rejected them, as long as the clocks and these numbers leave room for a
-- larger number in an int64.
pub next_seq_num_distinct :
    (n me you : ℕ) (now highest now' highest' : ℕ)
    → me < n
    → you < n
    → me ≢ you
    → Fits now n highest
    → Fits now' n highest'
    → next_seq_num now n me highest ≢ next_seq_num now' n you highest'
next_seq_num_distinct n me you now highest now' highest' hm hy ne f g e = ne (
    ground
      (arith, next_seq_num_lem now n me highest hm f, next_seq_num_lem now' n you highest' hy g))

-- The reply came back and says OK.
abbrev pub counts : Bool × PrepareReply → Bool
counts (false, r) = false
counts (true, r) = is_ok r.status

abbrev pub count_ok : List (Bool × PrepareReply) → ℕ
count_ok [] = 0
count_ok (r ∷ rs) = if counts r then suc (count_ok rs) else count_ok rs

abbrev pub start_tally : Option PaxosValue → Tally
start_tally v = record {
  num_ok = 0;
  propose_value = v;
  max_seq_num_accepted = 0;
  max_seq_num_highest = 0;
}

-- What the tally `t` says of the replies `rs`, counted from the tally `t₀`: no OK reply has a
-- larger accepted number, and the proposal is that of an OK reply with the largest one, which is
-- above the old largest one, or the old proposal.
pub record Counted (t₀ : Tally) (rs : List (Bool × PrepareReply)) (t : Tally) : Type 0 where
  pub total : t.num_ok ≡ t₀.num_ok + count_ok rs
  pub grows : t₀.max_seq_num_accepted ≤ t.max_seq_num_accepted
  pub largest : All (λ r. counts r ≡ true → r.1.seq_num_accepted ≤ t.max_seq_num_accepted) rs
  pub source :
      ((t.max_seq_num_accepted ≡ t₀.max_seq_num_accepted) × (t.propose_value ≡ t₀.propose_value))
      ⊎ Any
          (λ r.
            (counts r ≡ true)
            × (t₀.max_seq_num_accepted < r.1.seq_num_accepted)
            × (r.1.seq_num_accepted ≡ t.max_seq_num_accepted)
            × (r.1.value_accepted ≡ t.propose_value))
          rs

Counted-nil : (t : Tally) → Counted t [] t
Counted-nil t = record {
  total = omega arith;
  grows = omega arith;
  largest = tt;
  source = inl (refl, refl);
}

tally_step :
    (t : Tally) (r : Bool × PrepareReply)
    → let t' = tally_prepare t r in
      (t'.num_ok ≡ t.num_ok + count_ok (r ∷ []))
      × (t.max_seq_num_accepted ≤ t'.max_seq_num_accepted)
      × (counts r ≡ true → r.1.seq_num_accepted ≤ t'.max_seq_num_accepted)
      × (((t'.max_seq_num_accepted ≡ t.max_seq_num_accepted) × (t'.propose_value ≡ t.propose_value))
          ⊎ ((counts r ≡ true)
              × (t.max_seq_num_accepted < r.1.seq_num_accepted)
              × (r.1.seq_num_accepted ≡ t'.max_seq_num_accepted)
              × (r.1.value_accepted ≡ t'.propose_value)))
unfolding tally_prepare
tally_step t (false, r) = ground arith
tally_step t (true, r) = ground arith

Counted-cons :
    (t : Tally) (r : Bool × PrepareReply) (rs : List (Bool × PrepareReply)) (t' : Tally)
    → Counted (tally_prepare t r) rs t'
    → Counted t (r ∷ rs) t'
Counted-cons t r rs t' c = record {
  total = ground (arith, tally_step t r, c.total);
  grows = omega (arith, (tally_step t r).1, c.grows);
  largest = ((λ h. omega (arith, (tally_step t r).2 h, c.grows)), c.largest);
  source = elim (c.source) [
    | inl (m, v) ↦ ground (arith, tally_step t r, m, v)
    | inr later ↦ inr (
        inr (
          Any-map _ _ rs
            (λ q (ok, above, most, value).
              (ok, omega (arith, above, (tally_step t r).1), most, value))
            later))
  ];
}

-- The replies that were read before the loop stopped.
pub record Read (n : ℕ) (t₀ : Tally) (rs : List (Bool × PrepareReply)) (t : Tally) : Type 0 where
  pub seen : List (Bool × PrepareReply)
  pub unseen : List (Bool × PrepareReply)
  pub split : rs ≡ seen ++ unseen
  pub counted : Counted t₀ seen t
  pub stopped : (n / 2 < t.num_ok) ⊎ (unseen ≡ [])

pub collect_prepares-Read :
    (n : ℕ) (t : Tally) (rs : List (Bool × PrepareReply)) → Read n t rs (collect_prepares n t rs)
unfolding collect_prepares
collect_prepares-Read n t [] = record {
  seen = [];
  unseen = [];
  split = refl;
  counted = Counted-nil t;
  stopped = inr refl;
}
collect_prepares-Read n t (r ∷ rs) = elim (Bool-cases (ltb (n / 2) (tally_prepare t r).num_ok)) [
  | inl e ↦
      rw (e, collect_prepares)
        (record {
          seen = r ∷ [];
          unseen = rs;
          split = refl;
          counted = Counted-cons t r [] _ (Counted-nil (tally_prepare t r));
          stopped = inl (ground arith);
        })
  | inr e ↦
      let rest = collect_prepares-Read n (tally_prepare t r) rs in
      rw (e, collect_prepares)
        (record {
          seen = r ∷ rest.seen;
          unseen = rest.unseen;
          split = ap (◌∷◌ r) rest.split;
          counted = Counted-cons t r rest.seen _ rest.counted;
          stopped = rest.stopped;
        })
]
