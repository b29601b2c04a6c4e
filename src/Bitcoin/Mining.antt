-- ===== src/Bitcoin/Mining.antt =====
-- miner.go: the miner finds the smallest hash of a range, if the range has an end that it can pass.
use projects.Common.{
  ℕ, zero, suc, ◌+◌, ◌-◌, ◌^◌, ◌≤◌, ◌<◌, ◌≡◌, ◌⊎◌, Bool-cases, ltb→lt, ltb→le, subst, ℕ_discrete,
  inl, inr, refl, sym, ap, ◌∙◌, String, none, some, ltb, arith,
}
use projects.Bitcoin.Server.{MsgType, Message, uint64, new_result}
use projects.Bitcoin.Miner.{better, min_hash_from, calculate_min_hash, answer, mine}

-- The pair `r` is the smallest hash from `lower` to `upper` and a nonce that has it, or it is `best`,
-- which no hash of the range is below.
pub record Smallest (hash : ℕ → ℕ) (lower upper : ℕ) (best r : ℕ × ℕ) : Type 0 where
  pub least : (i : ℕ) → lower ≤ i → i ≤ upper → r.0 ≤ hash i
  pub not_above : r.0 ≤ best.0
  pub held : (r ≡ best) ⊎ ((lower ≤ r.1) × (r.1 ≤ upper) × (hash r.1 ≡ r.0))

-- One nonce more in front of a range.
better_first :
    (hash : ℕ → ℕ) (i upper : ℕ) (best r : ℕ × ℕ)
    → i ≤ upper
    → Smallest hash (i + 1) upper (better hash i best) r
    → Smallest hash i upper best r
unfolding better
better_first hash i upper best r le s = elim (Bool-cases (ltb (hash i) best.0)) [
  | inl b ↦
      let now : better hash i best ≡ (hash i, i) = rw (better, b) refl in
      let top : r.0 ≤ hash i = subst (λ (q : ℕ × ℕ). r.0 ≤ q.0) now s.not_above in
      record {
        least = least top;
        not_above = omega (arith, top, ltb→lt (hash i) best.0 b);
        held = elim (s.held) [
          | inl e ↦
              let own : r ≡ (hash i, i) = e ∙ now in
              let at : r.1 ≡ i = ap (λ (q : ℕ × ℕ). q.1) own in
              inr (
                omega (arith, at),
                omega (arith, at, le),
                ap hash at ∙ sym (ap (λ (q : ℕ × ℕ). q.0) own),
              )
          | inr (lo, hi, e) ↦ inr (omega (arith, lo), hi, e)
        ];
      }
  | inr b ↦
      let now : better hash i best ≡ best = rw (better, b) refl in
      let top : r.0 ≤ best.0 = subst (λ (q : ℕ × ℕ). r.0 ≤ q.0) now s.not_above in
      record {
        least = least (omega (arith, top, ltb→le (hash i) best.0 b));
        not_above = top;
        held = elim (s.held) [
          | inl e ↦ inl (e ∙ now)
          | inr (lo, hi, e) ↦ inr (omega (arith, lo), hi, e)
        ];
      }
]
  where
    least : r.0 ≤ hash i → (j : ℕ) → i ≤ j → j ≤ upper → r.0 ≤ hash j
    least top j lo hi = elim (ℕ_discrete i j) [
      | yes e ↦ subst (λ m. r.0 ≤ hash m) e top
      | no ne ↦ s.least j (omega (arith, lo, ne)) hi
    ]

step_lem :
    (hash : ℕ → ℕ) (upper i fuel : ℕ) (best : ℕ × ℕ)
    → i ≤ upper
    → i + 1 < 2 ^ 64
    → min_hash_from hash upper i best (suc fuel)
      ≡ min_hash_from hash upper (i + 1) (better hash i best) fuel
unfolding min_hash_from
step_lem hash upper i fuel best le small = ground arith

min_hash_from-Smallest :
    (hash : ℕ → ℕ) (upper k i : ℕ) (best : ℕ × ℕ)
    → upper + 1 < 2 ^ 64
    → i + k ≡ upper + 1
    → (r : ℕ × ℕ) × (min_hash_from hash upper i best (suc k) ≡ some r)
      × Smallest hash i upper best r
unfolding min_hash_from
min_hash_from-Smallest hash upper zero i best small e = (
  best,
  ground (arith, e),
  record { least = λ j lo hi. absurd (omega (arith, e)); not_above = omega arith; held = inl refl },
)
min_hash_from-Smallest hash upper (suc k) i best small e =
    let (r, ends, s) =
      min_hash_from-Smallest hash upper k (i + 1) (better hash i best) small (omega (arith, e)) in
    let le : i ≤ upper = omega (arith, e) in
    (
      r,
      step_lem hash upper i (suc k) best le (omega (arith, le, small)) ∙ ends,
      better_first hash i upper best r le s,
    )

never_ends :
    (hash : ℕ → ℕ) (fuel i : ℕ) (best : ℕ × ℕ)
    → i < 2 ^ 64
    → min_hash_from hash (2 ^ 64 - 1) i best fuel ≡ none
unfolding min_hash_from
never_ends hash zero i best small = refl
never_ends hash (suc fuel) i best small =
    ground (arith, never_ends hash fuel (uint64 (i + 1)) (better hash i best) (omega arith))

-- What the miner answers to a request.
pub record Answered (hash : String → ℕ → ℕ) (req reply : Message) : Type 0 where
  pub is_result : reply.type ≡ MsgType.result
  pub smallest :
      Smallest (hash req.data_text) req.lower req.upper (2 ^ 64 - 1, 0) (reply.hash, reply.nonce)

-- The miner answers every request whose range is not empty and ends below the largest uint64: after
-- as many rounds of its loop as there are nonces, and one, it sends a result with a hash that none of
-- the range is below, and a nonce of the range that has it, or the largest uint64 and nonce 0.
pub mine-Answered :
    (hash : String → ℕ → ℕ) (req : Message)
    → req.lower ≤ req.upper
    → req.upper + 1 < 2 ^ 64
    → (reply : Message) × (mine hash req (req.upper + 2 - req.lower) ≡ some reply)
      × Answered hash req reply
unfolding mine calculate_min_hash answer new_result
mine-Answered hash req le small =
    let k = req.upper + 1 - req.lower in
    let (r, ends, s) =
      min_hash_from-Smallest (hash req.data_text) req.upper k req.lower (2 ^ 64 - 1, 0) small
        (omega (arith, le)) in
    let fuel : req.upper + 2 - req.lower ≡ suc k = omega (arith, le) in
    (
      new_result r.0 r.1,
      ap (λ n. mine hash req n) fuel ∙ ap answer ends,
      record { is_result = refl; smallest = s },
    )

-- The miner never answers a request whose range ends at the largest uint64.
mine_never_ends :
    (hash : String → ℕ → ℕ) (req : Message)
    → req.lower < 2 ^ 64
    → req.upper ≡ 2 ^ 64 - 1
    → (fuel : ℕ) → mine hash req fuel ≡ none
unfolding mine calculate_min_hash answer
mine_never_ends hash req small top fuel =
    let stuck : calculate_min_hash hash req.data_text req.lower req.upper fuel ≡ none =
      ap (λ u. min_hash_from (hash req.data_text) u req.lower (2 ^ 64 - 1, 0) fuel) top
      ∙ never_ends (hash req.data_text) fuel req.lower (2 ^ 64 - 1, 0) small in
    ap answer stuck
