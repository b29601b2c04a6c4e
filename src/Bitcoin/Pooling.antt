-- ===== src/Bitcoin/Pooling.antt =====
-- server.go with miner.go: the results of a request's units, pooled, are the result of its range.
use projects.Common.{
  ℕ, ◌+◌, ◌-◌, ◌^◌, ◌≤◌, ◌<◌, ◌≡◌, ◌⊎◌, inl, inr, refl, sym, ap, ◌∙◌, List, [], ◌∷◌, All, Any, ltb,
  ltb→lt, ltb→le, Bool-cases, dec_le, arith,
}
use projects.Bitcoin.Server.{Message, WorkUnit, ClientStatus, new_client_status, with_result}
use projects.Bitcoin.Partition.{Tiles}
use projects.Bitcoin.Mining.{Smallest}

-- The status of a client after the results in a list.
unfoldable pub pool : List Message → ClientStatus → ClientStatus
pool [] st = st
pool (m ∷ rs) st = pool rs (with_result m st)

abbrev pub found : ClientStatus → ℕ × ℕ
found st = (st.min_hash, st.nonce)

abbrev pub sent : Message → ℕ × ℕ
sent m = (m.hash, m.nonce)

record Best (rs : List Message) (st r : ClientStatus) : Type 0 where
  not_above : r.min_hash ≤ st.min_hash
  below_all : All (λ m. r.min_hash ≤ m.hash) rs
  held : (found r ≡ found st) ⊎ Any (λ m. found r ≡ sent m) rs

with_result_lem :
    (m : Message) (st : ClientStatus)
    → ((m.hash < st.min_hash) × (found (with_result m st) ≡ sent m))
      ⊎ ((st.min_hash ≤ m.hash) × (found (with_result m st) ≡ found st))
unfolding with_result
with_result_lem m st = elim (Bool-cases (ltb m.hash st.min_hash)) [
  | inl b ↦ inl (ltb→lt m.hash st.min_hash b, rw b refl)
  | inr b ↦ inr (ltb→le m.hash st.min_hash b, rw b refl)
]

pool-Best : (rs : List Message) (st : ClientStatus) → Best rs st (pool rs st)
unfolding pool
pool-Best [] st = record { not_above = omega arith; below_all = tt; held = inl refl }
pool-Best (m ∷ rs) st =
    let b = pool-Best rs (with_result m st) in
    elim (with_result_lem m st) [
      | inl (lt, e) ↦
          let h : (with_result m st).min_hash ≡ m.hash = ap (λ (q : ℕ × ℕ). q.0) e in
          record {
            not_above = omega (arith, b.not_above, h, lt);
            below_all = (omega (arith, b.not_above, h), b.below_all);
            held = elim (b.held) [ inl f ↦ inr (inl (f ∙ e)) | inr f ↦ inr (inr f) ];
          }
      | inr (le, e) ↦
          let h : (with_result m st).min_hash ≡ st.min_hash = ap (λ (q : ℕ × ℕ). q.0) e in
          record {
            not_above = omega (arith, b.not_above, h);
            below_all = (omega (arith, b.not_above, h, le), b.below_all);
            held = elim (b.held) [ inl f ↦ inl (f ∙ e) | inr f ↦ inr (inr f) ];
          }
    ]

-- Every nonce of a tiled range is in a tile, and every tile lies in the range.
tile_of :
    (lower upper : ℕ) (q : List WorkUnit) (i : ℕ)
    → Tiles lower upper q
    → lower ≤ i
    → i ≤ upper
    → Any (λ w. (w.work_msg.lower ≤ i) × (i ≤ w.work_msg.upper)) q
tile_of lower upper [] i t lo hi = absurd (omega arith)
tile_of lower upper (w ∷ q) i (start, le, end, rest) lo hi = elim (dec_le i w.work_msg.upper) [
  | yes ends ↦ inl (omega (arith, start, lo), ends)
  | no out ↦ inr (tile_of (w.work_msg.upper + 1) upper q i rest (omega (arith, out)) hi)
]

tile_inside :
    (least lower upper : ℕ) (q : List WorkUnit)
    → Tiles lower upper q
    → least ≤ lower
    → All (λ w. (least ≤ w.work_msg.lower) × (w.work_msg.upper ≤ upper)) q
tile_inside least lower upper [] t le = tt
tile_inside least lower upper (w ∷ q) (start, mid, end, rest) le = (
  (omega (arith, start, le), end),
  tile_inside least (w.work_msg.upper + 1) upper q rest (omega (arith, start, le, mid)),
)

meet : {A : Type 0} {P Q : A → Type 0} (xs : List A) → All P xs → Any Q xs → (x : A) × P x × Q x
meet [] p a = elim a [ ]
meet (x ∷ xs) (p, ps) (inl q) = (x, p, q)
meet (x ∷ xs) (p, ps) (inr q) = meet xs ps q

-- The message is the right result of the unit.
abbrev pub Solves : (ℕ → ℕ) → WorkUnit → Message → Type 0
Solves hash w m = Smallest hash w.work_msg.lower w.work_msg.upper (2 ^ 64 - 1, 0) (sent m)

-- The results of units that cover a range exactly, pooled in any order and however often each arrives,
-- give what one miner would find in the whole range: a hash that none of the range is below and a
-- nonce of the range that has it, or the largest uint64 and nonce 0. For results such that each is the
-- right one of a unit and each unit has one.
pub pool-Smallest :
    (hash : ℕ → ℕ) (lower upper n : ℕ) (q : List WorkUnit) (rs : List Message)
    → Tiles lower upper q
    → All (λ w. Any (Solves hash w) rs) q
    → All (λ m. Any (λ w. Solves hash w m) q) rs
    → Smallest hash lower upper (2 ^ 64 - 1, 0) (found (pool rs (new_client_status n)))
unfolding new_client_status
pool-Smallest hash lower upper n q rs t solved right =
    let b = pool-Best rs (new_client_status n) in
    record {
      least = λ i lo hi.
          let (w, some_result, inside) = meet q solved (tile_of lower upper q i t lo hi) in
          let (m, below, s) = meet rs (b.below_all) some_result in
          omega (arith, below, s.least i inside.0 inside.1);
      not_above = b.not_above;
      held = elim (b.held) [
        | inl e ↦ inl e
        | inr a ↦
            let (m, of_unit, e) = meet rs right a in
            let (w, bounds, s) = meet q (tile_inside lower lower upper q t (omega arith)) of_unit in
            elim (s.held) [
              | inl f ↦ inl (e ∙ f)
              | inr (low, high, f) ↦
                  let nonce : (pool rs (new_client_status n)).nonce ≡ m.nonce =
                    ap (λ (q : ℕ × ℕ). q.1) e in
                  inr (
                    omega (arith, nonce, low, bounds.0),
                    omega (arith, nonce, high, bounds.1),
                    ap hash nonce ∙ f ∙ sym (ap (λ (q : ℕ × ℕ). q.0) e),
                  )
            ]
      ];
    }
