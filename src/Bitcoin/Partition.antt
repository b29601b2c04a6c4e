-- ===== src/Bitcoin/Partition.antt =====
-- server.go: the units of a request.
use native.Mathlib.Nat.{mod-eq_of_lt, div-add-mod', mod-lt}
use projects.Common.{
  ℕ, zero, suc, ◌+◌, ◌-◌, ◌*◌, ◌/◌, ◌%◌, ◌^◌, ◌≤◌, ◌<◌, ◌≡◌, refl, sym, ◌≢◌, ap, subst, ◌∙◌, String,
  some, List, [], ◌∷◌, ◌++◌, ◌==◌, leb, if◌then◌else◌, length, All, lookup, lookup-insert,
  ℕ_discrete, Bool-cases, dec_lt, inl, inr, arith,
}
use projects.Bitcoin.Server.{
  Message, WorkUnit, Server, new_request, new_client_status, uint64, span, miner_workload_threshold,
  units_from, parts, partition_job,
}

-- The units' ranges follow one another from `lower` to `upper`, and none is empty.
abbrev pub Tiles : ℕ → ℕ → List WorkUnit → Type 0
Tiles lower upper [] = lower ≡ upper + 1
Tiles lower upper (w ∷ q) =
    (w.work_msg.lower ≡ lower)
    × (lower ≤ w.work_msg.upper)
    × (w.work_msg.upper ≤ upper)
    × Tiles (w.work_msg.upper + 1) upper q

unit_lower : (c : ℕ) → c < 2 ^ 64 → uint64 c ≡ c
unit_lower c lt = mod-eq_of_lt lt

unit_upper : (c d : ℕ) → 0 < d → c + d ≤ 2 ^ 64 → uint64 (c + d + (2 ^ 64 - 1)) ≡ c + d - 1
unit_upper c d pos le = omega arith

units_from-Tiles :
    (conn : ℕ) (text : String) (lower upper d i k c : ℕ)
    → upper < 2 ^ 64
    → 0 < d
    → lower + i * d ≡ c
    → c + suc k * d ≤ upper + 1
    → Tiles c upper (units_from conn text lower upper d i (suc k))
      × All (λ w. w.client_work_for ≡ conn) (units_from conn text lower upper d i (suc k))
      × (length (units_from conn text lower upper d i (suc k)) ≡ suc k)
unfolding units_from new_request
units_from-Tiles conn text lower upper d i zero c lt pos e le = ground (arith, unit_lower c)
units_from-Tiles conn text lower upper d i (suc k) c lt pos e le =
    let next =
      units_from-Tiles conn text lower upper d (i + 1) k (c + d) lt pos (omega (arith, e))
        (omega (arith, le)) in
    let low : uint64 (lower + i * d) ≡ c = ap uint64 e ∙ unit_lower c (omega (arith, le)) in
    let ends : (if suc k == 0 then upper else uint64 (uint64 (lower + i * d) + d + (2 ^ 64 - 1)))
        ≡ c + d - 1 =
      (let at : uint64 (uint64 (lower + i * d) + d + (2 ^ 64 - 1)) ≡ c + d - 1 =
          ap (λ x. uint64 (x + d + (2 ^ 64 - 1))) low ∙ unit_upper c d pos (omega (arith, le)) in
        ground (arith, at)) in
    (
      (
        low,
        omega (arith, ends),
        omega (arith, ends, le),
        subst (λ x. Tiles x upper (units_from conn text lower upper d (i + 1) (suc k)))
            (omega (arith, ends)) next.0,
      ),
      (refl, next.1),
      ap suc next.2,
    )

-- What a request adds to the queue, and what the server notes of its client.
pub record Partitions (conn : ℕ) (msg : Message) (s s' : Server) : Type 0 where
  pub units : List WorkUnit
  pub queued : s'.job_q ≡ s.job_q ++ units
  pub tiles : Tiles msg.lower msg.upper units
  pub for_client : All (λ w. w.client_work_for ≡ conn) units
  pub expected : lookup ℕ_discrete conn s'.clients ≡ some (new_client_status (length units))
  pub others : (j : ℕ) → conn ≢ j → lookup ℕ_discrete j s'.clients ≡ lookup ℕ_discrete j s.clients
  pub miners : s'.miner_curr_work ≡ s.miner_curr_work

parts-pos : (s : Server) → 0 < parts s
unfolding parts
parts-pos s = ground arith

interval_lem : (size n : ℕ) → 0 < n → n ≤ size → (0 < size / n) × (n * (size / n) ≤ size)
interval_lem size n pos le =
    let whole = div-add-mod' size n in
    let less = mod-lt size {m = n} in
    (
      elim (dec_lt 0 (size / n)) [
        | yes lt ↦ lt
        | no ge ↦
            let none : size / n ≡ 0 = omega arith in
            let all : 0 * n + size % n ≡ size = ap (λ q. q * n + size % n) (sym none) ∙ whole in
            absurd (omega (arith, all, less pos, le))
      ],
      omega (arith, whole),
    )

span_le : (lower upper : ℕ) → lower ≤ upper → upper < 2 ^ 64 → lower + span lower upper ≤ upper + 1
span_le lower upper le lt = omega arith

units-Tiles :
    (conn : ℕ) (text : String) (lower upper d n : ℕ)
    → upper < 2 ^ 64
    → 0 < d
    → 0 < n
    → lower + n * d ≤ upper + 1
    → Tiles lower upper (units_from conn text lower upper d 0 n)
      × All (λ w. w.client_work_for ≡ conn) (units_from conn text lower upper d 0 n)
      × (length (units_from conn text lower upper d 0 n) ≡ n)
units-Tiles conn text lower upper d zero lt pos more le = absurd (omega arith)
units-Tiles conn text lower upper d (suc k) lt pos more le =
    units_from-Tiles conn text lower upper d 0 k lower lt pos (omega arith) le

-- The units of a request cover its range exactly, in order, each for this client, and the server
-- expects as many results. For a range of uint64 values and not more miners than values in a range
-- that is longer than the threshold.
pub partition_job-Partitions :
    (conn : ℕ) (msg : Message) (s : Server)
    → msg.lower ≤ msg.upper
    → msg.upper < 2 ^ 64
    → (miner_workload_threshold < span msg.lower msg.upper → parts s ≤ span msg.lower msg.upper)
    → Partitions conn msg s (partition_job conn msg s)
unfolding new_request partition_job
partition_job-Partitions conn msg s le lt few =
    elim (Bool-cases (leb (span msg.lower msg.upper) miner_workload_threshold)) [
      | inl e ↦
          rw (partition_job, e)
            (record {
              units =
                  record {
                    client_work_for = conn;
                    work_msg = new_request msg.data_text msg.lower msg.upper;
                  }
                  ∷ [];
              queued = refl;
              tiles = (refl, le, (omega arith), refl);
              for_client = (refl, tt);
              expected =
                  ground
                    (arith, lookup-insert ℕ_discrete conn conn (new_client_status 1) s.clients);
              others = λ j ne.
                  ground (arith, lookup-insert ℕ_discrete conn j (new_client_status 1) s.clients);
              miners = refl;
            })
      | inr e ↦
          let n = parts s in
          let size = span msg.lower msg.upper in
          let (pos, fits) = interval_lem size n (parts-pos s) (few (ground (arith, e))) in
          let (tiles, mine, count) =
            units-Tiles conn msg.data_text msg.lower msg.upper (size / n) n lt pos (parts-pos s)
              (omega (arith, fits, span_le msg.lower msg.upper le lt)) in
          rw (partition_job, e)
            (record {
              units = units_from conn msg.data_text msg.lower msg.upper (size / n) 0 n;
              queued = refl;
              tiles = tiles;
              for_client = mine;
              expected = ground (
                arith,
                lookup-insert ℕ_discrete conn conn (new_client_status n) s.clients,
                ap (λ m. some (new_client_status m)) count,
              );
              others = λ j ne.
                  ground (arith, lookup-insert ℕ_discrete conn j (new_client_status n) s.clients);
              miners = refl;
            })
    ]
