-- ===== src/Bitcoin/Counting.antt =====
-- server.go: the server waits for exactly the results that are still to come.
use projects.Common.{
  ℕ, zero, suc, ◌+◌, ◌<◌, ◌≡◌, ◌≢◌, refl, sym, ap, ◌∙◌, subst, inl, inr, false, Option, none, some,
  List, ◌==◌, if◌then◌else◌, lookup, delete, lookup-insert, lookup-delete, ℕ_discrete, Bool-cases,
  Option-cases, pos, dec_ℤ, arith,
}
use projects.Bitcoin.Server.{
  Message, WorkUnit, ClientStatus, Server, with_result, count_result, work_of, freed, push_work,
  handle_failure, is_zero,
}
use projects.Bitcoin.Tables.{
  Distinct, Distinct-insert, Distinct-delete, one, count_queue, count_work, count_work-insert,
  count_work-delete,
}

-- The units for the client that wait or are being worked on.
abbrev pub pending : Server → ℕ → ℕ
pending s c = count_queue c s.job_q + count_work c s.miner_curr_work

-- The server waits for as many results of each client as there are units of it, and for one at least.
pub record Counted (s : Server) : Type 0 where
  pub distinct : Distinct s.miner_curr_work
  pub expects :
      (c : ℕ) (st : ClientStatus)
      → lookup ℕ_discrete c s.clients ≡ some st
      → (st.not_finished_job ≡ pos (pending s c)) × (0 < pending s c)

pub one-same : (c : ℕ) (w : WorkUnit) → one c (some w) ≡ (if w.client_work_for == c then 1 else 0)
unfolding one
one-same c w = refl

pub one-none : (c : ℕ) → one c none ≡ 0
unfolding one
one-none c = refl

-- A miner without work leaves the counts as they are.
pending-freed :
    (s : Server) (conn c : ℕ)
    → pending (freed conn s) c + one c (work_of (lookup ℕ_discrete conn s.miner_curr_work))
      ≡ pending s c
pending-freed s conn c = omega (arith, count_work-insert c conn none s.miner_curr_work, one-none c)

freed-Distinct : (s : Server) (conn : ℕ) → Counted s → Distinct (freed conn s).miner_curr_work
freed-Distinct s conn k = Distinct-insert conn none s.miner_curr_work k.distinct

pub join-Counted :
    (s : Server) (conn : ℕ)
    → work_of (lookup ℕ_discrete conn s.miner_curr_work) ≡ none
    → Counted s
    → Counted (freed conn s)
join-Counted s conn idle k = record {
  distinct = freed-Distinct s conn k;
  expects = λ c st e.
      let same : pending (freed conn s) c ≡ pending s c =
        omega (arith, pending-freed s conn c, ap (one c) idle, one-none c) in
      ((k.expects c st e).0 ∙ ap pos (sym same), omega (arith, (k.expects c st e).1, same));
}

with_result_job :
    (msg : Message) (st : ClientStatus)
    → (with_result msg st).not_finished_job ≡ dec_ℤ st.not_finished_job
unfolding with_result
with_result_job msg st = ground arith

module _ (s : Server) (k : Counted s) (conn : ℕ) (w : WorkUnit) (msg : Message)
    (work : work_of (lookup ℕ_discrete conn s.miner_curr_work) ≡ some w) where
  abbrev client : ℕ
  client = w.client_work_for

  less : (c : ℕ) → pending (freed conn s) c + (if client == c then 1 else 0) ≡ pending s c
  less c = omega (arith, pending-freed s conn c, ap (one c) work, one-same c w)

  -- Another client's count stays.
  other :
      (c : ℕ) (st : ClientStatus)
      → client ≢ c
      → lookup ℕ_discrete c s.clients ≡ some st
      → (st.not_finished_job ≡ pos (pending (freed conn s) c)) × (0 < pending (freed conn s) c)
  other c st ne e =
      let same : pending (freed conn s) c ≡ pending s c = ground (arith, less c) in
      ((k.expects c st e).0 ∙ ap pos (sym same), omega (arith, (k.expects c st e).1, same))

  dec_pos : (n m : ℕ) → m + 1 ≡ n → dec_ℤ (pos n) ≡ pos m
  dec_pos zero m e = absurd (omega arith)
  dec_pos (suc n) m e = ap pos (omega arith)

  own :
      (st : ClientStatus)
      → lookup ℕ_discrete client s.clients ≡ some st
      → (with_result msg st).not_finished_job ≡ pos (pending (freed conn s) client)
  own st e =
      with_result_job msg st
      ∙ ap dec_ℤ (k.expects client st e).0
      ∙ dec_pos (pending s client) (pending (freed conn s) client) (ground (arith, less client))

  nonzero : (m : ℕ) → is_zero (pos m) ≡ false → 0 < m
  nonzero zero e = absurd cc
  nonzero (suc m) e = omega arith

  pub result-Counted :
      (o : Option ClientStatus)
      → lookup ℕ_discrete client s.clients ≡ o
      → Counted (count_result (freed conn s) client msg o).0
  unfolding count_result
  result-Counted none e = record {
    distinct = freed-Distinct s conn k;
    expects = λ c st f.
        other c st (λ same. ground (arith, ap (λ i. lookup ℕ_discrete i s.clients) same, e, f)) f;
  }
  result-Counted (some st) e = elim (Bool-cases (is_zero (with_result msg st).not_finished_job)) [
    | inl z ↦ rw z (record {
      distinct = freed-Distinct s conn k;
      expects = λ c st' f. elim (ℕ_discrete client c) [
        | yes same ↦ absurd (ground (arith, f, lookup-delete ℕ_discrete client c s.clients))
        | no ne ↦ other c st' ne (ground (arith, f, lookup-delete ℕ_discrete client c s.clients))
      ];
    })
    | inr z ↦ rw z (record {
      distinct = freed-Distinct s conn k;
      expects = λ c st' f. elim (ℕ_discrete client c) [
        | yes same ↦
            let mine : with_result msg st ≡ st' =
              ground (arith, f, lookup-insert ℕ_discrete client c (with_result msg st) s.clients) in
            subst
              (λ i.
                (st'.not_finished_job ≡ pos (pending (freed conn s) i))
                × (0 < pending (freed conn s) i))
              same
              (
                ap (λ t. t.not_finished_job) (sym mine) ∙ own st e,
                nonzero (pending (freed conn s) client) (sym (ap is_zero (own st e)) ∙ z),
              )
        | no ne ↦
            other c st' ne
              (ground (arith, f, lookup-insert ℕ_discrete client c (with_result msg st) s.clients))
      ];
    })
  ]

push_lem :
    (c : ℕ) (w : Option WorkUnit) (q : List WorkUnit)
    → count_queue c (push_work w q) ≡ one c w + count_queue c q
unfolding count_queue
push_lem c none q = omega (arith, one-none c)
push_lem c (some w) q = refl

pub failure-Counted : (s : Server) (conn : ℕ) → Counted s → Counted (handle_failure conn s)
unfolding handle_failure
failure-Counted s conn k = elim (Option-cases (lookup ℕ_discrete conn s.miner_curr_work)) [
  | inr (w, e) ↦
      rw (handle_failure, e)
        (record {
          distinct = Distinct-delete conn s.miner_curr_work k.distinct;
          expects = λ c st f.
              let same : count_queue c (push_work w s.job_q)
                    + count_work c (delete ℕ_discrete conn s.miner_curr_work)
                  ≡ pending s c =
                omega (
                  arith,
                  push_lem c w s.job_q,
                  count_work-delete c conn s.miner_curr_work k.distinct,
                  ap (λ o. one c (work_of o)) e,
                ) in
              ((k.expects c st f).0 ∙ ap pos (sym same), omega (arith, (k.expects c st f).1, same));
        })
  | inl e ↦
      rw (handle_failure, e)
        (record {
          distinct = k.distinct;
          expects = λ c st f.
              k.expects c st (ground (arith, f, lookup-delete ℕ_discrete conn c s.clients));
        })
]
