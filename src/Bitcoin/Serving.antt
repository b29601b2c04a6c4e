-- ===== src/Bitcoin/Serving.antt =====
-- server.go: every event leaves the server with the right counts of the results still to come.
use projects.Common.{
  ℕ, ◌+◌, ◌^◌, ◌≤◌, ◌<◌, ◌≡◌, refl, sym, ap, ◌∙◌, subst, inl, inr, Option, none, some, List, [],
  ◌∷◌, ◌++◌, ◌==◌, if◌then◌else◌, length, All, lookup, ℕ_discrete, Option-cases, pos, arith,
}
use projects.Bitcoin.Server.{
  MsgType, Message, WorkUnit, ClientStatus, Server, Output, new_client_status, count_result,
  work_of, freed, update_result, ask, by_type, handle_income_message, partition_job, handle_failure,
  Event, handle, span, parts, miner_workload_threshold,
}
use projects.Bitcoin.Partition.{Tiles, partition_job-Partitions}
use projects.Bitcoin.Tables.{Distinct, count_queue, count_work, count_queue-append, count_queue-all}
use projects.Bitcoin.Counting.{pending, Counted, join-Counted, result-Counted, failure-Counted}

-- What is asked of a request of a client that is not served yet.
pub record Acceptable (s : Server) (conn : ℕ) (msg : Message) : Type 0 where
  pub ordered : msg.lower ≤ msg.upper
  pub bounded : msg.upper < 2 ^ 64
  pub few_miners :
      miner_workload_threshold < span msg.lower msg.upper → parts s ≤ span msg.lower msg.upper
  pub no_units : pending s conn ≡ 0

Tiles-nonempty :
    (lower upper : ℕ) (q : List WorkUnit) → lower ≤ upper → Tiles lower upper q → 0 < length q
Tiles-nonempty lower upper [] le t = absurd (omega arith)
Tiles-nonempty lower upper (w ∷ q) le t = omega arith

partition-Counted :
    (s : Server) (conn : ℕ) (msg : Message)
    → Acceptable s conn msg
    → Counted s
    → Counted (partition_job conn msg s)
unfolding new_client_status
partition-Counted s conn msg a k =
    let p = partition_job-Partitions conn msg s a.ordered a.bounded a.few_miners in
    record {
      distinct = subst Distinct (sym p.miners) k.distinct;
      expects = λ c st f. elim (ℕ_discrete conn c) [
        | yes e ↦
            let made : new_client_status (length p.units) ≡ st = ground (
              arith,
              f,
              p.expected,
              ap (λ i. lookup ℕ_discrete i (partition_job conn msg s).clients) e,
            ) in
            let count : pending (partition_job conn msg s) c ≡ length p.units = ground (
              arith,
              pending_after p.units c p.queued p.for_client p.miners,
              ap (pending s) e,
              a.no_units,
            ) in
            (
              ap (λ t. t.not_finished_job) (sym made) ∙ ap pos (sym count),
              omega (arith, count, Tiles-nonempty msg.lower msg.upper p.units a.ordered p.tiles),
            )
        | no ne ↦
            let same : pending (partition_job conn msg s) c ≡ pending s c =
              ground (arith, pending_after p.units c p.queued p.for_client p.miners) in
            let (job, more) = k.expects c st (sym (p.others c ne) ∙ f) in
            (job ∙ ap pos (sym same), omega (arith, more, same))
      ];
    }
  where
    pending_after :
        (units : List WorkUnit) (c : ℕ)
        → (partition_job conn msg s).job_q ≡ s.job_q ++ units
        → All (λ w. w.client_work_for ≡ conn) units
        → (partition_job conn msg s).miner_curr_work ≡ s.miner_curr_work
        → pending (partition_job conn msg s) c
          ≡ pending s c + (if conn == c then length units else 0)
    pending_after units c q mine m = omega (
      arith,
      ap (count_queue c) q,
      count_queue-append c s.job_q units,
      count_queue-all c conn units mine,
      ap (count_work c) m,
    )

ask-Counted :
    (s : Server) (conn : ℕ) (msg : Message) (o : Option ClientStatus)
    → lookup ℕ_discrete conn s.clients ≡ o
    → (o ≡ none → Acceptable s conn msg)
    → Counted s
    → Counted (ask conn msg s o)
unfolding ask
ask-Counted s conn msg none e a k = partition-Counted s conn msg (a refl) k
ask-Counted s conn msg (some st) e a k = k

-- What an event must be for the counts to stay right: a miner that joins has no work, and a request
-- of a new client is acceptable.
unfoldable pub FitsMessage : Server → ℕ → Message → MsgType → Type 0
FitsMessage s conn msg MsgType.join = work_of (lookup ℕ_discrete conn s.miner_curr_work) ≡ none
FitsMessage s conn msg MsgType.request =
    lookup ℕ_discrete conn s.clients ≡ none → Acceptable s conn msg
FitsMessage s conn msg MsgType.result = Unit

unfoldable pub Fits : Server → Event → Type 0
unfolding FitsMessage
Fits s (Event.failure conn) = Unit
Fits s (Event.message conn none) = Unit
Fits s (Event.message conn (some msg)) = FitsMessage s conn msg msg.type

update-Counted :
    (s : Server) (conn : ℕ) (msg : Message) (r : Server × List Output)
    → Counted s
    → update_result conn msg s ≡ some r
    → Counted r.0
unfolding update_result
update-Counted s conn msg r k e =
    elim (Option-cases (work_of (lookup ℕ_discrete conn s.miner_curr_work))) [
      | inl x ↦ absurd (panics x)
      | inr (w, x) ↦
          let o = lookup ℕ_discrete w.client_work_for s.clients in
          let done : some (count_result (freed conn s) w.client_work_for msg o) ≡ some r =
            sym (counts w x) ∙ e in
          let same : count_result (freed conn s) w.client_work_for msg o ≡ r = cc in
          subst (λ (r : Server × List Output). Counted r.0) same
            (result-Counted s k conn w msg x o refl)
    ]
  where
    counts :
        (w : WorkUnit)
        → work_of (lookup ℕ_discrete conn s.miner_curr_work) ≡ some w
        → update_result conn msg s
          ≡ some (
              count_result
                (freed conn s)
                w.client_work_for
                msg
                (lookup ℕ_discrete w.client_work_for s.clients))
    counts w x = rw (update_result, x) refl

    panics : work_of (lookup ℕ_discrete conn s.miner_curr_work) ≡ none → ⊥
    panics x = let stops : update_result conn msg s ≡ none = rw (update_result, x) refl in cc

by_type-Counted :
    (s : Server) (conn : ℕ) (msg : Message) (t : MsgType) (r : Server × List Output)
    → Counted s
    → FitsMessage s conn msg t
    → by_type conn msg s t ≡ some r
    → Counted r.0
unfolding by_type FitsMessage
by_type-Counted s conn msg MsgType.join r k f e =
    let same : (freed conn s, []) ≡ r = cc in
    subst (λ (r : Server × List Output). Counted r.0) same (join-Counted s conn f k)
by_type-Counted s conn msg MsgType.request r k f e =
    let same : (ask conn msg s (lookup ℕ_discrete conn s.clients), []) ≡ r = cc in
    subst (λ (r : Server × List Output). Counted r.0) same
      (ask-Counted s conn msg (lookup ℕ_discrete conn s.clients) refl f k)
by_type-Counted s conn msg MsgType.result r k f e = update-Counted s conn msg r k e

-- Every event keeps the server's counts right: of each client it serves it waits for exactly as many
-- results as there are units of the client in the queue and with miners, and for one at least. For
-- miners that join without work, requests whose clients left no units, with an ordered range of
-- uint64 values and, if it is longer than the threshold, not more miners than values, and results that
-- do not make the server panic.
pub handle-Counted :
    (s : Server) (ev : Event) (r : Server × List Output)
    → Counted s
    → Fits s ev
    → handle ev s ≡ some r
    → Counted r.0
unfolding handle handle_income_message Fits
handle-Counted s (Event.failure conn) r k f e =
    let same : (handle_failure conn s, []) ≡ r = cc in
    subst (λ (r : Server × List Output). Counted r.0) same (failure-Counted s conn k)
handle-Counted s (Event.message conn none) r k f e =
    let same : (s, []) ≡ r = cc in subst (λ (r : Server × List Output). Counted r.0) same k
handle-Counted s (Event.message conn (some msg)) r k f e =
    by_type-Counted s conn msg msg.type r k f e
