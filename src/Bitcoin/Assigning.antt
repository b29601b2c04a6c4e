-- ===== src/Bitcoin/Assigning.antt =====
-- server.go: giving work to free miners.
use projects.Common.{
  ℕ, ◌+◌, ◌≡◌, ◌≢◌, refl, sym, ap, ◌∙◌, subst, inl, inr, Bool, true, false, Option, none, some,
  List, [], ◌∷◌, ◌++◌, lookup, insert, lookup-insert, ℕ_discrete, Bool-cases, Option-cases, pos,
  arith,
}
use projects.Bitcoin.Server.{
  WorkUnit, ClientStatus, Server, Output, work_of, is_active, drop_lost, assign_front, assign_jobs,
  assign_jobs_to_unoccupied_miner, Event, handle, turn,
}
use projects.Bitcoin.Tables.{
  Work, Distinct, Distinct-insert, one, count_queue, count_work, count_work-insert,
}
use projects.Bitcoin.Counting.{pending, Counted, one-none}
use projects.Bitcoin.Serving.{Fits, handle-Counted}

active_lem :
    (s : Server) (c : ℕ) (st : ClientStatus)
    → lookup ℕ_discrete c s.clients ≡ some st
    → is_active s c ≡ true
active_lem s c st e = rw (is_active, e) refl

-- Units of lost clients are no loss to the others.
drop_lost_lem :
    (s : Server) (c : ℕ) (st : ClientStatus) (q : List WorkUnit)
    → lookup ℕ_discrete c s.clients ≡ some st
    → count_queue c (drop_lost s q) ≡ count_queue c q
unfolding drop_lost count_queue one
drop_lost_lem s c st [] e = refl
drop_lost_lem s c st (w ∷ q) e = elim (Bool-cases (is_active s w.client_work_for)) [
  | inl a ↦ rw a refl
  | inr a ↦
      let lost : w.client_work_for ≢ c = λ same.
        let here : is_active s w.client_work_for ≡ true =
          ap (is_active s) same ∙ active_lem s c st e in
        let clash : true ≡ false = sym here ∙ a in cc in
      rw a (ground (arith, drop_lost_lem s c st q e, lost))
]

-- The miners have no work.
abbrev pub AllIdle : List (ℕ × Bool) → Work → Type 0
AllIdle [] m = Unit
AllIdle ((i, b) ∷ l) m = (work_of (lookup ℕ_discrete i m) ≡ none) × AllIdle l m

AllIdle-insert :
    (l : List (ℕ × Bool)) (m : Work) (i : ℕ) (w : Option WorkUnit)
    → lookup ℕ_discrete i l ≡ none
    → AllIdle l m
    → AllIdle l (insert ℕ_discrete i w m)
unfolding lookup
AllIdle-insert [] m i w e a = tt
AllIdle-insert ((j, b) ∷ l) m i w e a = (
  ground (arith, e, a.0, lookup-insert ℕ_discrete i j w m),
  AllIdle-insert l m i w (ground (arith, e)) a.1,
)

-- What one miner's turn leaves.
record Fronted (miner : ℕ) (s : Server) (q : List WorkUnit) (s' : Server) : Type 0 where
  clients : s'.clients ≡ s.clients
  count : (c : ℕ) → pending s' c ≡ count_queue c q + count_work c s.miner_curr_work
  distinct : Distinct s.miner_curr_work → Distinct s'.miner_curr_work
  idle :
      (l : List (ℕ × Bool))
      → lookup ℕ_discrete miner l ≡ none
      → AllIdle l s.miner_curr_work
      → AllIdle l s'.miner_curr_work

assign_front-Fronted :
    (writes : Bool) (miner : ℕ) (s : Server) (q : List WorkUnit)
    → work_of (lookup ℕ_discrete miner s.miner_curr_work) ≡ none
    → Fronted miner s q (assign_front writes miner s q).0
unfolding assign_front count_queue
assign_front-Fronted writes miner s [] e = record {
  clients = refl;
  count = λ c. refl;
  distinct = λ d. d;
  idle = λ l x a. a;
}
assign_front-Fronted false miner s (w ∷ q) e = record {
  clients = refl;
  count = λ c. refl;
  distinct = λ d. d;
  idle = λ l x a. a;
}
assign_front-Fronted true miner s (w ∷ q) e = record {
  clients = refl;
  count = λ c.
      omega (arith, count_work-insert c miner (some w) s.miner_curr_work, ap (one c) e, one-none c);
  distinct = λ d. Distinct-insert miner (some w) s.miner_curr_work d;
  idle = λ l x a. AllIdle-insert l s.miner_curr_work miner (some w) x a;
}

front-Counted :
    (writes : Bool) (miner : ℕ) (s : Server)
    → work_of (lookup ℕ_discrete miner s.miner_curr_work) ≡ none
    → Counted s
    → Counted (assign_front writes miner s (drop_lost s s.job_q)).0
front-Counted writes miner s e k =
    let f = assign_front-Fronted writes miner s (drop_lost s s.job_q) e in
    record {
      distinct = f.distinct k.distinct;
      expects = λ c st x.
          let here : lookup ℕ_discrete c s.clients ≡ some st =
            sym (ap (lookup ℕ_discrete c) f.clients) ∙ x in
          let same : pending (assign_front writes miner s (drop_lost s s.job_q)).0 c ≡ pending s c =
            omega (arith, f.count c, drop_lost_lem s c st s.job_q here) in
          (
            (k.expects c st here).0 ∙ ap pos (sym same),
            omega (arith, (k.expects c st here).1, same),
          );
    }

assign_jobs-Counted :
    (writes : ℕ → Bool) (l : List (ℕ × Bool)) (s : Server)
    → Distinct l
    → AllIdle l s.miner_curr_work
    → Counted s
    → Counted (assign_jobs writes l s).0
unfolding assign_jobs
assign_jobs-Counted writes [] s d a k = k
assign_jobs-Counted writes ((miner, b) ∷ l) s d a k =
    let f = assign_front-Fronted (writes miner) miner s (drop_lost s s.job_q) a.0 in
    assign_jobs-Counted writes l _ d.1 (f.idle l d.0 a.1)
      (front-Counted (writes miner) miner s a.0 k)

-- A turn of the server's loop keeps the counts right: after free miners have got work, whichever
-- writes succeed, and an event has been served, the server waits for exactly as many results of each
-- client it serves as there are units of the client in the queue and with miners, and for one at
-- least. For free miners that are listed once and have no work, and an event that fits the server
-- that it finds.
pub turn-Counted :
    (writes : ℕ → Bool) (ev : Event) (s : Server) (r : Server × List Output)
    → Distinct s.un_occupied_miner
    → AllIdle s.un_occupied_miner s.miner_curr_work
    → Counted s
    → Fits (assign_jobs_to_unoccupied_miner writes s).0 ev
    → turn writes ev s ≡ some r
    → Counted r.0
unfolding turn assign_jobs_to_unoccupied_miner
turn-Counted writes ev s r d a k f e =
    let s' = (assign_jobs writes s.un_occupied_miner s).0 in
    let out = (assign_jobs writes s.un_occupied_miner s).1 in
    elim (Option-cases (handle ev s')) [
      | inl x ↦ absurd (stops x)
      | inr (r', x) ↦
          let same : some (r'.0, out ++ r'.1) ≡ some r = sym (goes r' x) ∙ e in
          let end : (r'.0, out ++ r'.1) ≡ r = cc in
          subst (λ (r : Server × List Output). Counted r.0) end
            (handle-Counted s' ev r' (assign_jobs-Counted writes s.un_occupied_miner s d a k) f x)
    ]
  where
    goes :
        (r' : Server × List Output)
        → handle ev (assign_jobs writes s.un_occupied_miner s).0 ≡ some r'
        → turn writes ev s ≡ some (r'.0, (assign_jobs writes s.un_occupied_miner s).1 ++ r'.1)
    goes r' x = rw (turn, x) refl

    stops : handle ev (assign_jobs writes s.un_occupied_miner s).0 ≡ none → ⊥
    stops x = let none_left : turn writes ev s ≡ none = rw (turn, x) refl in cc
