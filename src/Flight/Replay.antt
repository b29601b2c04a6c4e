-- ===== src/Flight/Replay.antt =====
-- server_impl.go: what a finished call of `addPaxosLogAndUpdateState` has done to the server.
use projects.Common.{
  ℕ, sym, ◌+◌, ◌≡◌, refl, subst, ap, ◌∙◌, ◌≢◌, ◌⊎◌, inl, inr, Bool, true, false, Option, none, some,
  List, [], ◌∷◌, ◌++◌, All, length, Bool-cases, arith,
}
use projects.Paxos.Rpc.{PaxosValue}
use projects.Paxos.Replica.{Paxos, slot_of, status, get_time_slot_value, get_time_slot_lock}
use projects.Paxos.Proposer.{serve_all}
use projects.Paxos.Slots.{enter_lem}
use projects.Flight.Operations.{
  Calendar, Server, reserve_ticket_helper, add_flight_helper, cancel_flight_helper,
  edit_flight_helper,
}
use projects.Flight.Server.{
  RetVal, Turn, Outcome, Next, same_op, apply_op, after_decided, after_start, after_status, turn,
  set_locks, continue, catch_up, add_paxos_log_and_update_state,
}

-- The server after the operations of a log, in order.
unfoldable pub replay : Calendar → Server → List PaxosValue → Server
replay c srv [] = srv
replay c srv (op ∷ ops) = replay c (apply_op c op srv op RetVal.nil).0 ops

same_op→eq : (a b : PaxosValue) → same_op a b ≡ true → a ≡ b
unfolding same_op
same_op→eq a b h = ground arith

same_op_ne : (a b : PaxosValue) → same_op a b ≡ false → b ≢ a
unfolding same_op
same_op_ne a b h e = ground arith

-- Whose operation it is bears on the result alone.
apply_op_state :
    (c : Calendar) (own op : PaxosValue) (srv : Server) (r : RetVal)
    → (apply_op c own srv op r).0 ≡ (apply_op c op srv op RetVal.nil).0
unfolding apply_op
apply_op_state c own op srv r = ground arith

pub apply_op-curr :
    (c : Calendar) (own op : PaxosValue) (srv : Server) (r : RetVal)
    → (apply_op c own srv op r).0.curr_slot_num ≡ srv.curr_slot_num + 1
unfolding apply_op reserve_ticket_helper add_flight_helper cancel_flight_helper edit_flight_helper
apply_op-curr c own op srv r = ground arith

-- The peer has decided the slot with the operation.
abbrev pub Decided : Paxos → ℕ → PaxosValue → Type 0
Decided px s op = ((slot_of px s).is_decided ≡ true) × ((slot_of px s).value ≡ some op)

-- The peer as a turn finds it.
abbrev pub peer_at : Paxos → Turn → Paxos
peer_at px t = set_locks (serve_all px t.served) t.locks

abbrev pub later : (Paxos → Server → RetVal → List Paxos) → Next → List Paxos
later loop (Next.stop o) = []
later loop (Next.again px srv r) = loop px srv r

-- The peer as each turn of a call finds it.
unfoldable pub peers_read : Calendar → PaxosValue → Paxos → Server → RetVal → List Turn → List Paxos
peers_read c own px srv r [] = []
peers_read c own px srv r (t ∷ ts) =
    peer_at px t ∷ later (λ px' srv' r'. peers_read c own px' srv' r' ts) (turn c own px srv r t)

-- The operations were decided in the slots from `s` on, each in one of the peers, in this order.
abbrev pub DecidedIn : List Paxos → ℕ → List PaxosValue → Type 0
DecidedIn pxs s [] = Unit
DecidedIn [] s (op ∷ ops) = ⊥
DecidedIn (px ∷ pxs) s (op ∷ ops) =
    (Decided px s op × DecidedIn pxs (s + 1) ops) ⊎ DecidedIn pxs s (op ∷ ops)

DecidedIn-cons :
    (px : Paxos) (pxs : List Paxos) (s : ℕ) (ops : List PaxosValue)
    → DecidedIn pxs s ops
    → DecidedIn (px ∷ pxs) s ops
DecidedIn-cons px pxs s [] d = tt
DecidedIn-cons px pxs s (op ∷ ops) d = inr d

-- A turn that goes on has left the server alone, or applied an operation that is not the caller's and
-- that the peer has decided in the current slot.
abbrev GoesOn : Calendar → PaxosValue → Paxos → Server → RetVal → Server → RetVal → Type 0
GoesOn c own px srv r srv' r' =
    ((srv' ≡ srv) × (r' ≡ r))
    ⊎ ((op : PaxosValue) × (op ≢ own)
        × Decided px srv.curr_slot_num op
        × ((srv', r') ≡ apply_op c own srv op r))

-- What a turn does that finds the peer `px`.
abbrev Ends : Calendar → PaxosValue → Paxos → Server → RetVal → Next → Type 0
Ends c own px srv r (Next.stop (Outcome.done px' srv' r')) =
    Decided px srv.curr_slot_num own × ((srv', r') ≡ apply_op c own srv own r)
Ends c own px srv r (Next.stop (Outcome.pending px' srv')) = srv' ≡ srv
Ends c own px srv r (Next.stop (Outcome.locked px' srv')) = srv' ≡ srv
Ends c own px srv r (Next.stop (Outcome.broken px' srv')) = srv' ≡ srv
Ends c own px srv r (Next.again px' srv' r') = GoesOn c own px srv r srv' r'

after_decided-Ends :
    (c : Calendar) (own : PaxosValue) (pr px : Paxos) (srv : Server) (r : RetVal)
    (v : Option PaxosValue)
    → (slot_of pr srv.curr_slot_num).is_decided ≡ true
    → (slot_of pr srv.curr_slot_num).value ≡ v
    → Ends c own pr srv r (after_decided c own px srv r v)
unfolding after_decided
after_decided-Ends c own pr px srv r none d e = refl
after_decided-Ends c own pr px srv r (some op) d e = elim (Bool-cases (same_op own op)) [
  | inl same ↦ let eq = same_op→eq own op same in rw same ((d, e ∙ ap some (sym eq)), rw eq refl)
  | inr other ↦ rw other (inr (op, same_op_ne own op other, (d, e), refl))
]

after_start-Ends :
    (c : Calendar) (own : PaxosValue) (pr px : Paxos) (srv : Server) (r : RetVal)
    (s : Option (Paxos × Option (Option PaxosValue)))
    → Ends c own pr srv r (after_start srv r px s)
unfolding after_start
after_start-Ends c own pr px srv r none = refl
after_start-Ends c own pr px srv r (some (px', none)) = refl
after_start-Ends c own pr px srv r (some (px', some v)) = inl (refl, refl)

after_status-Ends :
    (c : Calendar) (own : PaxosValue) (pr px : Paxos) (srv : Server) (r : RetVal) (t : Turn)
    (s : Option (Bool × Option PaxosValue))
    → ((v : Option PaxosValue)
        → s ≡ some (true, v)
        → ((slot_of pr srv.curr_slot_num).is_decided ≡ true)
          × ((slot_of pr srv.curr_slot_num).value ≡ v))
    → Ends c own pr srv r (after_status c own px srv r t s)
unfolding after_status
after_status-Ends c own pr px srv r t none h = refl
after_status-Ends c own pr px srv r t (some (true, v)) h =
    after_decided-Ends c own pr px srv r v (h v refl).0 (h v refl).1
after_status-Ends c own pr px srv r t (some (false, v)) h = after_start-Ends c own pr px srv r _

-- A slot that `Status` reports as decided is decided with the value that it reports.
status_reports :
    (px : Paxos) (s : ℕ) (v : Option PaxosValue)
    → (status px s).1 ≡ some (true, v)
    → ((slot_of px s).is_decided ≡ true) × ((slot_of px s).value ≡ v)
unfolding status
status_reports px s v e = elim (Bool-cases px.is_locked) [
  | inl x ↦ absurd (ground (arith, x, e))
  | inr x ↦
      let slot = (get_time_slot_value (get_time_slot_lock px s) s).1 in
      let found : Bool × Option PaxosValue = (slot.is_decided, slot.value) in
      let reported : Bool × Option PaxosValue = (true, v) in
      let read : some found ≡ some reported = ground (arith, x, e) in
      let same : slot ≡ slot_of px s = (enter_lem px s s).0 in ground (arith, read, same)
]

turn-Ends :
    (c : Calendar) (own : PaxosValue) (px : Paxos) (srv : Server) (r : RetVal) (t : Turn)
    → Ends c own (peer_at px t) srv r (turn c own px srv r t)
unfolding turn
turn-Ends c own px srv r t =
    let pr = peer_at px t in
    after_status-Ends c own pr (status pr srv.curr_slot_num).0 srv r t
      (status pr srv.curr_slot_num).1 (λ v e. status_reports pr srv.curr_slot_num v e)

-- The operations that a finished call applied before its own; `pxs` is the peer as its turns found
-- it.
pub record Replayed (c : Calendar) (own : PaxosValue) (pxs : List Paxos) (srv srv' : Server)
    (r' : RetVal) : Type 0 where
  pub log : List PaxosValue
  pub decided : DecidedIn pxs srv.curr_slot_num (log ++ own ∷ [])
  pub others : All (λ op. op ≢ own) log
  pub state : srv' ≡ replay c srv (log ++ own ∷ [])
  pub slots : srv'.curr_slot_num ≡ srv.curr_slot_num + length log + 1
  pub stale : RetVal
  pub result : r' ≡ (apply_op c own (replay c srv log) own stale).1

Replayed-own :
    (c : Calendar) (own : PaxosValue) (px : Paxos) (pxs : List Paxos) (srv : Server) (r : RetVal)
    {srv' : Server} {r' : RetVal}
    → Decided px srv.curr_slot_num own
    → (srv', r') ≡ apply_op c own srv own r
    → Replayed c own (px ∷ pxs) srv srv' r'
unfolding replay
Replayed-own c own px pxs srv r d e = record {
  log = [];
  decided = inl (d, tt);
  others = tt;
  state = ap (λ p. p.0) e ∙ apply_op_state c own own srv r;
  slots = ap (λ p. p.0.curr_slot_num) e ∙ (omega (arith, apply_op-curr c own own srv r));
  stale = r;
  result = ap (λ p. p.1) e;
}

Replayed-other :
    (c : Calendar) (own op : PaxosValue) (px : Paxos) (pxs : List Paxos) (srv srv₁ : Server)
    (r r₁ : RetVal) {srv' : Server} {r' : RetVal}
    → op ≢ own
    → Decided px srv.curr_slot_num op
    → (srv₁, r₁) ≡ apply_op c own srv op r
    → Replayed c own pxs srv₁ srv' r'
    → Replayed c own (px ∷ pxs) srv srv' r'
unfolding replay
Replayed-other c own op px pxs srv srv₁ r r₁ ne d e rest = record {
  log = op ∷ rest.log;
  decided = inl (d, subst (λ s. DecidedIn pxs s (rest.log ++ own ∷ [])) moved rest.decided);
  others = (ne, rest.others);
  state = rest.state ∙ ap (λ s. replay c s (rest.log ++ own ∷ [])) here;
  slots = omega (arith, moved, rest.slots);
  stale = rest.stale;
  result = rest.result ∙ ap (λ s. (apply_op c own (replay c s rest.log) own rest.stale).1) here;
}
  where
    here : srv₁ ≡ (apply_op c op srv op RetVal.nil).0
    here = ap (λ p. p.0) e ∙ apply_op_state c own op srv r

    moved : srv₁.curr_slot_num ≡ srv.curr_slot_num + 1
    moved = ap (λ p. p.0.curr_slot_num) e ∙ apply_op-curr c own op srv r

Replayed-skip :
    (c : Calendar) (own : PaxosValue) (px : Paxos) (pxs : List Paxos) {srv srv' : Server}
    {r' : RetVal}
    → Replayed c own pxs srv srv' r'
    → Replayed c own (px ∷ pxs) srv srv' r'
Replayed-skip c own px pxs {srv = srv} rest = record {
  log = rest.log;
  decided = DecidedIn-cons px pxs srv.curr_slot_num (rest.log ++ own ∷ []) rest.decided;
  others = rest.others;
  state = rest.state;
  slots = rest.slots;
  stale = rest.stale;
  result = rest.result;
}

module _ (c : Calendar) (own : PaxosValue) (pr : Paxos) (srv : Server) (r : RetVal)
    (loop : Paxos → Server → RetVal → Outcome) (read : Paxos → Server → RetVal → List Paxos)
    (px' : Paxos) (srv' : Server) (r' : RetVal) where
  continue-Replayed :
      (n : Next)
      → Ends c own pr srv r n
      → ((px₁ : Paxos) (srv₁ : Server) (r₁ : RetVal)
          → loop px₁ srv₁ r₁ ≡ Outcome.done px' srv' r'
          → Replayed c own (read px₁ srv₁ r₁) srv₁ srv' r')
      → continue loop n ≡ Outcome.done px' srv' r'
      → Replayed c own (pr ∷ later read n) srv srv' r'
  continue-Replayed (Next.stop (Outcome.pending a b)) ends ih e = cc
  continue-Replayed (Next.stop (Outcome.locked a b)) ends ih e = cc
  continue-Replayed (Next.stop (Outcome.broken a b)) ends ih e = cc
  continue-Replayed (Next.stop (Outcome.done a b d)) (at, ends) ih e =
      Replayed-own c own pr [] srv r at (ground arith)
  continue-Replayed (Next.again px₁ srv₁ r₁) (inl (es, er)) ih e =
      Replayed-skip c own pr (read px₁ srv₁ r₁)
        (subst (λ s. Replayed c own (read px₁ srv₁ r₁) s srv' r') es (ih px₁ srv₁ r₁ e))
  continue-Replayed (Next.again px₁ srv₁ r₁) (inr (op, ne, at, eq)) ih e =
      Replayed-other c own op pr (read px₁ srv₁ r₁) srv srv₁ r r₁ ne at eq (ih px₁ srv₁ r₁ e)

catch_up-Replayed :
    (c : Calendar) (own : PaxosValue) (px : Paxos) (srv : Server) (r : RetVal) (ts : List Turn)
    (px' : Paxos) (srv' : Server) (r' : RetVal)
    → catch_up c own px srv r ts ≡ Outcome.done px' srv' r'
    → Replayed c own (peers_read c own px srv r ts) srv srv' r'
unfolding catch_up peers_read
catch_up-Replayed c own px srv r [] px' srv' r' e = cc
catch_up-Replayed c own px srv r (t ∷ ts) px' srv' r' e =
    continue-Replayed c own (peer_at px t) srv r _ _ px' srv' r' (turn c own px srv r t)
      (turn-Ends c own px srv r t)
      (λ px₁ srv₁ r₁ h. catch_up-Replayed c own px₁ srv₁ r₁ ts px' srv' r' h) e

-- A finished call has applied the operations of a log, none of them its own, and then its own, in
-- order; each of them was decided in the peer, as one of the turns of the call found it, in the slot
-- that follows the one before, from the server's current slot on. The call's result is that of its
-- own operation on the state of that log.
pub add_paxos_log-Replayed :
    (c : Calendar) (own : PaxosValue) (px : Paxos) (srv : Server) (ts : List Turn) (px' : Paxos)
    (srv' : Server) (r' : RetVal)
    → add_paxos_log_and_update_state c own px srv ts ≡ Outcome.done px' srv' r'
    → Replayed c own (peers_read c own px srv RetVal.nil ts) srv srv' r'
unfolding add_paxos_log_and_update_state
add_paxos_log-Replayed c own px srv ts px' srv' r' e =
    catch_up-Replayed c own px srv RetVal.nil ts px' srv' r' e
