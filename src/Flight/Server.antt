-- ===== src/Flight/Server.antt =====
-- p3/src/github.com/cmu440/flight_reservation/server/server_impl.go: the loop that catches up with
-- the log of the Paxos instance and adds an operation to it, and the calls that go through it. The
-- server's mutex makes one call of the loop a unit; what the instance serves meanwhile, the rounds
-- of each proposal and the administrator's lock enter as a list of turns.
use projects.Common.{
  ℕ, ◌+◌, String, Bool, true, false, Option, none, some, List, [], ◌∷◌, if◌then◌else◌, string_dec,
  ℕ_discrete, ℤ, pos,
}
use projects.Paxos.Rpc.{PaxosValue, OpType}
use projects.Paxos.Replica.{Paxos, status, set_lock}
use projects.Paxos.Proposer.{Call, Round, serve_all, start}
use projects.Flight.Rpc.{
  Status, FlightInfo, CheckTicketsArgs, ReserveTicketArgs, FlightArgs, CancelFlightArgs,
}
use projects.Flight.Operations.{
  Calendar, Server, my_reservation_helper, check_tickets_helper, reserve_ticket_helper,
  add_flight_helper, cancel_flight_helper, edit_flight_helper,
}

unfoldable pub value_dec : Discrete PaxosValue
value_dec = hlevel (string_dec, ℕ_discrete)

-- The `interface{}` result: nil, the flights of a query, or whether an update was done.
pub data RetVal : Type 0 where
  nil : RetVal
  flights : List FlightInfo → RetVal
  success : Bool → RetVal

with_success : Server × Bool → Server × RetVal
with_success (srv, b) = (srv, RetVal.success b)

-- The `switch` on a decided operation: a query is computed only for the caller's own.
unfoldable pub apply_type :
    Calendar → OpType → Server → Bool → PaxosValue → RetVal → Server × RetVal
unfolding with_success
apply_type c OpType.my_reservation srv own op r =
    (srv, if own then RetVal.flights (my_reservation_helper srv op) else r)
apply_type c OpType.check_tickets srv own op r =
    (srv, if own then RetVal.flights (check_tickets_helper c srv op) else r)
apply_type c OpType.reserve_ticket srv own op r = with_success (reserve_ticket_helper srv op)
apply_type c OpType.add_flight srv own op r = with_success (add_flight_helper srv op)
apply_type c OpType.cancel_flight srv own op r = with_success (cancel_flight_helper srv op)
apply_type c OpType.edit_flight srv own op r = with_success (edit_flight_helper srv op)
apply_type c OpType.no_op srv own op r = (srv, r)
apply_type c OpType.no_type srv own op r = (srv, r)

is_yes {ℓ} : {A : Type ℓ} → Dec A → Bool
is_yes (yes a) = true
is_yes (no f) = false

-- All fields are equal. A timestamp is its instant alone: what else Go keeps in a time.Time is not
-- modelled.
unfoldable pub same_op : PaxosValue → PaxosValue → Bool
unfolding is_yes value_dec
same_op a b = is_yes (value_dec a b)

-- One decided operation: the slot number goes up, and the operation is applied.
unfoldable pub apply_op : Calendar → PaxosValue → Server → PaxosValue → RetVal → Server × RetVal
unfolding apply_type
apply_op c own srv op r =
    let next = record srv { curr_slot_num = srv.curr_slot_num + 1 } in
    apply_type c op.type next (same_op own op) op r

-- What happens around one read of the current slot: calls of other peers, settings of the
-- administrator's lock, and the rounds of the proposal if the slot is open.
pub record Turn : Type 0 where
  pub served : List Call
  pub locks : List Bool
  pub rounds : List Round

unfoldable pub set_locks : Paxos → List Bool → Paxos
set_locks px [] = px
set_locks px (b ∷ bs) = set_locks (set_lock px b).0 bs

-- `pending`: the turns have run out. `locked`: the instance is under maintenance. `broken`: a slot
-- is decided with nil, at which the type assertion panics.
pub data Outcome : Type 0 where
  pending locked broken : Paxos → Server → Outcome
  done : Paxos → Server → RetVal → Outcome

-- One turn ends the call or goes back to the status of the current slot.
pub data Next : Type 0 where
  stop : Outcome → Next
  again : Paxos → Server → RetVal → Next

unfoldable pub after_decided :
    Calendar → PaxosValue → Paxos → Server → RetVal → Option PaxosValue → Next
after_decided c own px srv r none = Next.stop (Outcome.broken px srv)
after_decided c own px srv r (some op) =
    let (srv', r') = apply_op c own srv op r in
    if same_op own op then Next.stop (Outcome.done px srv' r') else Next.again px srv' r'

unfoldable pub after_start :
    Server → RetVal → Paxos → Option (Paxos × Option (Option PaxosValue)) → Next
after_start srv r px none = Next.stop (Outcome.locked px srv)
after_start srv r px (some (px', none)) = Next.stop (Outcome.pending px' srv)
after_start srv r px (some (px', some v)) = Next.again px' srv r

unfoldable pub after_status :
    Calendar
    → PaxosValue
    → Paxos
    → Server
    → RetVal
    → Turn
    → Option (Bool × Option PaxosValue)
    → Next
unfolding after_decided after_start
after_status c own px srv r t none = Next.stop (Outcome.locked px srv)
after_status c own px srv r t (some (true, v)) = after_decided c own px srv r v
after_status c own px srv r t (some (false, v)) =
    after_start srv r px (start px srv.curr_slot_num (some own) t.rounds)

unfoldable pub turn : Calendar → PaxosValue → Paxos → Server → RetVal → Turn → Next
unfolding set_locks after_status
turn c own px srv r t =
    let (px', s) = status (set_locks (serve_all px t.served) t.locks) srv.curr_slot_num in
    after_status c own px' srv r t s

abbrev pub continue : (Paxos → Server → RetVal → Outcome) → Next → Outcome
continue loop (Next.stop o) = o
continue loop (Next.again px srv r) = loop px srv r

-- Both loops of `addPaxosLogAndUpdateState`: each begins by reading the slot's status.
unfoldable pub catch_up : Calendar → PaxosValue → Paxos → Server → RetVal → List Turn → Outcome
unfolding turn
catch_up c own px srv r [] = Outcome.pending px srv
catch_up c own px srv r (t ∷ ts) =
    continue (λ px' srv' r'. catch_up c own px' srv' r' ts) (turn c own px srv r t)

unfoldable pub add_paxos_log_and_update_state :
    Calendar → PaxosValue → Paxos → Server → List Turn → Outcome
unfolding catch_up
add_paxos_log_and_update_state c own px srv ts = catch_up c own px srv RetVal.nil ts

-- The seven fields of the operation that a call proposes.
abbrev operation : OpType → ℕ → String → String → ℕ → ℕ → ℤ → PaxosValue
operation type now user id from to tickets = record {
  type = type;
  timestamp = now;
  user_name = user;
  flight_id = id;
  start_date = from;
  end_date = to;
  ticket_num = tickets;
}

unfoldable pub my_reservation : Calendar → ℕ → String → Paxos → Server → List Turn → Outcome
unfolding add_paxos_log_and_update_state
my_reservation c now user px srv ts =
    add_paxos_log_and_update_state c (operation OpType.my_reservation now user "" 0 0 (pos 0)) px
      srv ts

unfoldable pub check_tickets :
    Calendar → ℕ → CheckTicketsArgs → Paxos → Server → List Turn → Outcome
unfolding add_paxos_log_and_update_state
check_tickets c now a px srv ts =
    add_paxos_log_and_update_state c
      (operation OpType.check_tickets now "" a.flight_id a.start_date a.end_date (pos 0)) px srv ts

unfoldable pub reserve_ticket :
    Calendar → ℕ → ReserveTicketArgs → Paxos → Server → List Turn → Outcome
unfolding add_paxos_log_and_update_state
reserve_ticket c now a px srv ts =
    add_paxos_log_and_update_state c
      (operation OpType.reserve_ticket now a.user_name a.flight_id a.date a.date (pos 0)) px srv ts

unfoldable pub add_flight : Calendar → ℕ → FlightArgs → Paxos → Server → List Turn → Outcome
unfolding add_paxos_log_and_update_state
add_flight c now a px srv ts =
    add_paxos_log_and_update_state c
      (operation OpType.add_flight now "" a.flight_id a.date a.date a.ticket_num) px srv ts

unfoldable pub cancel_flight :
    Calendar → ℕ → CancelFlightArgs → Paxos → Server → List Turn → Outcome
unfolding add_paxos_log_and_update_state
cancel_flight c now a px srv ts =
    add_paxos_log_and_update_state c
      (operation OpType.cancel_flight now "" a.flight_id a.date a.date (pos 0)) px srv ts

unfoldable pub edit_flight : Calendar → ℕ → FlightArgs → Paxos → Server → List Turn → Outcome
unfolding add_paxos_log_and_update_state
edit_flight c now a px srv ts =
    add_paxos_log_and_update_state c
      (operation OpType.edit_flight now "" a.flight_id a.date a.date a.ticket_num) px srv ts

-- The reply of the calls that update: the status of a boolean result.
unfoldable pub update_reply : RetVal → Status
update_reply (RetVal.success true) = Status.ok
update_reply (RetVal.success false) = Status.reject
update_reply RetVal.nil = Status.unset
update_reply (RetVal.flights l) = Status.unset
