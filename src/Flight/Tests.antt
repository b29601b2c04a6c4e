-- ===== src/Flight/Tests.antt =====
-- The theorems about server_impl.go at concrete inputs.
use projects.Common.{
  string_dec_of, insert, suc, ◌≡◌, refl, true, false, none, some, List, [], ◌∷◌, All, Any, pos,
  lookup, ℕ_discrete, string_dec, inl, arith,
}
use projects.Paxos.Rpc.{PaxosValue, OpType}
use projects.Paxos.Replica.{
  write_slot, get_time_slot_value, get_time_slot_lock, prepare, accept, decide, status, Paxos,
  Listener,
}
use projects.Paxos.Proposer.{
  serve_all, start, next_seq_num, round, collect_prepares, collect_accepts, Round,
}
use projects.Flight.Rpc.{FlightInfo}
use projects.Flight.Operations.{
  reserve_ticket_helper, Calendar, Flight, flight_dec, Server, status_of, reserved_of,
  check_tickets_helper,
}
use projects.Flight.Server.{
  same_op, turn, value_dec, catch_up, apply_op, RetVal, Turn, Outcome,
  add_paxos_log_and_update_state,
}
use projects.Flight.Replay.{Replayed, peers_read, replay, add_paxos_log-Replayed}
use projects.Paxos.Rpc.{PrepareReply, AcceptReply, Status as Ok}
use projects.Paxos.Proposer.{is_ok as said_ok}
use projects.Flight.Tickets.{Seats, booked, booked_all, replay-Seats}
use projects.Flight.Queries.{check_tickets_complete, Offers, day_after, check_tickets-Offers}

abbrev days : Calendar
days = record { next_day = suc; next_day_later = λ d. omega arith }

abbrev trip : Flight
trip = record { flight_id = "CA1"; date = 3 }

abbrev booking : FlightInfo
booking = record { flight_id = "CA1"; date = 3; ticket_num = pos 0 }

abbrev airline : Server
airline = record {
  curr_slot_num = 0;
  reserved_flights = ("ann", booking ∷ []) ∷ [];
  flight_status = (trip, pos 2) ∷ [];
}

abbrev reserve_op : PaxosValue
reserve_op = record {
  type = OpType.reserve_ticket;
  timestamp = 9;
  user_name = "bob";
  flight_id = "CA1";
  start_date = 3;
  end_date = 3;
  ticket_num = pos 0;
}

abbrev query_op : PaxosValue
query_op = record reserve_op { type = OpType.check_tickets; start_date = 1; end_date = 5 }

airline-Seats : Seats trip 3 airline
unfolding status_of lookup flight_dec booked_all string_dec ℕ_discrete booked
airline-Seats = record { left = 2; left_eq = refl; conserved = refl }

replay-Seats_example : Seats trip 3 (replay days airline (reserve_op ∷ query_op ∷ reserve_op ∷ []))
replay-Seats_example =
    replay-Seats days trip 3 airline (reserve_op ∷ query_op ∷ reserve_op ∷ [])
      (inl refl, (inl refl, (inl refl, tt))) airline-Seats

check_tickets-Offers_example :
    All (Offers airline "CA1" 1 5) (check_tickets_helper days airline query_op)
check_tickets-Offers_example = check_tickets-Offers days airline query_op

check_tickets_complete_example :
    Any
      (λ i. i ≡ record { flight_id = "CA1"; date = day_after days 2 1; ticket_num = pos 2 })
      (check_tickets_helper days airline query_op)
unfolding day_after status_of lookup flight_dec string_dec ℕ_discrete
check_tickets_complete_example =
    check_tickets_complete days airline query_op 2 1 (ground arith) refl

-- One peer alone: slot 0 holds a reservation of another server, and the call's own goes to slot 1.
abbrev lone_peer : Paxos
lone_peer = record {
  l = Listener.opened;
  deaf = false;
  peers = "a:1" ∷ [];
  me = 0;
  time_slot =
      (
        0,
        record {
          value = some reserve_op;
          is_decided = true;
          seq_num_accepted = 1;
          seq_num_highest = 1;
        },
      )
      ∷ [];
  time_slot_lock = 0 ∷ [];
  is_locked = false;
  max_done = [];
  max_decided_slot = 0;
  min_undecided_slot = 0;
}

abbrev own_op : PaxosValue
own_op = record reserve_op { timestamp = 10; user_name = "ann" }

abbrev lone_round : Round
lone_round = record {
  now = 5;
  before_prepare = [];
  prepare_replies = none ∷ [];
  before_accept = [];
  accept_replies = none ∷ [];
  before_decide = [];
}

abbrev lone_turn : Turn
lone_turn = record { served = []; locks = []; rounds = lone_round ∷ [] }

abbrev schedule : List Turn
schedule = lone_turn ∷ lone_turn ∷ lone_turn ∷ []

state_after : Outcome → Server
state_after (Outcome.done px srv r) = srv
state_after (Outcome.pending px srv) = srv
state_after (Outcome.locked px srv) = srv
state_after (Outcome.broken px srv) = srv

peer_after : Outcome → Paxos
peer_after (Outcome.done px srv r) = px
peer_after (Outcome.pending px srv) = px
peer_after (Outcome.locked px srv) = px
peer_after (Outcome.broken px srv) = px

abbrev outcome : Outcome
outcome = add_paxos_log_and_update_state days own_op lone_peer airline schedule

program : Unit {0}
unfolding add_paxos_log_and_update_state state_after peer_after status serve_all get_time_slot_value
    lookup get_time_slot_lock ℕ_discrete same_op apply_op reserve_ticket_helper flight_dec
    string_dec start write_slot round collect_prepares insert prepare accept decide collect_accepts
    next_seq_num value_dec turn reserved_of status_of catch_up string_dec_of
program = tt

finishes : outcome ≡ Outcome.done (peer_after outcome) (state_after outcome) (RetVal.success true)
unfolding program
finishes = refl

add_paxos_log-Replayed_example :
    Replayed days own_op
      (peers_read days own_op lone_peer airline RetVal.nil schedule)
      airline
      (state_after outcome)
      (RetVal.success true)
add_paxos_log-Replayed_example =
    add_paxos_log-Replayed days own_op lone_peer airline schedule (peer_after outcome)
      (state_after outcome) (RetVal.success true) finishes

-- The first of three peers.
abbrev of_three : Paxos
of_three = record lone_peer { peers = "a:1" ∷ "b:1" ∷ "c:1" ∷ [] }

abbrev ok_prepare : PrepareReply
ok_prepare = record {
  status = Ok.ok;
  seq_num_accepted = 0;
  value_accepted = none;
  seq_num_highest = 0;
}

abbrev ok_accept : AcceptReply
ok_accept = record { status = Ok.ok; seq_num_highest = 0 }

-- Both other peers answer OK, one of them before this peer's own answer is read.
abbrev good_round : Round
good_round = record lone_round {
  prepare_replies = some (true, ok_prepare) ∷ none ∷ some (true, ok_prepare) ∷ [];
  accept_replies = some (true, ok_accept) ∷ some (true, ok_accept) ∷ none ∷ [];
}
