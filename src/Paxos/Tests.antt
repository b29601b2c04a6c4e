-- ===== src/Paxos/Tests.antt =====
-- The theorems about paxos.go at concrete inputs.
use projects.Common.{
  Bool, List, negsuc, ℕ, ◌≡◌, refl, ◌≢◌, true, false, none, some, [], ◌∷◌, ℕ_discrete, lookup,
  insert, arith,
}
use projects.Paxos.Rpc.{Status, PrepareArgs, PrepareReply, AcceptArgs}
use projects.Paxos.Replica.{
  Paxos, Listener, slot_of, write_slot, get_time_slot_value, get_time_slot_lock, prepare, accept,
  decide,
}
use projects.Paxos.Proposer.{
  is_ok, accept_phase, arrivals, Outcome, round, collect_accepts, Call, Round, serve, serve_all,
  next_seq_num, collect_prepares, start_helper,
}
use projects.Paxos.Admin.{min_undecided, no_op_value}
use projects.Paxos.Promises.{SlotsValid, promise_kept, serve-SlotsValid}
use projects.Paxos.Rounds.{start_tally, next_seq_num_distinct}
use projects.Paxos.Majority.{
  count_accepts, accept_arrivals, Decides, accept_phase-Decides, accept_phase_retries,
}
use projects.Paxos.Walk.{LeastUndecided, min_undecided-Least}

abbrev new_peer : Paxos
new_peer = record {
  l = Listener.opened;
  deaf = false;
  peers = "a:1" ∷ "b:2" ∷ "c:3" ∷ [];
  me = 0;
  time_slot = [];
  time_slot_lock = [];
  is_locked = false;
  max_done = [];
  max_decided_slot = 0;
  min_undecided_slot = 0;
}

abbrev first_prepare : PrepareArgs
first_prepare = record { slot_num = 0; seq_num = 7; peer_num = 1; max_done = negsuc 0 }

abbrev old_accept : AcceptArgs
old_accept = record { slot_num = 0; seq_num = 4; value = some no_op_value }

abbrev new_accept : AcceptArgs
new_accept = record { slot_num = 0; seq_num = 7; value = some no_op_value }

abbrev calls : List Call
calls =
    Call.accepts new_accept ∷ Call.decides (record { slot_num = 0; value = some no_op_value }) ∷ []

promise_kept_example :
    let px = serve_all (prepare new_peer first_prepare).0 calls in
    ((accept px old_accept).1.status ≡ Status.reject)
    × (slot_of (accept px old_accept).0 0 ≡ slot_of px 0)
promise_kept_example = promise_kept new_peer first_prepare calls old_accept 0 refl (omega arith)

new_peer-SlotsValid : SlotsValid new_peer
unfolding slot_of lookup
new_peer-SlotsValid = record { ordered = λ t. omega arith; bounded = λ t h. cc }

abbrev decided_peer : Paxos
decided_peer = serve new_peer (Call.decides (record { slot_num = 0; value = some no_op_value }))

decided_peer-SlotsValid : SlotsValid decided_peer
decided_peer-SlotsValid =
    serve-SlotsValid new_peer (Call.decides (record { slot_num = 0; value = some no_op_value }))
      new_peer-SlotsValid

serve-SlotsValid_example : SlotsValid (serve new_peer (Call.accepts new_accept))
serve-SlotsValid_example = serve-SlotsValid new_peer (Call.accepts new_accept) new_peer-SlotsValid

next_seq_num_distinct_example : next_seq_num 5 3 1 1000 ≢ next_seq_num 6 3 2 900
next_seq_num_distinct_example =
    next_seq_num_distinct 3 1 2 5 1000 6 900 (omega arith) (omega arith) (omega arith)
      (record { clock = omega arith; number = omega arith })
      (record { clock = omega arith; number = omega arith })

abbrev no_reply : PrepareReply
no_reply = record {
  status = Status.ok;
  seq_num_accepted = 0;
  value_accepted = none;
  seq_num_highest = 0;
}

abbrev old_reply : PrepareReply
old_reply = record no_reply { seq_num_accepted = 4; value_accepted = some no_op_value }

abbrev replies : List (Bool × PrepareReply)
replies = (true, no_reply) ∷ (false, no_reply) ∷ (true, old_reply) ∷ []

-- The second peer's accepted value is proposed in place of the proposer's own.
proposes_accepted : (collect_prepares 3 (start_tally none) replies).propose_value ≡ some no_op_value
unfolding collect_prepares
proposes_accepted = refl

min_undecided-Least_example :
    (px : Paxos) × (m : ℕ) × (min_undecided decided_peer ≡ some (px, m))
    × (px.min_undecided_slot ≡ m)
    × LeastUndecided decided_peer decided_peer.min_undecided_slot px m
min_undecided-Least_example = min_undecided-Least decided_peer decided_peer-SlotsValid

-- Two rounds: the first meets a higher number, the second reaches a majority without the third peer.
abbrev lost_round : Round
lost_round = record {
  now = 1;
  before_prepare = [];
  prepare_replies =
      none
      ∷ some (true, record no_reply { status = Status.reject; seq_num_highest = 50 })
      ∷ some (true, record no_reply { status = Status.reject; seq_num_highest = 40 })
      ∷ [];
  before_accept = [];
  accept_replies = [];
  before_decide = [];
}

abbrev won_round : Round
won_round = record {
  now = 2;
  before_prepare = [];
  prepare_replies = some (true, old_reply) ∷ none ∷ [];
  before_accept = [];
  accept_replies =
      none
      ∷ some (false, record { status = Status.unset; seq_num_highest = 0 })
      ∷ some (true, record { status = Status.ok; seq_num_highest = 0 })
      ∷ [];
  before_decide = [];
}

start_helper_two_rounds :
    (start_helper new_peer 0 none (lost_round ∷ won_round ∷ [])).1 ≡ some (some no_op_value)
unfolding start_helper get_time_slot_value get_time_slot_lock prepare accept decide write_slot
    lookup insert ℕ_discrete round collect_prepares next_seq_num collect_accepts
start_helper_two_rounds = refl

two_ok : count_accepts (accept_arrivals new_peer 0 won_round 7 (some no_op_value)) ≡ 2
unfolding arrivals accept get_time_slot_value get_time_slot_lock write_slot lookup insert ℕ_discrete
    is_ok serve_all
two_ok = refl

accept_phase-Decides_example :
    Decides 0 (some no_op_value) (accept_phase new_peer 0 won_round 7 (some no_op_value))
accept_phase-Decides_example =
    accept_phase-Decides new_peer 0 won_round 7 (some no_op_value) (omega (arith, two_ok))

-- Only the peer itself accepts.
abbrev split_round : Round
split_round = record won_round {
  accept_replies =
      none
      ∷ some (false, record { status = Status.unset; seq_num_highest = 0 })
      ∷ some (true, record { status = Status.reject; seq_num_highest = 9 })
      ∷ [];
}

one_ok : count_accepts (accept_arrivals new_peer 0 split_round 7 (some no_op_value)) ≡ 1
unfolding arrivals accept get_time_slot_value get_time_slot_lock write_slot lookup insert ℕ_discrete
    is_ok serve_all
one_ok = refl

accept_phase_retries_example :
    (px : Paxos) × (highest : ℕ) × (accept_phase new_peer 0 split_round 7 (some no_op_value)
      ≡ Outcome.retry px highest)
accept_phase_retries_example =
    accept_phase_retries new_peer 0 split_round 7 (some no_op_value) (omega (arith, one_ok))
