-- ===== src/Paxos/Cluster/Tests.antt =====
-- The theorems about the cluster of paxos.go at concrete inputs.
use projects.Common.{
  ℕ, ◌≡◌, refl, inl, inr, true, false, none, some, [], ◌∷◌, negsuc, arith, lookup, insert,
  ℕ_discrete,
}
use projects.Paxos.Rpc.{Status, PrepareArgs, AcceptArgs}
use projects.Paxos.Replica.{
  Paxos, Listener, slot_of, write_slot, get_time_slot_value, get_time_slot_lock, prepare, accept,
}
use projects.Paxos.Proposer.{is_ok, collect_prepares, tally_prepare, collect_accepts, tally_accept}
use projects.Paxos.Admin.{no_op_value}
use projects.Paxos.Cluster.{System, Proposal, AcceptArrival, update, Prepares, Accepts, Step, Reach}
use projects.Paxos.Cluster.Agreement.{After, decided_agree}

abbrev peer : Paxos
peer = record {
  l = Listener.opened;
  deaf = false;
  peers = "a:1" ∷ "b:2" ∷ "c:3" ∷ [];
  me = 0;
  time_slot = [];
  time_slot_lock = [];
  is_locked = false;
  max_done = [];
  max_decided_slot = 0;
  min_undecided_slot = 0;
}

abbrev prepare_of : ℕ → PrepareArgs
prepare_of k = record { slot_num = 0; seq_num = k; peer_num = 0; max_done = negsuc 0 }

abbrev accept_of : ℕ → AcceptArgs
accept_of k = record { slot_num = 0; seq_num = k; value = some no_op_value }

abbrev promise : System → ℕ → ℕ → ℕ → System
promise s round i k = record s {
  peers = update s.peers i (prepare (s.peers i) (prepare_of k)).0;
  promises =
      record { round = round; peer = i; number = k; reply = (prepare (s.peers i) (prepare_of k)).1 }
      ∷ s.promises;
}

abbrev vote : System → ℕ → ℕ → System
vote s i k = record s {
  peers = update s.peers i (accept (s.peers i) (accept_of k)).0;
  votes = record { peer = i; number = k; value = some no_op_value } ∷ s.votes;
}

abbrev first : Proposal
first = record { round = 0; number = 3; value = some no_op_value }

abbrev second : Proposal
second = record { round = 1; number = 8; value = some no_op_value }

abbrev s0 : System
s0 = record { peers = λ i. peer; promises = []; proposals = []; votes = [] }

abbrev s1 : System
s1 = promise s0 0 0 3

abbrev s2 : System
s2 = promise s1 0 1 3

abbrev s3 : System
s3 = record s2 { proposals = first ∷ s2.proposals }

abbrev s4 : System
s4 = vote s3 0 3

-- The first round has its majority.
abbrev s5 : System
s5 = vote s4 1 3

abbrev s6 : System
s6 = promise s5 1 1 8

abbrev s7 : System
s7 = promise s6 1 2 8

abbrev s8 : System
s8 = record s7 { proposals = second ∷ s7.proposals }

abbrev s9 : System
s9 = vote s8 1 8

abbrev s10 : System
s10 = vote s9 2 8

first-Prepares : Prepares 3 s2 first
unfolding prepare get_time_slot_value get_time_slot_lock write_slot slot_of lookup insert ℕ_discrete
    collect_prepares tally_prepare is_ok
first-Prepares = record {
  own = some no_op_value;
  arrivals =
      record { peer = 0; came = true; reply = (prepare (s0.peers 0) (prepare_of 3)).1 }
      ∷ record { peer = 1; came = true; reply = (prepare (s1.peers 1) (prepare_of 3)).1 }
      ∷ [];
  one_each = ((((λ e. omega arith), tt), (tt, tt)), (omega arith, (omega arith, tt)));
  genuine = ((λ e. inr (inl refl)), ((λ e. inl refl), tt));
  majority = refl;
  chooses = refl;
}

-- The second proposer has no value of its own.
second-Prepares : Prepares 3 s7 second
unfolding prepare accept get_time_slot_value get_time_slot_lock write_slot slot_of lookup insert
    ℕ_discrete collect_prepares tally_prepare is_ok
second-Prepares = record {
  own = none;
  arrivals =
      record { peer = 1; came = true; reply = (prepare (s5.peers 1) (prepare_of 8)).1 }
      ∷ record { peer = 2; came = true; reply = (prepare (s6.peers 2) (prepare_of 8)).1 }
      ∷ [];
  one_each = ((((λ e. omega arith), tt), (tt, tt)), (omega arith, (omega arith, tt)));
  genuine = ((λ e. inr (inl refl)), ((λ e. inl refl), tt));
  majority = refl;
  chooses = refl;
}

abbrev ok_from : ℕ → AcceptArrival
ok_from i = record {
  peer = i;
  came = true;
  reply = record { status = Status.ok; seq_num_highest = 0 };
}

first-Accepts : Accepts 3 s5 first
unfolding collect_accepts tally_accept is_ok
first-Accepts = record {
  arrivals = ok_from 0 ∷ ok_from 1 ∷ [];
  one_each = ((((λ e. omega arith), tt), (tt, tt)), (omega arith, (omega arith, tt)));
  genuine = ((λ e. inr (inl refl)), ((λ e. inl refl), tt));
  majority = refl;
}

second-Accepts : Accepts 3 s10 second
unfolding collect_accepts tally_accept is_ok
second-Accepts = record {
  arrivals = ok_from 2 ∷ ok_from 1 ∷ [];
  one_each = ((((λ e. omega arith), tt), (tt, tt)), (omega arith, (omega arith, tt)));
  genuine = ((λ e. inl refl), ((λ e. inr (inl refl)), tt));
  majority = refl;
}

reached : Reach 3 0 s5
unfolding prepare accept get_time_slot_value get_time_slot_lock write_slot slot_of lookup insert
    ℕ_discrete
reached =
    Reach.next {s = s4}
      (Reach.next {s = s3}
        (Reach.next {s = s2}
          (Reach.next {s = s1}
            (Reach.next {s = s0} (Reach.start (λ i. peer) (λ i. refl))
              (Step.promises 0 0 (prepare_of 3) (omega arith) refl refl))
            (Step.promises 0 1 (prepare_of 3) (omega arith) refl refl))
          (Step.proposes first tt first-Prepares))
        (Step.votes first 0 (accept_of 3) (omega arith) refl (inl refl) refl refl refl))
      (Step.votes first 1 (accept_of 3) (omega arith) refl (inl refl) refl refl refl)

further : After 3 0 s5 s10
unfolding prepare accept get_time_slot_value get_time_slot_lock write_slot slot_of lookup insert
    ℕ_discrete
further =
    After.then {t = s9}
      (After.then {t = s8}
        (After.then {t = s7}
          (After.then {t = s6}
            (After.then {t = s5} After.now
              (Step.promises 1 1 (prepare_of 8) (omega arith) refl refl))
            (Step.promises 1 2 (prepare_of 8) (omega arith) refl refl))
          (Step.proposes second ((λ e. omega arith), tt) second-Prepares))
        (Step.votes second 1 (accept_of 8) (omega arith) refl (inl refl) refl refl refl))
      (Step.votes second 2 (accept_of 8) (omega arith) refl (inl refl) refl refl refl)

decided_agree_example : first.value ≡ second.value
decided_agree_example =
    decided_agree 3 0 s5 s10 first second reached further (inl refl) (inl refl) first-Accepts
      second-Accepts
