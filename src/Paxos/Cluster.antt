-- ===== src/Paxos/Cluster.antt =====
-- paxos.go: `n` peers that run rounds for one slot, with any delay, loss and order of messages. The
-- system keeps, beside the peers, what has been promised, proposed and voted; a handler's reply may
-- reach its round at any later time, or never. The set of peers is fixed: no `Put` and no
-- `UpdatePeers` of the administrator.
pub mod History
pub mod Consistent
pub mod Promising
pub mod Voting
pub mod Tallies
pub mod Steps
pub mod Agreement
mod Tests
use projects.Common.{
  ℕ, ◌/◌, ◌<◌, ◌≡◌, ◌≢◌, Bool, true, false, Option, List, [], ◌∷◌, leb, ◌==◌, if◌then◌else◌, All,
  map,
}
use projects.Paxos.Rpc.{
  Status, PaxosValue, PrepareArgs, PrepareReply, AcceptArgs, AcceptReply, DecideArgs,
}
use projects.Paxos.Replica.{Paxos, slot_of, new_slot, prepare, accept, decide}
use projects.Paxos.Proposer.{Call, serve, collect_prepares, collect_accepts}
use projects.Paxos.Rounds.{start_tally, counts}
use projects.Paxos.Majority.{accepts}
use projects.Paxos.Quorum.{In, Nodup}

-- A peer has answered OK to the `Prepare` of a round.
pub record Promise : Type 0 where
  pub round : ℕ
  pub peer : ℕ
  pub number : ℕ
  pub reply : PrepareReply

-- A round has sent `Accept` with the value.
pub record Proposal : Type 0 where
  pub round : ℕ
  pub number : ℕ
  pub value : Option PaxosValue

-- A peer has answered OK to an `Accept`.
pub record Vote : Type 0 where
  pub peer : ℕ
  pub number : ℕ
  pub value : Option PaxosValue

pub record System : Type 0 where
  pub peers : ℕ → Paxos
  pub promises : List Promise
  pub proposals : List Proposal
  pub votes : List Vote

abbrev pub update : (ℕ → Paxos) → ℕ → Paxos → ℕ → Paxos
update f i px j = if j == i then px else f j

-- A reply as the channel of the round delivers it: `came` is `success`.
pub record PrepareArrival : Type 0 where
  pub peer : ℕ
  pub came : Bool
  pub reply : PrepareReply

pub record AcceptArrival : Type 0 where
  pub peer : ℕ
  pub came : Bool
  pub reply : AcceptReply

abbrev pub prepare_result : PrepareArrival → Bool × PrepareReply
prepare_result a = (a.came, a.reply)

abbrev pub accept_result : AcceptArrival → Bool × AcceptReply
accept_result a = (a.came, a.reply)

-- An OK that has come back was given to this round.
abbrev pub PrepareGenuine : System → ℕ → ℕ → PrepareArrival → Type 0
PrepareGenuine s round number a =
    counts (prepare_result a) ≡ true
    → In (record { round = round; peer = a.peer; number = number; reply = a.reply }) s.promises

abbrev pub AcceptGenuine : System → Proposal → AcceptArrival → Type 0
AcceptGenuine s p a =
    accepts (accept_result a) ≡ true
    → In (record { peer = a.peer; number = p.number; value = p.value }) s.votes

-- One reply from each of some peers.
abbrev pub OneEach : ℕ → List ℕ → Type 0
OneEach n peers = Nodup peers × All (λ i. i < n) peers

-- The prepare phase of a round has a majority, and chooses the value.
pub record Prepares (n : ℕ) (s : System) (p : Proposal) : Type 0 where
  pub own : Option PaxosValue
  pub arrivals : List PrepareArrival
  pub one_each : OneEach n (map (λ a. a.peer) arrivals)
  pub genuine : All (PrepareGenuine s p.round p.number) arrivals
  pub majority :
      leb (collect_prepares n (start_tally own) (map prepare_result arrivals)).num_ok (n / 2)
      ≡ false
  pub chooses :
      (collect_prepares n (start_tally own) (map prepare_result arrivals)).propose_value ≡ p.value

-- The accept phase of a round has a majority.
pub record Accepts (n : ℕ) (s : System) (p : Proposal) : Type 0 where
  pub arrivals : List AcceptArrival
  pub one_each : OneEach n (map (λ a. a.peer) arrivals)
  pub genuine : All (AcceptGenuine s p) arrivals
  pub majority : leb (collect_accepts n (0, 0) (map accept_result arrivals)).0 (n / 2) ≡ false

abbrev pub slot_of_call : Call → ℕ
slot_of_call (Call.prepares a) = a.slot_num
slot_of_call (Call.accepts a) = a.slot_num
slot_of_call (Call.decides a) = a.slot_num

pub data Step (n slot : ℕ) (s : System) : System → Type 0 where
  promises :
      (round i : ℕ) (a : PrepareArgs)
      → i < n
      → a.slot_num ≡ slot
      → (prepare (s.peers i) a).1.status ≡ Status.ok
      → Step n slot s (record s {
        peers = update s.peers i (prepare (s.peers i) a).0;
        promises =
            record {
              round = round;
              peer = i;
              number = a.seq_num;
              reply = (prepare (s.peers i) a).1;
            }
            ∷ s.promises;
      })
  proposes :
      (p : Proposal)
      → All (λ q. q.round ≢ p.round) s.proposals
      → Prepares n s p
      → Step n slot s (record s { proposals = p ∷ s.proposals })
  votes :
      (p : Proposal) (i : ℕ) (a : AcceptArgs)
      → i < n
      → a.slot_num ≡ slot
      → In p s.proposals
      → a.seq_num ≡ p.number
      → a.value ≡ p.value
      → (accept (s.peers i) a).1.status ≡ Status.ok
      → Step n slot s (record s {
        peers = update s.peers i (accept (s.peers i) a).0;
        votes = record { peer = i; number = a.seq_num; value = a.value } ∷ s.votes;
      })
  decides :
      (p : Proposal) (i : ℕ) (a : DecideArgs)
      → i < n
      → a.slot_num ≡ slot
      → In p s.proposals
      → a.value ≡ p.value
      → Accepts n s p
      → Step n slot s (record s { peers = update s.peers i (decide (s.peers i) a).0 })
  rejects_prepare :
      (i : ℕ) (a : PrepareArgs)
      → (prepare (s.peers i) a).1.status ≡ Status.reject
      → Step n slot s (record s { peers = update s.peers i (prepare (s.peers i) a).0 })
  rejects_accept :
      (i : ℕ) (a : AcceptArgs)
      → (accept (s.peers i) a).1.status ≡ Status.reject
      → Step n slot s (record s { peers = update s.peers i (accept (s.peers i) a).0 })
  elsewhere :
      (i : ℕ) (c : Call)
      → slot_of_call c ≢ slot
      → Step n slot s (record s { peers = update s.peers i (serve (s.peers i) c) })

-- From peers that know nothing of the slot.
pub data Reach (n slot : ℕ) : System → Type 0 where
  start :
      (peers : ℕ → Paxos)
      → ((i : ℕ) → slot_of (peers i) slot ≡ new_slot)
      → Reach n slot (record { peers = peers; promises = []; proposals = []; votes = [] })
  next : {s t : System} → Reach n slot s → Step n slot s t → Reach n slot t
