-- ===== src/Flight/Finishing.antt =====
-- server_impl.go: `addPaxosLogAndUpdateState` returns once its operation is decided.
use projects.Common.{ℕ, false, ◌+◌, ◌≡◌, true, false, some, List, [], ◌∷◌, ◌++◌, map}
use projects.Paxos.Rpc.{PaxosValue}
use projects.Paxos.Replica.{Paxos, slot_of}
use projects.Paxos.Proposer.{Round}
use projects.Flight.Operations.{Calendar, Server}
use projects.Flight.Server.{RetVal, Turn, Outcome, catch_up}

-- From slot `s` on the peer's slots are decided with the operations of the log.
abbrev pub Holds : Paxos → ℕ → List PaxosValue → Type 0
Holds px s [] = Unit
Holds px s (op ∷ ops) =
    ((slot_of px s).is_decided ≡ true) × ((slot_of px s).value ≡ some op) × Holds px (s + 1) ops

-- A turn in which nothing else happens, for each operation.
abbrev pub quiet_turns : List PaxosValue → List Turn
quiet_turns = map (λ op. record { served = []; locks = []; rounds = [] })

-- A turn in which the call's proposal gets the given round, and nothing else happens.
abbrev pub proposing : Round → Turn
proposing rd = record { served = []; locks = []; rounds = rd ∷ [] }

abbrev quiet : Turn
quiet = record { served = []; locks = []; rounds = [] }

-- The turns of a call that finds `log` decided before its proposal gets its round.
abbrev pub proposal_turns : List PaxosValue → Round → List Turn
proposal_turns log rd = quiet_turns log ++ proposing rd ∷ quiet ∷ []

abbrev Finishes : Calendar → PaxosValue → Paxos → Server → RetVal → List Turn → Type 0
Finishes c own px srv r ts =
    (px' : Paxos) × (srv' : Server) × (r' : RetVal) × (catch_up c own px srv r ts
      ≡ Outcome.done px' srv' r')

-- The slot is open, and the peer has accepted nothing in it.
pub record Untouched (px : Paxos) (s : ℕ) : Type 0 where
  pub not_decided : (slot_of px s).is_decided ≡ false
  pub not_accepted : (slot_of px s).seq_num_accepted ≡ 0
