-- ===== src/Paxos/Rpc.antt =====
-- p3/src/github.com/cmu440/flight_reservation/rpc/paxosrpc/proto.go: the values that the peers
-- agree on, and the arguments and replies of their calls. `interface{}` values are
-- `Option PaxosValue`, with `none` for nil; `unset` and `no_type` are the zero values. A
-- `time.Time` is a number; slots, peers and sequence numbers are natural numbers.
use projects.Common.{ℕ, String, Bool, Option, List, ℤ}

pub data Status : Type 0 where
  unset ok reject : Status

pub data OpType : Type 0 where
  no_type my_reservation check_tickets reserve_ticket add_flight : OpType
  cancel_flight edit_flight no_op : OpType

pub record PaxosValue : Type 0 where
  pub type : OpType
  pub timestamp : ℕ
  pub user_name : String
  pub flight_id : String
  pub start_date : ℕ
  pub end_date : ℕ
  pub ticket_num : ℤ

pub record SlotValue : Type 0 where
  pub value : Option PaxosValue
  pub is_decided : Bool

pub record PrepareArgs : Type 0 where
  pub slot_num : ℕ
  pub seq_num : ℕ
  pub peer_num : ℕ
  pub max_done : ℤ

pub record PrepareReply : Type 0 where
  pub status : Status
  pub seq_num_accepted : ℕ
  pub value_accepted : Option PaxosValue
  pub seq_num_highest : ℕ

pub record AcceptArgs : Type 0 where
  pub slot_num : ℕ
  pub seq_num : ℕ
  pub value : Option PaxosValue

pub record AcceptReply : Type 0 where
  pub status : Status
  pub seq_num_highest : ℕ

pub record DecideArgs : Type 0 where
  pub slot_num : ℕ
  pub value : Option PaxosValue

pub record PutArgs : Type 0 where
  pub slot_num : ℕ
  pub value : Option PaxosValue
  pub seq_num_accepted : ℕ
  pub seq_num_highest : ℕ

pub record UpdatePeersArgs : Type 0 where
  pub peers : List String
  pub me : ℕ

pub record SyncPaxosValueReply : Type 0 where
  pub status : Status
  pub synced_value : Option PaxosValue
  pub seq_num_accepted : ℕ
  pub seq_num_highest : ℕ
