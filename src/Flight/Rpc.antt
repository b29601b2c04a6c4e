-- ===== src/Flight/Rpc.antt =====
-- p3/src/github.com/cmu440/flight_reservation/rpc/serverrpc/proto.go: the arguments and replies of
-- the airline server. `Status` has its zero value, `unset`, beside the two that the code names.
use projects.Common.{ℕ, String, ℤ}

pub data Status : Type 0 where
  unset ok reject : Status

pub record FlightInfo : Type 0 where
  pub flight_id : String
  pub date : ℕ
  pub ticket_num : ℤ

pub record CheckTicketsArgs : Type 0 where
  pub flight_id : String
  pub start_date : ℕ
  pub end_date : ℕ

pub record ReserveTicketArgs : Type 0 where
  pub user_name : String
  pub flight_id : String
  pub date : ℕ

-- The arguments of `AddFlight` and `EditFlight`.
pub record FlightArgs : Type 0 where
  pub flight_id : String
  pub date : ℕ
  pub ticket_num : ℤ

pub record CancelFlightArgs : Type 0 where
  pub flight_id : String
  pub date : ℕ
