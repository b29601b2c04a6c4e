-- ===== src/Flight/Operations.antt =====
-- p3/src/github.com/cmu440/flight_reservation/server/server_impl.go: the state of an airline server
-- and the helpers that apply one agreed operation to it. A date is a number; `AddDate(0, 0, 1)` of
-- package time is the parameter `next_day`.
use projects.Common.{
  ℕ, zero, suc, ◌-◌, ◌<◌, String, Bool, true, false, Option, none, some, List, [], ◌∷◌, ◌++◌, leb,
  if◌then◌else◌, lookup, insert, delete, string_dec, ℕ_discrete, ℤ, pos, is_pos, dec_ℤ,
}
use projects.Paxos.Rpc.{PaxosValue}
use projects.Flight.Rpc.{FlightInfo}

-- What the server relies on of package time: the next day is later.
pub record Calendar : Type 0 where
  pub next_day : ℕ → ℕ
  pub next_day_later : (d : ℕ) → d < next_day d

pub record Flight : Type 0 where
  pub flight_id : String
  pub date : ℕ

unfoldable pub flight_dec : Discrete Flight
flight_dec = hlevel (string_dec, ℕ_discrete)

pub record Server : Type 0 where
  pub curr_slot_num : ℕ
  pub reserved_flights : List (String × List FlightInfo)
  pub flight_status : List (Flight × ℤ)

unfoldable pub status_of : Server → Flight → Option ℤ
status_of srv f = lookup flight_dec f srv.flight_status

list_or_empty : Option (List FlightInfo) → List FlightInfo
list_or_empty none = []
list_or_empty (some l) = l

-- `srv.reservedFlights[user]`, nil where the user has none.
unfoldable pub reserved_of : Server → String → List FlightInfo
unfolding list_or_empty
reserved_of srv user = list_or_empty (lookup string_dec user srv.reserved_flights)

unfoldable pub exists_in : Option ℤ → Bool
exists_in none = false
exists_in (some n) = true

unfoldable pub flight_exists : Server → Flight → Bool
unfolding exists_in status_of
flight_exists srv f = exists_in (status_of srv f)

abbrev pub flight_of : FlightInfo → Flight
flight_of i = record { flight_id = i.flight_id; date = i.date }

-- The flight that an operation names.
abbrev pub op_flight : PaxosValue → Flight
op_flight op = record { flight_id = op.flight_id; date = op.start_date }

unfoldable pub recheck : Server → List FlightInfo → List FlightInfo
unfolding flight_exists
recheck srv [] = []
recheck srv (i ∷ l) = if flight_exists srv (flight_of i) then i ∷ recheck srv l else recheck srv l

unfoldable pub my_reservation_helper : Server → PaxosValue → List FlightInfo
unfolding recheck reserved_of
my_reservation_helper srv op = recheck srv (reserved_of srv op.user_name)

unfoldable pub day_info : Flight → Option ℤ → List FlightInfo
day_info f none = []
day_info f (some n) =
    if is_pos n then record { flight_id = f.flight_id; date = f.date; ticket_num = n } ∷ [] else []

-- The loop over the days from `day` to `last`, on fuel.
unfoldable pub check_days : Calendar → ℕ → Server → String → ℕ → ℕ → List FlightInfo
unfolding day_info status_of
check_days c zero srv id day last = []
check_days c (suc fuel) srv id day last =
    let rest = check_days c fuel srv id (c.next_day day) last in
    let f : Flight = record { flight_id = id; date = day } in
    if leb day last then day_info f (status_of srv f) ++ rest else []

-- A day is later than the day before, so the loop turns at most `last - day + 1` times.
unfoldable pub check_tickets_helper : Calendar → Server → PaxosValue → List FlightInfo
unfolding check_days
check_tickets_helper c srv op =
    check_days c (suc (suc op.end_date - op.start_date)) srv op.flight_id op.start_date op.end_date

unfoldable pub reserve_with : Server → PaxosValue → Option ℤ → Server × Bool
unfolding reserved_of
reserve_with srv op none = (srv, false)
reserve_with srv op (some n) =
    if is_pos n
    then (
      record srv {
        flight_status = insert flight_dec (op_flight op) (dec_ℤ n) srv.flight_status;
        reserved_flights =
            insert string_dec op.user_name
              (reserved_of srv op.user_name
                ++ record { flight_id = op.flight_id; date = op.start_date; ticket_num = pos 0 }
                  ∷ [])
              srv.reserved_flights;
      },
      true,
    )
    else (srv, false)

unfoldable pub reserve_ticket_helper : Server → PaxosValue → Server × Bool
unfolding reserve_with status_of
reserve_ticket_helper srv op = reserve_with srv op (status_of srv (op_flight op))

abbrev set_tickets : Server → PaxosValue → Server
set_tickets srv op = record srv {
  flight_status = insert flight_dec (op_flight op) op.ticket_num srv.flight_status;
}

unfoldable pub add_flight_helper : Server → PaxosValue → Server × Bool
unfolding flight_exists
add_flight_helper srv op =
    if flight_exists srv (op_flight op) then (srv, false) else (set_tickets srv op, true)

unfoldable pub cancel_flight_helper : Server → PaxosValue → Server × Bool
unfolding flight_exists
cancel_flight_helper srv op =
    if flight_exists srv (op_flight op)
    then (record srv { flight_status = delete flight_dec (op_flight op) srv.flight_status }, true)
    else (srv, false)

unfoldable pub edit_flight_helper : Server → PaxosValue → Server × Bool
unfolding flight_exists
edit_flight_helper srv op =
    if flight_exists srv (op_flight op) then (set_tickets srv op, true) else (srv, false)
