-- ===== src/Flight/Tickets.antt =====
-- server_impl.go: the seats of a flight under a log of operations.
use projects.Common.{
  Bool-cases, ℕ, zero, suc, ◌+◌, ◌≡◌, refl, ◌≢◌, ◌⊎◌, inl, inr, String, Bool, true, false, Option,
  none, some, List, [], ◌∷◌, ◌++◌, All, ite, lookup, insert, delete, lookup-insert, lookup-delete,
  string_dec, ℤ, pos, negsuc, arith,
}
use projects.Paxos.Rpc.{PaxosValue, OpType}
use projects.Flight.Rpc.{FlightInfo}
use projects.Flight.Operations.{
  Calendar, Flight, flight_dec, Server, status_of, reserved_of, flight_exists, flight_of, op_flight,
  reserve_with, reserve_ticket_helper, add_flight_helper, cancel_flight_helper, edit_flight_helper,
}
use projects.Flight.Server.{RetVal, apply_type, apply_op}
use projects.Flight.Replay.{replay}

-- Reservations of `f` in one account, and in all of them.
unfoldable pub booked : Flight → List FlightInfo → ℕ
booked f [] = 0
booked f (i ∷ l) = ite (flight_dec (flight_of i) f) (suc (booked f l)) (booked f l)

unfoldable pub booked_all : Flight → List (String × List FlightInfo) → ℕ
booked_all f [] = 0
booked_all f ((u, l) ∷ m) = booked f l + booked_all f m

booked-append :
    (f : Flight) (l : List FlightInfo) (i : FlightInfo)
    → booked f (l ++ i ∷ []) ≡ booked f l + ite (flight_dec (flight_of i) f) 1 0
unfolding booked
booked-append f [] i = ground arith
booked-append f (j ∷ l) i = ground (arith, booked-append f l i)

abbrev account : Option (List FlightInfo) → List FlightInfo
account none = []
account (some l) = l

booked_all-insert :
    (f : Flight) (u : String) (l : List FlightInfo) (m : List (String × List FlightInfo))
    → booked_all f (insert string_dec u l m) + booked f (account (lookup string_dec u m))
      ≡ booked_all f m + booked f l
unfolding booked booked_all insert lookup
booked_all-insert f u l [] = omega arith
booked_all-insert f u l ((v, k) ∷ m) = ground (arith, booked_all-insert f u l m)

-- The operation may set or remove the seats of `f`.
abbrev pub touches : OpType → Bool
touches OpType.add_flight = true
touches OpType.cancel_flight = true
touches OpType.edit_flight = true
touches _ = false

abbrev pub Untouched : Flight → PaxosValue → Type 0
Untouched f op = (touches op.type ≡ false) ⊎ (op_flight op ≢ f)

pub record Seats (f : Flight) (total : ℕ) (srv : Server) : Type 0 where
  pub left : ℕ
  pub left_eq : status_of srv f ≡ some (pos left)
  pub conserved : left + booked_all f srv.reserved_flights ≡ total

-- An accepted reservation takes one seat of its flight and books it.
reserved-Seats :
    (f : Flight) (total : ℕ) (srv : Server) (op : PaxosValue) (k : ℕ)
    → status_of srv (op_flight op) ≡ some (pos (suc k))
    → Seats f total srv
    → Seats f total (reserve_with srv op (some (pos (suc k)))).0
unfolding reserve_with status_of reserved_of booked
reserved-Seats f total srv op k e s =
    let i : FlightInfo = record {
      flight_id = op.flight_id;
      date = op.start_date;
      ticket_num = pos 0;
    } in
    let old = reserved_of srv op.user_name in
    record {
      left = ite (flight_dec (op_flight op) f) k s.left;
      left_eq =
          rw (lookup-insert flight_dec (op_flight op) f (pos k) srv.flight_status) (ground arith);
      conserved = ground (
        arith,
        booked-append f old i,
        booked_all-insert f op.user_name (old ++ i ∷ []) srv.reserved_flights,
      );
    }

reserve_with-Seats :
    (f : Flight) (total : ℕ) (srv : Server) (op : PaxosValue) (o : Option ℤ)
    → status_of srv (op_flight op) ≡ o
    → Seats f total srv
    → Seats f total (reserve_with srv op o).0
unfolding reserve_with
reserve_with-Seats f total srv op none e s = s
reserve_with-Seats f total srv op (some (pos zero)) e s = s
reserve_with-Seats f total srv op (some (pos (suc k))) e s = reserved-Seats f total srv op k e s
reserve_with-Seats f total srv op (some (negsuc k)) e s = s

-- A change of another flight's entry leaves the seats of `f`.
insert-Seats :
    (f g : Flight) (total : ℕ) (srv : Server) (n : ℤ)
    → g ≢ f
    → Seats f total srv
    → Seats f total (record srv { flight_status = insert flight_dec g n srv.flight_status })
unfolding status_of
insert-Seats f g total srv n ne s = record {
  left = s.left;
  left_eq = ground (arith, lookup-insert flight_dec g f n srv.flight_status, s.left_eq);
  conserved = s.conserved;
}

delete-Seats :
    (f g : Flight) (total : ℕ) (srv : Server)
    → g ≢ f
    → Seats f total srv
    → Seats f total (record srv { flight_status = delete flight_dec g srv.flight_status })
unfolding status_of
delete-Seats f g total srv ne s = record {
  left = s.left;
  left_eq = ground (arith, lookup-delete flight_dec g f srv.flight_status, s.left_eq);
  conserved = s.conserved;
}

slot-Seats :
    (f : Flight) (total n : ℕ) (srv : Server)
    → Seats f total srv
    → Seats f total (record srv { curr_slot_num = n })
unfolding status_of
slot-Seats f total n srv s = record { left = s.left; left_eq = s.left_eq; conserved = s.conserved }

apply_type-Seats :
    (c : Calendar) (f : Flight) (total : ℕ) (type : OpType) (srv : Server) (own : Bool)
    (op : PaxosValue) (r : RetVal)
    → (touches type ≡ false) ⊎ (op_flight op ≢ f)
    → Seats f total srv
    → Seats f total (apply_type c type srv own op r).0
unfolding apply_type reserve_ticket_helper add_flight_helper cancel_flight_helper edit_flight_helper
apply_type-Seats c f total OpType.no_type srv own op r u s = s
apply_type-Seats c f total OpType.my_reservation srv own op r u s = s
apply_type-Seats c f total OpType.check_tickets srv own op r u s = s
apply_type-Seats c f total OpType.no_op srv own op r u s = s
apply_type-Seats c f total OpType.reserve_ticket srv own op r u s =
    reserve_with-Seats f total srv op _ refl s
apply_type-Seats c f total OpType.add_flight srv own op r (inl t) s = cc
apply_type-Seats c f total OpType.cancel_flight srv own op r (inl t) s = cc
apply_type-Seats c f total OpType.edit_flight srv own op r (inl t) s = cc
apply_type-Seats c f total OpType.add_flight srv own op r (inr ne) s =
    elim (Bool-cases (flight_exists srv (op_flight op))) [
      | inl e ↦ rw e s
      | inr e ↦ rw e (insert-Seats f _ total srv op.ticket_num ne s)
    ]
apply_type-Seats c f total OpType.cancel_flight srv own op r (inr ne) s =
    elim (Bool-cases (flight_exists srv (op_flight op))) [
      | inl e ↦ rw e (delete-Seats f _ total srv ne s)
      | inr e ↦ rw e s
    ]
apply_type-Seats c f total OpType.edit_flight srv own op r (inr ne) s =
    elim (Bool-cases (flight_exists srv (op_flight op))) [
      | inl e ↦ rw e (insert-Seats f _ total srv op.ticket_num ne s)
      | inr e ↦ rw e s
    ]

-- Under any log in which no operation adds, cancels or edits the flight, the flight keeps its entry
-- with a count that is not negative, and the seats left and the reservations of all users add up to
-- the same total: no seat is sold twice and none is lost.
pub replay-Seats :
    (c : Calendar) (f : Flight) (total : ℕ) (srv : Server) (ops : List PaxosValue)
    → All (Untouched f) ops
    → Seats f total srv
    → Seats f total (replay c srv ops)
unfolding replay apply_op
replay-Seats c f total srv [] u s = s
replay-Seats c f total srv (op ∷ ops) u s =
    replay-Seats c f total (apply_op c op srv op RetVal.nil).0 ops u.1
      (apply_type-Seats c f total op.type _ _ op RetVal.nil u.0 (slot-Seats f total _ srv s))
