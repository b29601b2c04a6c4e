-- ===== src/Flight/Queries.antt =====
-- server_impl.go: what the two queries return.
use projects.Common.{
  ite, string_dec, ℕ_discrete, ℕ, zero, suc, ◌+◌, ◌-◌, ◌≤◌, ◌<◌, ◌≡◌, refl, inl, inr, String, true,
  Option, none, some, List, [], ◌∷◌, ◌++◌, All, Any, All-append, ℤ, pos, negsuc, is_pos, leb,
  Bool-cases, arith,
}
use projects.Paxos.Rpc.{PaxosValue}
use projects.Flight.Rpc.{FlightInfo}
use projects.Flight.Operations.{
  Calendar, Server, status_of, reserved_of, flight_exists, flight_of, recheck, day_info, check_days,
  my_reservation_helper, check_tickets_helper,
}

-- The k-th day after `d`.
unfoldable pub day_after : Calendar → ℕ → ℕ → ℕ
day_after c zero d = d
day_after c (suc k) d = day_after c k (c.next_day d)

-- The entry is that of a day from `first` to `last` on which the flight has seats left.
abbrev pub Offers : Server → String → ℕ → ℕ → FlightInfo → Type 0
Offers srv id first last i =
    (i.flight_id ≡ id)
    × (first ≤ i.date)
    × (i.date ≤ last)
    × (status_of srv (record { flight_id = id; date = i.date }) ≡ some i.ticket_num)
    × (is_pos i.ticket_num ≡ true)

Offers-later :
    (srv : Server) (id : String) (first later last : ℕ) (l : List FlightInfo)
    → first ≤ later
    → All (Offers srv id later last) l
    → All (Offers srv id first last) l
Offers-later srv id first later last [] h a = tt
Offers-later srv id first later last (i ∷ l) h a =
    ((a.0.0, omega arith, a.0.2, a.0.3, a.0.4), Offers-later srv id first later last l h a.1)

day_info-Offers :
    (srv : Server) (id : String) (day last : ℕ) (o : Option ℤ)
    → day ≤ last
    → status_of srv (record { flight_id = id; date = day }) ≡ o
    → All (Offers srv id day last) (day_info (record { flight_id = id; date = day }) o)
unfolding day_info
day_info-Offers srv id day last none h e = tt
day_info-Offers srv id day last (some (pos zero)) h e = tt
day_info-Offers srv id day last (some (negsuc n)) h e = tt
day_info-Offers srv id day last (some (pos (suc n))) h e = ((refl, omega arith, h, e, refl), tt)

check_days-Offers :
    (c : Calendar) (fuel : ℕ) (srv : Server) (id : String) (day last : ℕ)
    → All (Offers srv id day last) (check_days c fuel srv id day last)
unfolding check_days
check_days-Offers c zero srv id day last = tt
check_days-Offers c (suc fuel) srv id day last = elim (Bool-cases (leb day last)) [
  | inl e ↦ rw e (
      All-append (Offers srv id day last) (day_info _ _) (check_days c fuel srv id _ last)
        (day_info-Offers srv id day last _ (ground arith) refl)
        (Offers-later srv id day (c.next_day day) last _ (omega (arith, c.next_day_later day))
          (check_days-Offers c fuel srv id (c.next_day day) last)))
  | inr e ↦ rw e tt
]

Any-append_right : {A : Type 0} (P : A → Type 0) (xs ys : List A) → Any P ys → Any P (xs ++ ys)
Any-append_right P [] ys a = a
Any-append_right P (x ∷ xs) ys a = inr (Any-append_right P xs ys a)

day-le-day_after : (c : Calendar) (k d : ℕ) → d ≤ day_after c k d
unfolding day_after
day-le-day_after c zero d = omega arith
day-le-day_after c (suc k) d =
    omega (arith, day-le-day_after c k (c.next_day d), c.next_day_later d)

check_days_complete :
    (c : Calendar) (fuel : ℕ) (srv : Server) (id : String) (day last k n : ℕ)
    → last + 1 - day < fuel
    → day_after c k day ≤ last
    → status_of srv (record { flight_id = id; date = day_after c k day }) ≡ some (pos (suc n))
    → Any
        (λ i. i ≡ record { flight_id = id; date = day_after c k day; ticket_num = pos (suc n) })
        (check_days c fuel srv id day last)
unfolding check_days day_after
check_days_complete c zero srv id day last k n f le e = absurd (omega arith)
check_days_complete c (suc fuel) srv id day last zero n f le e =
    let within : leb day last ≡ true = ground arith in rw (e, day_info) (rw within (inl refl))
check_days_complete c (suc fuel) srv id day last (suc k) n f le e =
    let within : leb day last ≡ true =
      ground (arith, day-le-day_after c k (c.next_day day), c.next_day_later day) in
    rw within (
      Any-append_right _ (day_info _ _) _ (
        check_days_complete c fuel srv id (c.next_day day) last k n
          (omega (arith, c.next_day_later day, day-le-day_after c k (c.next_day day))) le e))

-- `CheckTickets` returns only days from the start date to the end date on which the flight has
-- seats left, each with the number left.
pub check_tickets-Offers :
    (c : Calendar) (srv : Server) (op : PaxosValue)
    → All (Offers srv op.flight_id op.start_date op.end_date) (check_tickets_helper c srv op)
unfolding check_tickets_helper
check_tickets-Offers c srv op =
    check_days-Offers c (suc (suc op.end_date - op.start_date)) srv op.flight_id op.start_date
      op.end_date

-- `CheckTickets` returns every day that is a number of days after the start date, is not after the
-- end date, and on which the flight has seats left: its loop does not stop before the end date.
pub check_tickets_complete :
    (c : Calendar) (srv : Server) (op : PaxosValue) (k n : ℕ)
    → day_after c k op.start_date ≤ op.end_date
    → status_of srv (record { flight_id = op.flight_id; date = day_after c k op.start_date })
      ≡ some (pos (suc n))
    → Any
        (λ i. i ≡ record {
          flight_id = op.flight_id;
          date = day_after c k op.start_date;
          ticket_num = pos (suc n);
        })
        (check_tickets_helper c srv op)
unfolding check_tickets_helper
check_tickets_complete c srv op k n le e =
    check_days_complete c (suc (suc op.end_date - op.start_date)) srv op.flight_id op.start_date
      op.end_date k n (omega arith) le e

recheck_keeps :
    (srv : Server) (l : List FlightInfo)
    → All (λ i. flight_exists srv (flight_of i) ≡ true) (recheck srv l)
unfolding recheck
recheck_keeps srv [] = tt
recheck_keeps srv (i ∷ l) = elim (Bool-cases (flight_exists srv (flight_of i))) [
  | inl e ↦ rw e (e, recheck_keeps srv l)
  | inr e ↦ rw e (recheck_keeps srv l)
]

ℤ_dec : Discrete ℤ
ℤ_dec = hlevel ℕ_discrete

info_dec : Discrete FlightInfo
info_dec = hlevel (string_dec, ℕ_discrete, ℤ_dec)

-- Occurrences of a reservation in a list of them.
pub copies : FlightInfo → List FlightInfo → ℕ
copies i [] = 0
copies i (j ∷ l) = ite (info_dec i j) (suc (copies i l)) (copies i l)

copies-recheck :
    (srv : Server) (l : List FlightInfo) (i : FlightInfo)
    → flight_exists srv (flight_of i) ≡ true
    → copies i (recheck srv l) ≡ copies i l
unfolding recheck copies
copies-recheck srv [] i e = refl
copies-recheck srv (j ∷ l) i e = ground (arith, copies-recheck srv l i e)

-- `MyReservation` returns reservations of flights that still exist, and of each such flight every
-- reservation of the user, as often as the user has made it.
pub my_reservation_lem :
    (srv : Server) (op : PaxosValue) (i : FlightInfo)
    → flight_exists srv (flight_of i) ≡ true
    → All (λ j. flight_exists srv (flight_of j) ≡ true) (my_reservation_helper srv op)
      × (copies i (my_reservation_helper srv op) ≡ copies i (reserved_of srv op.user_name))
unfolding my_reservation_helper
my_reservation_lem srv op i e = (
  recheck_keeps srv (reserved_of srv op.user_name),
  copies-recheck srv (reserved_of srv op.user_name) i e,
)
