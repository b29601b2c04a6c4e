-- ===== src/Paxos/Slots.antt =====
-- What each call of paxos.go does to the slots, seen through `slot_of`.
use projects.Common.{ℕ, ◌≡◌, refl, ite, true, if◌then◌else◌, ltb, leb, ℕ_discrete, arith}
use projects.Paxos.Rpc.{PrepareArgs, AcceptArgs, DecideArgs, PutArgs}
use projects.Paxos.Replica.{
  Paxos, TimeSlotValue, write_slot, slot_of, slot_of-write_slot, get_time_slot_value,
  get_time_slot_value_lem, get_time_slot_lock, get_max, prepare, accept, decide, put,
}

pub lock_lem :
    (px : Paxos) (s t : ℕ)
    → (slot_of (get_time_slot_lock px s) t ≡ slot_of px t)
      × ((get_time_slot_lock px s).max_decided_slot ≡ px.max_decided_slot)
      × ((get_time_slot_lock px s).peers ≡ px.peers)
unfolding get_time_slot_lock slot_of
lock_lem px s t = ground arith

value_keeps :
    (px : Paxos) (s : ℕ)
    → ((get_time_slot_value px s).0.max_decided_slot ≡ px.max_decided_slot)
      × ((get_time_slot_value px s).0.peers ≡ px.peers)
unfolding get_time_slot_value write_slot
value_keeps px s = ground arith

-- Looking a slot up under its lock shows the slot and changes no slot.
pub enter_lem :
    (px : Paxos) (s t : ℕ)
    → let e = get_time_slot_value (get_time_slot_lock px s) s in
      (e.1 ≡ slot_of px s)
      × (slot_of e.0 t ≡ slot_of px t)
      × (e.0.max_decided_slot ≡ px.max_decided_slot)
enter_lem px s t = ground (
  arith,
  get_time_slot_value_lem (get_time_slot_lock px s) s t,
  lock_lem px s t,
  lock_lem px s s,
  value_keeps (get_time_slot_lock px s) s,
)

-- The slot after a `Prepare` that names it.
abbrev pub prepared : TimeSlotValue → ℕ → TimeSlotValue
prepared v n = if ltb v.seq_num_highest n then record v { seq_num_highest = n } else v

abbrev pub accepted : TimeSlotValue → AcceptArgs → TimeSlotValue
accepted v a =
    if leb v.seq_num_highest a.seq_num
    then record v { seq_num_accepted = a.seq_num; seq_num_highest = a.seq_num; value = a.value }
    else v

abbrev pub put_slot : TimeSlotValue → PutArgs → TimeSlotValue
put_slot v a = if v.is_decided then v else record {
  value = a.value;
  is_decided = true;
  seq_num_accepted = a.seq_num_accepted;
  seq_num_highest = a.seq_num_highest;
}

pub slot_of-prepare :
    (px : Paxos) (a : PrepareArgs) (t : ℕ)
    → slot_of (prepare px a).0 t
      ≡ ite (ℕ_discrete a.slot_num t) (prepared (slot_of px t) a.seq_num) (slot_of px t)
unfolding prepare
slot_of-prepare px a t =
    let s = a.slot_num in
    let e = get_time_slot_value (get_time_slot_lock px s) s in
    ground (
      arith,
      enter_lem px s t,
      slot_of-write_slot e.0 s t (record e.1 { seq_num_highest = a.seq_num }),
    )

pub slot_of-accept :
    (px : Paxos) (a : AcceptArgs) (t : ℕ)
    → slot_of (accept px a).0 t
      ≡ ite (ℕ_discrete a.slot_num t) (accepted (slot_of px t) a) (slot_of px t)
unfolding accept
slot_of-accept px a t =
    let s = a.slot_num in
    let e = get_time_slot_value (get_time_slot_lock px s) s in
    ground (
      arith,
      enter_lem px s t,
      slot_of-write_slot e.0 s t (record e.1 {
        seq_num_accepted = a.seq_num;
        seq_num_highest = a.seq_num;
        value = a.value;
      }),
    )

max_decided_slot_lem :
    (px : Paxos) (m t : ℕ) → slot_of (record px { max_decided_slot = m }) t ≡ slot_of px t
unfolding slot_of
max_decided_slot_lem px m t = refl

write_slot-max :
    (px : Paxos) (s : ℕ) (v : TimeSlotValue)
    → (write_slot px s v).max_decided_slot ≡ px.max_decided_slot
unfolding write_slot
write_slot-max px s v = refl

pub slot_of-decide :
    (px : Paxos) (a : DecideArgs) (t : ℕ)
    → slot_of (decide px a).0 t
      ≡ ite
          (ℕ_discrete a.slot_num t)
          (record (slot_of px t) { value = a.value; is_decided = true })
          (slot_of px t)
unfolding decide
slot_of-decide px a t =
    let s = a.slot_num in
    let e = get_time_slot_value (get_time_slot_lock px s) s in
    let w = write_slot e.0 s (record e.1 { value = a.value; is_decided = true }) in
    rw (max_decided_slot_lem w (get_max w.max_decided_slot s) t) (
      ground (
        arith,
        enter_lem px s t,
        slot_of-write_slot e.0 s t (record e.1 { value = a.value; is_decided = true }),
      ))

pub slot_of-put :
    (px : Paxos) (a : PutArgs) (t : ℕ)
    → slot_of (put px a).0 t
      ≡ ite (ℕ_discrete a.slot_num t) (put_slot (slot_of px t) a) (slot_of px t)
unfolding put
slot_of-put px a t =
    let s = a.slot_num in
    let e = get_time_slot_value (get_time_slot_lock px s) s in
    let v : TimeSlotValue = record {
      value = a.value;
      is_decided = true;
      seq_num_accepted = a.seq_num_accepted;
      seq_num_highest = a.seq_num_highest;
    } in
    let w = write_slot e.0 s v in
    ground (
      arith,
      enter_lem px s t,
      slot_of-write_slot e.0 s t v,
      max_decided_slot_lem w (get_max w.max_decided_slot s) t,
    )

pub max-prepare :
    (px : Paxos) (a : PrepareArgs) → (prepare px a).0.max_decided_slot ≡ px.max_decided_slot
unfolding prepare
max-prepare px a =
    let s = a.slot_num in
    let e = get_time_slot_value (get_time_slot_lock px s) s in
    ground
      (arith, enter_lem px s s, write_slot-max e.0 s (record e.1 { seq_num_highest = a.seq_num }))

pub max-accept :
    (px : Paxos) (a : AcceptArgs) → (accept px a).0.max_decided_slot ≡ px.max_decided_slot
unfolding accept write_slot
max-accept px a = ground (arith, enter_lem px a.slot_num a.slot_num)

pub max-decide :
    (px : Paxos) (a : DecideArgs)
    → (decide px a).0.max_decided_slot ≡ get_max px.max_decided_slot a.slot_num
unfolding decide write_slot
max-decide px a = ground (arith, enter_lem px a.slot_num a.slot_num)

pub max-put :
    (px : Paxos) (a : PutArgs)
    → (put px a).0.max_decided_slot ≡ (
        if (slot_of px a.slot_num).is_decided
        then px.max_decided_slot
        else get_max px.max_decided_slot a.slot_num)
unfolding put write_slot
max-put px a = ground (arith, enter_lem px a.slot_num a.slot_num)
