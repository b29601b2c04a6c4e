-- ===== src/Paxos/Admin.antt =====
-- p3/src/github.com/cmu440/flight_reservation/paxos/paxos.go: the calls of PaxosAdmin that walk the
-- slots or run a round.
use projects.Common.{
  ℕ, zero, suc, ◌+◌, false, Option, none, some, List, [], ◌∷◌, if◌then◌else◌, lookup, ℕ_discrete,
  pos,
}
use projects.Paxos.Rpc.{Status, OpType, PaxosValue, SlotValue, SyncPaxosValueReply}
use projects.Paxos.Replica.{Paxos, TimeSlotValue, get_time_slot_value, get_time_slot_lock}
use projects.Paxos.Proposer.{Round, start_helper}

slot_value : Option TimeSlotValue → SlotValue
slot_value none = record { value = none; is_decided = false }
slot_value (some v) = record { value = v.value; is_decided = v.is_decided }

-- The loop of `CheckSlot` over `count` slots from `i`.
unfoldable pub check_slots : Paxos → ℕ → ℕ → Paxos × List SlotValue
unfolding slot_value
check_slots px zero i = (px, [])
check_slots px (suc count) i =
    let (px', rest) = check_slots (get_time_slot_lock px i) count (suc i) in
    (px', slot_value (lookup ℕ_discrete i px.time_slot) ∷ rest)

unfoldable pub check_slot : Paxos → Paxos × Status × List SlotValue
unfolding check_slots
check_slot px =
    let (px', slots) = check_slots px (suc px.max_decided_slot) 0 in (px', Status.ok, slots)

-- The loop of `MinUndecidedSlot`, on fuel; `none` is fuel that ran out.
unfoldable pub undecided_from : ℕ → Paxos → ℕ → Option (Paxos × ℕ)
undecided_from zero px s = none
undecided_from (suc fuel) px s =
    let (px', slot) = get_time_slot_value (get_time_slot_lock px s) s in
    let rest = undecided_from fuel px' (suc s) in if slot.is_decided then rest else some (px', s)

found_min : Option (Paxos × ℕ) → Option (Paxos × ℕ)
found_min none = none
found_min (some (px, s)) = some (record px { min_undecided_slot = s }, s)

-- The walk as it goes when every lock is free: the source holds px.mu, and each slot's lock in turn. No
-- slot above `maxDecidedSlot` is decided, so the fuel covers every slot that can be passed.
unfoldable pub min_undecided : Paxos → Option (Paxos × ℕ)
unfolding undecided_from found_min
min_undecided px = found_min (undecided_from (px.max_decided_slot + 2) px px.min_undecided_slot)

abbrev pub no_op_value : PaxosValue
no_op_value = record {
  type = OpType.no_op;
  timestamp = 0;
  user_name = "";
  flight_id = "";
  start_date = 0;
  end_date = 0;
  ticket_num = pos 0;
}

synced : TimeSlotValue → SyncPaxosValueReply
synced v = record {
  status = Status.ok;
  synced_value = v.value;
  seq_num_accepted = v.seq_num_accepted;
  seq_num_highest = v.seq_num_highest;
}

sync_result : Paxos → TimeSlotValue → Paxos × Option SyncPaxosValueReply
unfolding synced
sync_result px v = if v.is_decided then (px, some (synced v)) else (px, none)

finish_sync : Paxos → ℕ → Option (Option PaxosValue) → Paxos × Option (Option SyncPaxosValueReply)
unfolding sync_result
finish_sync px s none = (px, none)
finish_sync px s (some v) =
    let (px', slot) = get_time_slot_value px s in
    let (px'', reply) = sync_result px' slot in (px'', some reply)

-- `none` while the rounds given have not decided; `some none` is the error at the end.
unfoldable pub sync_paxos_value :
    Paxos → ℕ → List Round → Paxos × Option (Option SyncPaxosValueReply)
unfolding synced finish_sync
sync_paxos_value px s rs =
    let (px', slot) = get_time_slot_value (get_time_slot_lock px s) s in
    let (px'', v) = start_helper px' s (some no_op_value) rs in
    if slot.is_decided then (px', some (some (synced slot))) else finish_sync px'' s v
