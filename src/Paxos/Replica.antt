-- ===== src/Paxos/Replica.antt =====
-- p3/src/github.com/cmu440/flight_reservation/paxos/paxos.go: the state of a Paxos peer and the
-- calls that it serves. Each handler runs under the lock of its slot, so it is one step here. The
-- reply that a caller passes in is the zero reply.
use projects.Common.{
  ℕ, ◌≡◌, ite, String, Bool, true, false, Option, none, some, List, [], ◌∷◌, ltb, leb,
  if◌then◌else◌, lookup, insert, lookup-insert, ℕ_discrete, ℤ, arith,
}
use projects.Paxos.Rpc.{
  Status, PaxosValue, PrepareArgs, PrepareReply, AcceptArgs, AcceptReply, DecideArgs, PutArgs,
  UpdatePeersArgs,
}

pub record TimeSlotValue : Type 0 where
  pub value : Option PaxosValue
  pub is_decided : Bool
  pub seq_num_accepted : ℕ
  pub seq_num_highest : ℕ

-- A `net.Listener`: nil, or one that is open or closed.
pub data Listener : Type 0 where
  nil opened closed : Listener

-- `time_slot_lock` holds the slots whose lock exists.
pub record Paxos : Type 0 where
  pub l : Listener
  pub deaf : Bool
  pub peers : List String
  pub me : ℕ
  pub time_slot : List (ℕ × TimeSlotValue)
  pub time_slot_lock : List ℕ
  pub is_locked : Bool
  pub max_done : List (ℕ × ℤ)
  pub max_decided_slot : ℕ
  pub min_undecided_slot : ℕ

unfoldable pub get_max : ℕ → ℕ → ℕ
get_max a b = if ltb b a then a else b

unfoldable pub get_min : ℕ → ℕ → ℕ
get_min a b = if ltb a b then a else b

abbrev pub new_slot : TimeSlotValue
new_slot = record { value = none; is_decided = false; seq_num_accepted = 0; seq_num_highest = 0 }

-- A write through the pointer that the map holds for the slot.
unfoldable pub write_slot : Paxos → ℕ → TimeSlotValue → Paxos
write_slot px s v = record px { time_slot = insert ℕ_discrete s v px.time_slot }

slot_or_new : Option TimeSlotValue → TimeSlotValue
slot_or_new none = new_slot
slot_or_new (some v) = v

-- What a handler reads of a slot: a missing one reads as a new one.
unfoldable pub slot_of : Paxos → ℕ → TimeSlotValue
unfolding slot_or_new
slot_of px s = slot_or_new (lookup ℕ_discrete s px.time_slot)

pub slot_of-write_slot :
    (px : Paxos) (s t : ℕ) (v : TimeSlotValue)
    → slot_of (write_slot px s v) t ≡ ite (ℕ_discrete s t) v (slot_of px t)
unfolding slot_of write_slot
slot_of-write_slot px s t v = ground (arith, lookup-insert ℕ_discrete s t v px.time_slot)

unfoldable pub get_time_slot_value : Paxos → ℕ → Paxos × TimeSlotValue
get_time_slot_value px s = elim (lookup ℕ_discrete s px.time_slot) [
  | none ↦ (write_slot px s new_slot, new_slot)
  | some v ↦ (px, v)
]

pub get_time_slot_value_lem :
    (px : Paxos) (s t : ℕ)
    → ((get_time_slot_value px s).1 ≡ slot_of px s)
      × (slot_of (get_time_slot_value px s).0 t ≡ slot_of px t)
unfolding get_time_slot_value slot_of
get_time_slot_value_lem px s t = ground (arith, slot_of-write_slot px s t new_slot)

mem_lock : ℕ → List ℕ → Bool
mem_lock s [] = false
mem_lock s (t ∷ ts) = ite (ℕ_discrete t s) true (mem_lock s ts)

unfoldable pub get_time_slot_lock : Paxos → ℕ → Paxos
unfolding mem_lock
get_time_slot_lock px s =
    if mem_lock s px.time_slot_lock
    then px
    else record px { time_slot_lock = s ∷ px.time_slot_lock }

unfoldable pub prepare : Paxos → PrepareArgs → Paxos × PrepareReply
prepare px args =
    let (px', slot) = get_time_slot_value (get_time_slot_lock px args.slot_num) args.slot_num in
    if ltb slot.seq_num_highest args.seq_num
    then (
      write_slot px' args.slot_num (record slot { seq_num_highest = args.seq_num }),
      record {
        status = Status.ok;
        seq_num_accepted = slot.seq_num_accepted;
        value_accepted = slot.value;
        seq_num_highest = 0;
      },
    )
    else (
      px',
      record {
        status = Status.reject;
        seq_num_accepted = 0;
        value_accepted = none;
        seq_num_highest = slot.seq_num_highest;
      },
    )

unfoldable pub accept : Paxos → AcceptArgs → Paxos × AcceptReply
accept px args =
    let (px', slot) = get_time_slot_value (get_time_slot_lock px args.slot_num) args.slot_num in
    if leb slot.seq_num_highest args.seq_num
    then (
      write_slot px' args.slot_num (record slot {
        seq_num_accepted = args.seq_num;
        seq_num_highest = args.seq_num;
        value = args.value;
      }),
      record { status = Status.ok; seq_num_highest = 0 },
    )
    else (px', record { status = Status.reject; seq_num_highest = slot.seq_num_highest })

unfoldable pub decide : Paxos → DecideArgs → Paxos × Status
unfolding get_max
decide px args =
    let (px', slot) = get_time_slot_value (get_time_slot_lock px args.slot_num) args.slot_num in
    let px'' =
      write_slot px' args.slot_num (record slot { value = args.value; is_decided = true }) in
    (record px'' { max_decided_slot = get_max px''.max_decided_slot args.slot_num }, Status.ok)

unfoldable pub put : Paxos → PutArgs → Paxos × Status
unfolding get_max
put px args =
    let (px', slot) = get_time_slot_value (get_time_slot_lock px args.slot_num) args.slot_num in
    let px'' = write_slot px' args.slot_num (record {
      value = args.value;
      is_decided = true;
      seq_num_accepted = args.seq_num_accepted;
      seq_num_highest = args.seq_num_highest;
    }) in
    if slot.is_decided
    then (px', Status.reject)
    else (record px'' { max_decided_slot = get_max px''.max_decided_slot args.slot_num }, Status.ok)

-- `GetPeers` returns before it fills in the reply.
unfoldable pub get_peers : Paxos → Paxos × Status × List String
get_peers px = (px, Status.unset, [])

unfoldable pub update_peers : Paxos → UpdatePeersArgs → Paxos × Status
update_peers px args = (record px { peers = args.peers; me = args.me }, Status.ok)

unfoldable pub set_lock : Paxos → Bool → Paxos × Status
set_lock px lock = (record px { is_locked = lock }, Status.ok)

unfoldable pub check_status : Paxos → Status × List String
check_status px = (Status.ok, px.peers)

close_listener : Listener → Listener
close_listener Listener.nil = Listener.nil
close_listener Listener.opened = Listener.closed
close_listener Listener.closed = Listener.closed

unfoldable pub remote_kill : Paxos → Paxos × Status
unfolding close_listener
remote_kill px = (record px { deaf = true; l = close_listener px.l }, Status.ok)

unfoldable pub deafen : Paxos → Paxos
unfolding close_listener
deafen px = record px { deaf = true; l = close_listener px.l }

-- The new listener is tried until it opens.
unfoldable pub wake : Paxos → Paxos
wake px = if px.deaf then record px { deaf = false; l = Listener.opened } else px

unfoldable pub max_decided : Paxos → Status × ℕ
max_decided px = (Status.ok, px.max_decided_slot)

-- `none` is the error of a locked instance.
unfoldable pub status : Paxos → ℕ → Paxos × Option (Bool × Option PaxosValue)
status px s =
    let (px', slot) = get_time_slot_value (get_time_slot_lock px s) s in
    if px.is_locked then (px, none) else (px', some (slot.is_decided, slot.value))
