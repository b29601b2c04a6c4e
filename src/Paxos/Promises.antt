-- ===== src/Paxos/Promises.antt =====
-- paxos.go: what a peer that has answered `Prepare` holds to, whatever calls it serves later.
use projects.Common.{ℕ, ◌≤◌, ◌<◌, ◌≡◌, true, List, [], ◌∷◌, ite, ℕ_discrete, arith}
use projects.Paxos.Rpc.{Status, PrepareArgs, AcceptArgs, DecideArgs, PutArgs}
use projects.Paxos.Replica.{Paxos, TimeSlotValue, slot_of, get_max, prepare, accept, decide, put}
use projects.Paxos.Slots.{
  enter_lem, prepared, accepted, slot_of-prepare, slot_of-accept, slot_of-decide, slot_of-put,
  max-prepare, max-accept, max-decide, max-put,
}
use projects.Paxos.Proposer.{Call, serve, serve_all}

-- The slot after one call, from the slot before it.
pub serve_slot : Call → ℕ → TimeSlotValue → TimeSlotValue
serve_slot (Call.prepares a) t v = ite (ℕ_discrete a.slot_num t) (prepared v a.seq_num) v
serve_slot (Call.accepts a) t v = ite (ℕ_discrete a.slot_num t) (accepted v a) v
serve_slot (Call.decides a) t v =
    ite (ℕ_discrete a.slot_num t) (record v { value = a.value; is_decided = true }) v

slot_of-serve :
    (px : Paxos) (c : Call) (t : ℕ) → slot_of (serve px c) t ≡ serve_slot c t (slot_of px t)
unfolding serve serve_slot
slot_of-serve px (Call.prepares a) t = slot_of-prepare px a t
slot_of-serve px (Call.accepts a) t = slot_of-accept px a t
slot_of-serve px (Call.decides a) t = slot_of-decide px a t

serve_slot_mono :
    (c : Call) (t : ℕ) (v : TimeSlotValue) → v.seq_num_highest ≤ (serve_slot c t v).seq_num_highest
unfolding serve_slot
serve_slot_mono (Call.prepares a) t v = ground arith
serve_slot_mono (Call.accepts a) t v = ground arith
serve_slot_mono (Call.decides a) t v = ground arith

pub serve_all_mono :
    (px : Paxos) (cs : List Call) (t : ℕ)
    → (slot_of px t).seq_num_highest ≤ (slot_of (serve_all px cs) t).seq_num_highest
unfolding serve_all
serve_all_mono px [] t = omega arith
serve_all_mono px (c ∷ cs) t = ground (
  arith,
  slot_of-serve px c t,
  serve_slot_mono c t (slot_of px t),
  serve_all_mono (serve px c) cs t,
)

prepare_raises :
    (px : Paxos) (a : PrepareArgs)
    → a.seq_num ≤ (slot_of (prepare px a).0 a.slot_num).seq_num_highest
prepare_raises px a = ground (arith, slot_of-prepare px a a.slot_num)

pub accept_rejects :
    (px : Paxos) (b : AcceptArgs)
    → b.seq_num < (slot_of px b.slot_num).seq_num_highest
    → (accept px b).1.status ≡ Status.reject
unfolding accept
accept_rejects px b h = ground (arith, enter_lem px b.slot_num b.slot_num)

-- A `Prepare` binds the peer: after it and any calls of other peers, an `Accept` for the slot with
-- a smaller number is rejected, and leaves every slot as it was.
pub promise_kept :
    (px : Paxos) (a : PrepareArgs) (cs : List Call) (b : AcceptArgs) (t : ℕ)
    → b.slot_num ≡ a.slot_num
    → b.seq_num < a.seq_num
    → let px' = serve_all (prepare px a).0 cs in
      ((accept px' b).1.status ≡ Status.reject) × (slot_of (accept px' b).0 t ≡ slot_of px' t)
promise_kept px a cs b t e lt =
    let px' = serve_all (prepare px a).0 cs in
    let above : b.seq_num < (slot_of px' b.slot_num).seq_num_highest =
      rw e (omega (arith, prepare_raises px a, serve_all_mono (prepare px a).0 cs a.slot_num)) in
    (accept_rejects px' b above, rw (slot_of-accept px' b t) (ground arith))

-- What holds of every slot of a peer between two calls.
pub record SlotsValid (px : Paxos) : Type 0 where
  pub ordered : (t : ℕ) → (slot_of px t).seq_num_accepted ≤ (slot_of px t).seq_num_highest
  pub bounded : (t : ℕ) → (slot_of px t).is_decided ≡ true → t ≤ px.max_decided_slot

prepare-SlotsValid : (px : Paxos) (a : PrepareArgs) → SlotsValid px → SlotsValid (prepare px a).0
prepare-SlotsValid px a v = record {
  ordered = λ t. ground (arith, slot_of-prepare px a t, v.ordered t);
  bounded = λ t h. ground (arith, slot_of-prepare px a t, max-prepare px a, v.bounded t);
}

accept-SlotsValid : (px : Paxos) (a : AcceptArgs) → SlotsValid px → SlotsValid (accept px a).0
accept-SlotsValid px a v = record {
  ordered = λ t. ground (arith, slot_of-accept px a t, v.ordered t);
  bounded = λ t h. ground (arith, slot_of-accept px a t, max-accept px a, v.bounded t);
}

get_max_lem : (a b : ℕ) → (a ≤ get_max a b) × (b ≤ get_max a b)
unfolding get_max
get_max_lem a b = ground arith

decide-SlotsValid : (px : Paxos) (a : DecideArgs) → SlotsValid px → SlotsValid (decide px a).0
decide-SlotsValid px a v = record {
  ordered = λ t. ground (arith, slot_of-decide px a t, v.ordered t);
  bounded = λ t h. ground (
    arith,
    slot_of-decide px a t,
    max-decide px a,
    v.bounded t,
    get_max_lem px.max_decided_slot a.slot_num,
  );
}

-- A peer that serves any call of another peer keeps each slot's accepted number at most its
-- highest, and every decided slot at most `maxDecidedSlot`.
pub serve-SlotsValid : (px : Paxos) (c : Call) → SlotsValid px → SlotsValid (serve px c)
unfolding serve
serve-SlotsValid px (Call.prepares a) v = prepare-SlotsValid px a v
serve-SlotsValid px (Call.accepts a) v = accept-SlotsValid px a v
serve-SlotsValid px (Call.decides a) v = decide-SlotsValid px a v

-- If the accepted number that the administrator gives is at most the highest, `Put` keeps each
-- slot's accepted number at most its highest, and every decided slot at most `maxDecidedSlot`.
pub put-SlotsValid :
    (px : Paxos) (a : PutArgs)
    → a.seq_num_accepted ≤ a.seq_num_highest
    → SlotsValid px
    → SlotsValid (put px a).0
put-SlotsValid px a le v = record {
  ordered = λ t. ground (arith, slot_of-put px a t, v.ordered t);
  bounded = λ t h. ground (
    arith,
    slot_of-put px a t,
    max-put px a,
    v.bounded t,
    get_max_lem px.max_decided_slot a.slot_num,
  );
}
