-- ===== src/Paxos/Walk.antt =====
-- paxos.go: what `MinUndecidedSlot` and `CheckSlot` report of the log.
use native.Mathlib.Nat.{add-zero, zero-add}
use projects.Common.{
  ℕ, zero, suc, ◌+◌, ◌≤◌, ◌<◌, ◌≡◌, refl, ◌∙◌, ap, inl, inr, true, false, some, Bool-cases, dec_lt,
  subst, if◌then◌else◌, get_elem?, length, arith,
}
use projects.Paxos.Replica.{Paxos, slot_of, get_time_slot_value, get_time_slot_lock}
use projects.Paxos.Slots.{enter_lem, lock_lem}
use projects.Paxos.Promises.{SlotsValid}
use projects.Paxos.Admin.{undecided_from, min_undecided, check_slots, check_slot}

-- `s` is the least undecided slot of `px` from `from` on, and `px'` has the same slots.
pub record LeastUndecided (px : Paxos) (from : ℕ) (px' : Paxos) (s : ℕ) : Type 0 where
  pub from_le : from ≤ s
  pub open_slot : (slot_of px s).is_decided ≡ false
  pub decided_below : (t : ℕ) → from ≤ t → t < s → (slot_of px t).is_decided ≡ true
  pub same_slots : (t : ℕ) → slot_of px' t ≡ slot_of px t

enter-SlotsValid :
    (px : Paxos) (s : ℕ)
    → SlotsValid px
    → SlotsValid (get_time_slot_value (get_time_slot_lock px s) s).0
enter-SlotsValid px s v = record {
  ordered = λ t. ground (arith, enter_lem px s t, v.ordered t);
  bounded = λ t h. ground (arith, enter_lem px s t, v.bounded t);
}

after_decided :
    (px : Paxos) (s : ℕ) (px' : Paxos) (m : ℕ)
    → (slot_of px s).is_decided ≡ true
    → LeastUndecided (get_time_slot_value (get_time_slot_lock px s) s).0 (suc s) px' m
    → LeastUndecided px s px' m
after_decided px s px' m d least = record {
  from_le = omega (arith, least.from_le);
  open_slot = ground (arith, enter_lem px s m, least.open_slot);
  decided_below = λ t a b. elim (dec_lt s t) [
    | yes lt ↦ ground (arith, enter_lem px s t, least.decided_below t lt b)
    | no ge ↦ let e : s ≡ t = omega arith in subst (λ k. (slot_of px k).is_decided ≡ true) e d
  ];
  same_slots = λ t. least.same_slots t ∙ (enter_lem px s t).1;
}

undecided_from-Least :
    (fuel : ℕ) (px : Paxos) (s : ℕ)
    → SlotsValid px
    → 0 < fuel
    → px.max_decided_slot + 2 ≤ s + fuel
    → (px' : Paxos) × (m : ℕ) × (undecided_from fuel px s ≡ some (px', m))
      × LeastUndecided px s px' m
unfolding undecided_from
undecided_from-Least zero px s v pos h = absurd (omega arith)
undecided_from-Least (suc fuel) px s v pos h =
    let e = get_time_slot_value (get_time_slot_lock px s) s in
    elim (Bool-cases e.1.is_decided) [
      | inl d ↦
          let d' : (slot_of px s).is_decided ≡ true = ground (arith, enter_lem px s s) in
          let (px', m, run, least) =
            undecided_from-Least fuel e.0 (suc s) (enter-SlotsValid px s v)
              (omega (arith, v.bounded s d')) (omega (arith, enter_lem px s s)) in
          (px', m, rw (d, if◌then◌else◌) run, after_decided px s px' m d' least)
      | inr u ↦ (
        e.0,
        s,
        rw u,
        record {
          from_le = omega arith;
          open_slot = ground (arith, enter_lem px s s);
          decided_below = λ t a b. absurd (omega arith);
          same_slots = λ t. (enter_lem px s t).1;
        },
      )
    ]

-- The walk of `MinUndecidedSlot`, which no other call interrupts or makes wait for a lock, ends on every
-- peer whose slots are valid: it reports the least undecided slot that is not below the one that it
-- remembers, remembers it, and changes no slot.
pub min_undecided-Least :
    (px : Paxos)
    → SlotsValid px
    → (px' : Paxos) × (m : ℕ) × (min_undecided px ≡ some (px', m))
      × (px'.min_undecided_slot ≡ m)
      × LeastUndecided px px.min_undecided_slot px' m
unfolding min_undecided slot_of
min_undecided-Least px v =
    let (px', m, run, least) =
      undecided_from-Least (px.max_decided_slot + 2) px px.min_undecided_slot v (omega arith)
        (omega arith) in
    (
      record px' { min_undecided_slot = m },
      m,
      rw run,
      refl,
      record {
        from_le = least.from_le;
        open_slot = least.open_slot;
        decided_below = least.decided_below;
        same_slots = least.same_slots;
      },
    )

check_slots_lem :
    (px : Paxos) (count i k : ℕ)
    → (length (check_slots px count i).1 ≡ count)
      × (k < count
          → get_elem? (check_slots px count i).1 k
            ≡ some (record {
              value = (slot_of px (i + k)).value;
              is_decided = (slot_of px (i + k)).is_decided;
            }))
unfolding check_slots slot_of
check_slots_lem px zero i k = (refl, λ h. absurd (omega arith))
check_slots_lem px (suc count) i zero = (
  ap suc (check_slots_lem (get_time_slot_lock px i) count (suc i) 0).0,
  λ h. rw (add-zero i) (ground arith),
)
check_slots_lem px (suc count) i (suc k) =
    let e : suc i + k ≡ i + suc k = omega arith in
    let rest = check_slots_lem (get_time_slot_lock px i) count (suc i) k in
    (ap suc rest.0, λ h. rest.1 (omega arith) ∙ (rw (e, (lock_lem px i (i + suc k)).0)))

-- `CheckSlot` reports one entry for each slot from 0 to `maxDecidedSlot`: the entry at a place in
-- that range is the slot's value and whether it is decided.
pub check_slot_lem :
    (px : Paxos) (k : ℕ)
    → k ≤ px.max_decided_slot
    → let slots = (check_slot px).2 in
      (length slots ≡ px.max_decided_slot + 1)
      × (get_elem? slots k
          ≡ some (record { value = (slot_of px k).value; is_decided = (slot_of px k).is_decided }))
unfolding check_slot
check_slot_lem px k h =
    let walk = check_slots_lem px (suc px.max_decided_slot) 0 k in
    (omega (arith, walk.0), rw (zero-add k) at (walk.1 (omega arith)))
