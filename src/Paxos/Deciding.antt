-- ===== src/Paxos/Deciding.antt =====
-- paxos.go: a call of `Start` decides its own value when most of the other peers answer with OK.
use projects.Common.{
  String, ℕ, ◌+◌, ◌/◌, ◌≤◌, ◌<◌, ◌≡◌, refl, sym, ap, ◌∙◌, subst, inl, inr, Bool, true, false,
  Option, none, some, List, [], ◌∷◌, ◌++◌, All, Any, leb, if◌then◌else◌, length, ℤ, lookup,
  ℕ_discrete, arith,
}
use projects.Paxos.Rpc.{PaxosValue, PrepareArgs, PrepareReply, AcceptReply, AcceptArgs, DecideArgs}
use projects.Paxos.Replica.{
  Paxos, slot_of, prepare, accept, decide, get_time_slot_value, get_time_slot_lock, write_slot,
}
use projects.Paxos.Slots.{enter_lem}
use projects.Paxos.Proposer.{
  Call, Round, Outcome, serve, serve_all, arrivals, collect_prepares, accept_phase, decide_phase,
  prepare_phase, next_seq_num, round, rounds, start_helper, start, max_done_of,
}
use projects.Paxos.Rounds.{counts, count_ok, start_tally, collect_prepares-Read}
use projects.Paxos.Majority.{count_accepts, Decides, accept_phase-Decides}

-- The replies of the other peers.
abbrev pub others {ℓ} : {A : Type ℓ} → List (Option A) → List A
others [] = []
others (none ∷ rs) = others rs
others (some r ∷ rs) = r ∷ others rs

-- A round in which a majority of the peers, without this one, answers OK in both phases, none of the
-- replies to its `Prepare` reports an accepted number, and nothing is served before its `Prepare`.
pub record Favourable (peers : List String) (rd : Round) : Type 0 where
  pub first : rd.before_prepare ≡ []
  pub prepared : length peers / 2 < count_ok (others rd.prepare_replies)
  pub unaccepted : All (λ r. r.1.seq_num_accepted ≡ 0) (others rd.prepare_replies)
  pub accepted : length peers / 2 < count_accepts (others rd.accept_replies)

count_ok-arrivals :
    (own : Bool × PrepareReply) (rs : List (Option (Bool × PrepareReply)))
    → count_ok (others rs) ≤ count_ok (arrivals own rs)
unfolding arrivals
count_ok-arrivals own [] = omega arith
count_ok-arrivals own (none ∷ rs) = ground (arith, count_ok-arrivals own rs)
count_ok-arrivals own (some r ∷ rs) = ground (arith, count_ok-arrivals own rs)

count_accepts-arrivals :
    (own : Bool × AcceptReply) (rs : List (Option (Bool × AcceptReply)))
    → count_accepts (others rs) ≤ count_accepts (arrivals own rs)
unfolding arrivals
count_accepts-arrivals own [] = omega arith
count_accepts-arrivals own (none ∷ rs) = ground (arith, count_accepts-arrivals own rs)
count_accepts-arrivals own (some r ∷ rs) = ground (arith, count_accepts-arrivals own rs)

All-arrivals :
    {A : Type 0} (P : A → Type 0) (own : A) (rs : List (Option A))
    → P own
    → All P (others rs)
    → All P (arrivals own rs)
unfolding arrivals
All-arrivals P own [] p a = tt
All-arrivals P own (none ∷ rs) p a = (p, All-arrivals P own rs p a)
All-arrivals P own (some r ∷ rs) p a = (a.0, All-arrivals P own rs p a.1)

-- The first replies of a list count among all, and none of them is above 0 if none of all is.
count_ok-append :
    (xs ys : List (Bool × PrepareReply)) → count_ok (xs ++ ys) ≡ count_ok xs + count_ok ys
count_ok-append [] ys = omega arith
count_ok-append (x ∷ xs) ys = ground (arith, count_ok-append xs ys)

none_above :
    (xs ys : List (Bool × PrepareReply)) (top : ℕ) (v : Option PaxosValue)
    → All (λ r. r.1.seq_num_accepted ≡ 0) (xs ++ ys)
    → Any
        (λ r.
          (counts r ≡ true)
          × (0 < r.1.seq_num_accepted)
          × (r.1.seq_num_accepted ≡ top)
          × (r.1.value_accepted ≡ v))
        xs
    → ⊥
none_above [] ys top v zero a = elim a [ ]
none_above (x ∷ xs) ys top v zero (inl (ok, above, most, same)) = omega (arith, zero.0, above)
none_above (x ∷ xs) ys top v zero (inr a) = none_above xs ys top v zero.1 a

-- The tally of a favourable prepare phase.
collect_favourable :
    (n : ℕ) (v : Option PaxosValue) (rs : List (Bool × PrepareReply))
    → n / 2 < count_ok rs
    → All (λ r. r.1.seq_num_accepted ≡ 0) rs
    → (n / 2 < (collect_prepares n (start_tally v) rs).num_ok)
      × ((collect_prepares n (start_tally v) rs).propose_value ≡ v)
collect_favourable n v rs most zero =
    let rd = collect_prepares-Read n (start_tally v) rs in
    let split : rs ≡ rd.seen ++ rd.unseen = rd.split in
    (
      elim (rd.stopped) [
        | inl enough ↦ enough
        | inr e ↦
            let all : count_ok rs ≡ count_ok rd.seen + 0 =
              ap count_ok split
              ∙ count_ok-append rd.seen rd.unseen
              ∙ ap (λ l. count_ok rd.seen + count_ok l) e in
            omega (arith, all, most, rd.counted.total)
      ],
      elim (rd.counted.source) [
        | inl (top, same) ↦ same
        | inr a ↦ absurd (
            none_above rd.seen rd.unseen _ _
              (subst (All (λ r. r.1.seq_num_accepted ≡ 0)) split zero) a)
      ],
    )

prepare-unaccepted :
    (px : Paxos) (a : PrepareArgs)
    → (slot_of px a.slot_num).seq_num_accepted ≡ 0
    → (prepare px a).1.seq_num_accepted ≡ 0
unfolding prepare
prepare-unaccepted px a e = ground (arith, e, enter_lem px a.slot_num a.slot_num)

prepare-peers : (px : Paxos) (a : PrepareArgs) → (prepare px a).0.peers ≡ px.peers
unfolding prepare write_slot get_time_slot_value get_time_slot_lock
prepare-peers px a = ground arith

prepare-is_locked : (px : Paxos) (a : PrepareArgs) → (prepare px a).0.is_locked ≡ px.is_locked
unfolding prepare write_slot get_time_slot_value get_time_slot_lock
prepare-is_locked px a = ground arith

accept-is_locked : (px : Paxos) (a : AcceptArgs) → (accept px a).0.is_locked ≡ px.is_locked
unfolding accept write_slot get_time_slot_value get_time_slot_lock
accept-is_locked px a = ground arith

decide-is_locked : (px : Paxos) (a : DecideArgs) → (decide px a).0.is_locked ≡ px.is_locked
unfolding decide write_slot get_time_slot_value get_time_slot_lock
decide-is_locked px a = ground arith

serve_all-is_locked : (px : Paxos) (cs : List Call) → (serve_all px cs).is_locked ≡ px.is_locked
unfolding serve_all serve
serve_all-is_locked px [] = refl
serve_all-is_locked px (Call.prepares a ∷ cs) =
    serve_all-is_locked (prepare px a).0 cs ∙ prepare-is_locked px a
serve_all-is_locked px (Call.accepts a ∷ cs) =
    serve_all-is_locked (accept px a).0 cs ∙ accept-is_locked px a
serve_all-is_locked px (Call.decides a ∷ cs) =
    serve_all-is_locked (decide px a).0 cs ∙ decide-is_locked px a

abbrev peer_of : Outcome → Paxos
peer_of (Outcome.retry px highest) = px
peer_of (Outcome.decided px v) = px

accept_phase-is_locked :
    (px : Paxos) (slot : ℕ) (r : Round) (seq_num : ℕ) (v : Option PaxosValue)
    → (peer_of (accept_phase px slot r seq_num v)).is_locked ≡ px.is_locked
unfolding accept_phase decide_phase
accept_phase-is_locked px slot r seq_num v =
    let px₁ = serve_all px r.before_accept in
    let a : AcceptArgs = record { slot_num = slot; seq_num = seq_num; value = v } in
    let d : DecideArgs = record { slot_num = slot; value = v } in
    let px₂ = (accept px₁ a).0 in
    ground (
      arith,
      serve_all-is_locked px r.before_accept,
      accept-is_locked px₁ a,
      serve_all-is_locked px₂ r.before_decide,
      decide-is_locked (serve_all px₂ r.before_decide) d,
    )

abbrev prepare_args : Paxos → ℕ → ℤ → ℕ → PrepareArgs
prepare_args px slot done seq_num = record {
  slot_num = slot;
  seq_num = seq_num;
  peer_num = px.me;
  max_done = done;
}

-- A favourable round goes on to its accept phase with the caller's own value.
prepare_phase-Favourable :
    (px : Paxos) (slot : ℕ) (v : Option PaxosValue) (done : ℤ) (seq_num : ℕ) (rd : Round)
    → Favourable px.peers rd
    → (slot_of px slot).seq_num_accepted ≡ 0
    → prepare_phase px slot v done seq_num rd
      ≡ accept_phase (prepare px (prepare_args px slot done seq_num)).0 slot rd seq_num v
unfolding prepare_phase serve_all
prepare_phase-Favourable px slot v done seq_num rd f zero =
    let n = length px.peers in
    let own : Bool × PrepareReply = (true, (prepare px (prepare_args px slot done seq_num)).1) in
    let rs = arrivals own rd.prepare_replies in
    let (enough, value) =
      collect_favourable n v rs
        (omega (arith, f.prepared, count_ok-arrivals own rd.prepare_replies))
        (All-arrivals (λ r. r.1.seq_num_accepted ≡ 0) own rd.prepare_replies
          (prepare-unaccepted px (prepare_args px slot done seq_num) zero) f.unaccepted) in
    let test : leb (collect_prepares n (start_tally v) rs).num_ok (n / 2) ≡ false =
      ground (arith, enough) in
    rw f.first (rw (test, value) refl)

-- What a call of `Start` has done when it returns: the peer's slot is decided with the value, and the
-- administrator's lock is as it was.
pub record Started (px : Paxos) (slot : ℕ) (v : Option PaxosValue) (rs : List Round) : Type 0 where
  pub peer : Paxos
  pub returns : start px slot v rs ≡ some (peer, some v)
  pub is_decided : (slot_of peer slot).is_decided ≡ true
  pub value : (slot_of peer slot).value ≡ v
  pub is_unlocked : peer.is_locked ≡ false

accept_favourable :
    (px : Paxos) (slot : ℕ) (rd : Round) (seq_num : ℕ) (v : Option PaxosValue)
    → length px.peers / 2 < count_accepts (others rd.accept_replies)
    → Decides slot v (accept_phase px slot rd seq_num v)
accept_favourable px slot rd seq_num v most = accept_phase-Decides px slot rd seq_num v (
    let own : Bool × AcceptReply = (
      true,
      (accept (serve_all px rd.before_accept)
          (record { slot_num = slot; seq_num = seq_num; value = v })).1,
    ) in
    omega (arith, most, count_accepts-arrivals own rd.accept_replies))

rounds_one :
    (px peer : Paxos) (slot : ℕ) (v w : Option PaxosValue) (done : ℤ) (highest : ℕ) (rd : Round)
    → round px slot v done highest rd ≡ Outcome.decided peer w
    → rounds px slot v done highest (rd ∷ []) ≡ (peer, some w)
unfolding rounds
rounds_one px peer slot v w done highest rd e = rw (rounds, e) refl

rounds_decides :
    (px : Paxos) (slot : ℕ) (v : Option PaxosValue) (done : ℤ) (highest : ℕ) (rd : Round)
    → Favourable px.peers rd
    → (slot_of px slot).seq_num_accepted ≡ 0
    → px.is_locked ≡ false
    → (peer : Paxos) × (rounds px slot v done highest (rd ∷ []) ≡ (peer, some v))
      × ((slot_of peer slot).is_decided ≡ true)
      × ((slot_of peer slot).value ≡ v)
      × (peer.is_locked ≡ false)
unfolding round
rounds_decides px slot v done highest rd f zero unlocked =
    let seq_num = next_seq_num rd.now (length px.peers) px.me highest in
    let args = prepare_args px slot done seq_num in
    let px₁ = (prepare px args).0 in
    let phase = prepare_phase-Favourable px slot v done seq_num rd f zero in
    let most : length px₁.peers / 2 < count_accepts (others rd.accept_replies) =
      rw (prepare-peers px args) f.accepted in
    let d = accept_favourable px₁ slot rd seq_num v most in
    let free : d.px.is_locked ≡ false =
      sym (ap (λ o. (peer_of o).is_locked) d.outcome)
      ∙ accept_phase-is_locked px₁ slot rd seq_num v
      ∙ prepare-is_locked px args
      ∙ unlocked in
    (
      d.px,
      rounds_one px d.px slot v v done highest rd (phase ∙ d.outcome),
      d.own_decided,
      d.own_value,
      free,
    )

unfoldable pub entered : Paxos → ℕ → Paxos
entered px s = (get_time_slot_value (get_time_slot_lock px s) s).0

pub entered-peers : (px : Paxos) (s : ℕ) → (entered px s).peers ≡ px.peers
unfolding entered get_time_slot_value get_time_slot_lock write_slot
entered-peers px s = ground arith

pub entered-is_locked : (px : Paxos) (s : ℕ) → (entered px s).is_locked ≡ px.is_locked
unfolding entered get_time_slot_value get_time_slot_lock write_slot
entered-is_locked px s = ground arith

pub entered-slot_of : (px : Paxos) (s t : ℕ) → slot_of (entered px s) t ≡ slot_of px t
unfolding entered
entered-slot_of px s t = (enter_lem px s t).1

start_unlocked :
    (px : Paxos) (slot : ℕ) (v : Option PaxosValue) (rs : List Round)
    → px.is_locked ≡ false
    → start px slot v rs ≡ some (start_helper px slot v rs)
unfolding start
start_unlocked px slot v rs unlocked =
    ap (λ (b : Bool). if b then none else some (start_helper px slot v rs)) unlocked

-- A call of `Start` decides its own value and returns, with one favourable round, if the peer is not
-- under maintenance and has accepted nothing in the slot.
pub start-Started :
    (px : Paxos) (slot : ℕ) (v : Option PaxosValue) (rd : Round)
    → px.is_locked ≡ false
    → (slot_of px slot).seq_num_accepted ≡ 0
    → Favourable px.peers rd
    → Started px slot v (rd ∷ [])
unfolding start_helper entered
start-Started px slot v rd unlocked zero f =
    let e = entered px slot in
    let (peer, ends, decided, value, free) =
      rounds_decides e slot v (max_done_of (lookup ℕ_discrete px.me px.max_done))
        (get_time_slot_value (get_time_slot_lock px slot) slot).1.seq_num_highest rd
        (subst (λ l. Favourable l rd) (sym (entered-peers px slot)) f)
        (ap (λ x. x.seq_num_accepted) (entered-slot_of px slot slot) ∙ zero)
        (entered-is_locked px slot ∙ unlocked) in
    record {
      peer = peer;
      returns = start_unlocked px slot v (rd ∷ []) unlocked ∙ ap some ends;
      is_decided = decided;
      value = value;
      is_unlocked = free;
    }
