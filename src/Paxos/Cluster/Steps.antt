-- ===== src/Paxos/Cluster/Steps.antt =====
-- paxos.go: every step of the cluster keeps it consistent.
use projects.Common.{
  ℕ, ◌≤◌, ◌<◌, ◌≡◌, ◌≢◌, sym, ap, subst, inl, inr, true, Option, [], ◌∷◌, ◌==◌, Bool-cases, arith,
}
use projects.Paxos.Rpc.{Status, PaxosValue, PrepareArgs, AcceptArgs, DecideArgs}
use projects.Paxos.Replica.{Paxos, TimeSlotValue, slot_of, new_slot, prepare, accept, decide}
use projects.Paxos.Slots.{enter_lem, slot_of-prepare, slot_of-accept, slot_of-decide}
use projects.Paxos.Proposer.{Call, serve}
use projects.Paxos.Quorum.{In}
use projects.Paxos.Cluster.{System, Proposal, update, slot_of_call, Step, Reach}
use projects.Paxos.Cluster.History.{history, ChosenAt, Later}
use projects.Paxos.Cluster.Consistent.{Consistent, Proposed-pos}
use projects.Paxos.Cluster.Promising.{set_slot, Consistent-same, promise-Consistent}
use projects.Paxos.Cluster.Voting.{propose-Consistent, vote-Consistent, decide-Consistent}
use projects.Paxos.Cluster.Tallies.{Prepares-Prepared, Accepts-ChosenAt}

prepare_ok :
    (px : Paxos) (a : PrepareArgs)
    → (prepare px a).1.status ≡ Status.ok
    → ((slot_of px a.slot_num).seq_num_highest < a.seq_num)
      × ((prepare px a).1.seq_num_accepted ≡ (slot_of px a.slot_num).seq_num_accepted)
      × ((prepare px a).1.value_accepted ≡ (slot_of px a.slot_num).value)
unfolding prepare
prepare_ok px a = ground (arith, enter_lem px a.slot_num a.slot_num)

prepare_rejected :
    (px : Paxos) (a : PrepareArgs) (t : ℕ)
    → (prepare px a).1.status ≡ Status.reject
    → slot_of (prepare px a).0 t ≡ slot_of px t
unfolding prepare
prepare_rejected px a t = ground (arith, enter_lem px a.slot_num t)

accept_ok :
    (px : Paxos) (a : AcceptArgs)
    → (accept px a).1.status ≡ Status.ok
    → (slot_of px a.slot_num).seq_num_highest ≤ a.seq_num
unfolding accept
accept_ok px a = ground (arith, enter_lem px a.slot_num a.slot_num)

accept_rejected :
    (px : Paxos) (a : AcceptArgs) (t : ℕ)
    → (accept px a).1.status ≡ Status.reject
    → slot_of (accept px a).0 t ≡ slot_of px t
unfolding accept
accept_rejected px a t = ground (arith, enter_lem px a.slot_num t)

serve_elsewhere :
    (px : Paxos) (c : Call) (t : ℕ) → slot_of_call c ≢ t → slot_of (serve px c) t ≡ slot_of px t
unfolding serve
serve_elsewhere px (Call.prepares a) t ne = ground (arith, slot_of-prepare px a t)
serve_elsewhere px (Call.accepts a) t ne = ground (arith, slot_of-accept px a t)
serve_elsewhere px (Call.decides a) t ne = ground (arith, slot_of-decide px a t)

-- The slots after a peer has changed.
slot_of-update :
    (f : ℕ → Paxos) (i : ℕ) (px : Paxos) (slot : ℕ) (v : TimeSlotValue)
    → slot_of px slot ≡ v
    → (j : ℕ) → slot_of (update f i px j) slot ≡ set_slot (λ k. slot_of (f k) slot) i v j
slot_of-update f i px slot v e j = elim (Bool-cases (j == i)) [
  | inl h ↦ ground arith
  | inr h ↦ ground arith
]

slot_of-stays :
    (f : ℕ → Paxos) (i : ℕ) (px : Paxos) (slot : ℕ)
    → slot_of px slot ≡ slot_of (f i) slot
    → (j : ℕ) → slot_of (update f i px j) slot ≡ slot_of (f j) slot
slot_of-stays f i px slot e j = elim (Bool-cases (j == i)) [
  | inl h ↦ let same : j ≡ i = ground arith in ground (arith, ap (λ k. slot_of (f k) slot) same)
  | inr h ↦ ground arith
]

module _ (n slot : ℕ) (s : System) (c : Consistent n (history slot s)) where
  promises_lem :
      (round i : ℕ) (a : PrepareArgs)
      → a.slot_num ≡ slot
      → (prepare (s.peers i) a).1.status ≡ Status.ok
      → Consistent n (
          history slot (record s {
            peers = update s.peers i (prepare (s.peers i) a).0;
            promises =
                record {
                  round = round;
                  peer = i;
                  number = a.seq_num;
                  reply = (prepare (s.peers i) a).1;
                }
                ∷ s.promises;
          }))
  promises_lem round i a e ok =
      let px = s.peers i in
      let (above, acc, val) = prepare_ok px a ok in
      let old = slot_of px slot in
      let new_value : slot_of (prepare px a).0 slot ≡ record old { seq_num_highest = a.seq_num } =
        ground (arith, slot_of-prepare px a slot, above) in
      Consistent-same n _ _ (slot_of-update s.peers i (prepare px a).0 slot _ new_value) (
        promise-Consistent n (history slot s) c round i a.seq_num (prepare px a).1
          (ground (arith, above)) (ground (arith, acc)) (ground (arith, val)))

  abbrev cast : ℕ → Paxos → ℕ → Option PaxosValue → System
  cast i px k v = record s {
    peers = update s.peers i px;
    votes = record { peer = i; number = k; value = v } ∷ s.votes;
  }

  votes_lem :
      (p : Proposal) (i : ℕ) (a : AcceptArgs)
      → a.slot_num ≡ slot
      → In p s.proposals
      → a.seq_num ≡ p.number
      → a.value ≡ p.value
      → (accept (s.peers i) a).1.status ≡ Status.ok
      → Consistent n (
          history slot (record s {
            peers = update s.peers i (accept (s.peers i) a).0;
            votes = record { peer = i; number = a.seq_num; value = a.value } ∷ s.votes;
          }))
  votes_lem p i a e sent en ev ok =
      let px = s.peers i in
      let free = accept_ok px a ok in
      let new_value : slot_of (accept px a).0 slot ≡ record (slot_of px slot) {
        seq_num_accepted = p.number;
        seq_num_highest = p.number;
        value = p.value;
      } =
        ground (arith, slot_of-accept px a slot, free, en, ev) in
      let pos = Proposed-pos n (history slot s) c p.number p.value (p.round, sent) in
      subst (λ k. Consistent n (history slot (cast i (accept px a).0 k a.value))) (sym en)
        (subst (λ v. Consistent n (history slot (cast i (accept px a).0 p.number v))) (sym ev)
          (Consistent-same n _ _ (slot_of-update s.peers i (accept px a).0 slot _ new_value)
            (vote-Consistent n (history slot s) c p i sent pos (ground (arith, free, en)))))

  decides_lem :
      (p : Proposal) (i : ℕ) (a : DecideArgs)
      → a.slot_num ≡ slot
      → a.value ≡ p.value
      → ChosenAt n (history slot s) p.number p.value
      → Consistent n (history slot (record s { peers = update s.peers i (decide (s.peers i) a).0 }))
  decides_lem p i a e ev ch =
      let px = s.peers i in
      let new_value : slot_of (decide px a).0 slot
          ≡ record (slot_of px slot) { value = p.value; is_decided = true } =
        ground (arith, slot_of-decide px a slot) in
      Consistent-same n _ _ (slot_of-update s.peers i (decide px a).0 slot _ new_value)
        (decide-Consistent n (history slot s) c i p.value (p.number, ch))

  stays_lem :
      (i : ℕ) (px : Paxos)
      → slot_of px slot ≡ slot_of (s.peers i) slot
      → Consistent n (history slot (record s { peers = update s.peers i px }))
  stays_lem i px e = Consistent-same n (history slot s) _ (slot_of-stays s.peers i px slot e) c

pub Step-Consistent :
    (n slot : ℕ) (s t : System)
    → Consistent n (history slot s)
    → Step n slot s t
    → Consistent n (history slot t)
Step-Consistent n slot s _ c (Step.promises round i a lt e ok) =
    promises_lem n slot s c round i a e ok
Step-Consistent n slot s _ c (Step.proposes p fresh q) =
    propose-Consistent n (history slot s) c p fresh (Prepares-Prepared n slot s p q)
Step-Consistent n slot s _ c (Step.votes p i a lt e sent en ev ok) =
    votes_lem n slot s c p i a e sent en ev ok
Step-Consistent n slot s _ c (Step.decides p i a lt e sent ev acc) =
    decides_lem n slot s c p i a e ev (Accepts-ChosenAt n slot s p sent acc)
Step-Consistent n slot s _ c (Step.rejects_prepare i a rej) =
    stays_lem n slot s c i _ (prepare_rejected (s.peers i) a slot rej)
Step-Consistent n slot s _ c (Step.rejects_accept i a rej) =
    stays_lem n slot s c i _ (accept_rejected (s.peers i) a slot rej)
Step-Consistent n slot s _ c (Step.elsewhere i call ne) =
    stays_lem n slot s c i _ (serve_elsewhere (s.peers i) call slot ne)

pub Step-Later :
    (n slot : ℕ) (s t : System) → Step n slot s t → Later (history slot s) (history slot t)
Step-Later n slot s _ (Step.promises round i a lt e ok) = record {
  promises = λ p x. inr x;
  proposals = λ p x. x;
  votes = λ v x. x;
}
Step-Later n slot s _ (Step.proposes p fresh q) = record {
  promises = λ p x. x;
  proposals = λ p x. inr x;
  votes = λ v x. x;
}
Step-Later n slot s _ (Step.votes p i a lt e sent en ev ok) = record {
  promises = λ p x. x;
  proposals = λ p x. x;
  votes = λ v x. inr x;
}
Step-Later n slot s _ (Step.decides p i a lt e sent ev acc) = record {
  promises = λ p x. x;
  proposals = λ p x. x;
  votes = λ v x. x;
}
Step-Later n slot s _ (Step.rejects_prepare i a rej) = record {
  promises = λ p x. x;
  proposals = λ p x. x;
  votes = λ v x. x;
}
Step-Later n slot s _ (Step.rejects_accept i a rej) = record {
  promises = λ p x. x;
  proposals = λ p x. x;
  votes = λ v x. x;
}
Step-Later n slot s _ (Step.elsewhere i call ne) = record {
  promises = λ p x. x;
  proposals = λ p x. x;
  votes = λ v x. x;
}

start-Consistent :
    (n slot : ℕ) (peers : ℕ → Paxos)
    → ((i : ℕ) → slot_of (peers i) slot ≡ new_slot)
    → Consistent n
        (history slot (record { peers = peers; promises = []; proposals = []; votes = [] }))
start-Consistent n slot peers e =
    Consistent-same n (record { slot = λ i. new_slot; promises = []; proposals = []; votes = [] }) _
      e
      (record {
        accepted_le = λ i. omega arith;
        promised = tt;
        once = tt;
        reported = tt;
        backed = λ i pos. absurd (omega arith);
        voted = tt;
        prepared = tt;
        unique = λ m v w x y. absurd x.1;
        safe = tt;
      })

pub Reach-Consistent : (n slot : ℕ) (s : System) → Reach n slot s → Consistent n (history slot s)
Reach-Consistent n slot _ (Reach.start peers e) = start-Consistent n slot peers e
Reach-Consistent n slot t (Reach.next {s} r st) =
    Step-Consistent n slot s t (Reach-Consistent n slot s r) st
