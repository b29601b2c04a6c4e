-- ===== src/Paxos/Majority.antt =====
-- paxos.go: what a round has when it decides.
use projects.Common.{
  ℕ, suc, ◌+◌, ◌/◌, ◌≤◌, ◌<◌, ◌≡◌, refl, Bool, true, false, Option, List, [], ◌∷◌, ltb, leb,
  if◌then◌else◌, Bool-cases, length, arith, inl, inr,
}
use projects.Paxos.Rpc.{PaxosValue, AcceptReply}
use projects.Paxos.Replica.{Paxos, slot_of, accept, decide}
use projects.Paxos.Slots.{slot_of-decide}
use projects.Paxos.Proposer.{
  Round, Outcome, is_ok, tally_accept, collect_accepts, arrivals, serve_all, decide_phase,
  accept_phase,
}

-- The reply came back and says OK.
abbrev pub accepts : Bool × AcceptReply → Bool
accepts (false, r) = false
accepts (true, r) = is_ok r.status

abbrev pub count_accepts : List (Bool × AcceptReply) → ℕ
count_accepts [] = 0
count_accepts (r ∷ rs) = if accepts r then suc (count_accepts rs) else count_accepts rs

tally_accept_step :
    (t : ℕ × ℕ) (r : Bool × AcceptReply) → (tally_accept t r).0 ≡ t.0 + count_accepts (r ∷ [])
unfolding tally_accept
tally_accept_step t (false, r) = ground arith
tally_accept_step t (true, r) = ground arith

pub collect_accepts-majority :
    (n : ℕ) (t : ℕ × ℕ) (rs : List (Bool × AcceptReply))
    → ltb (n / 2) (collect_accepts n t rs).0 ≡ ltb (n / 2) (t.0 + count_accepts rs)
unfolding collect_accepts
collect_accepts-majority n t [] = ground arith
collect_accepts-majority n t (r ∷ rs) = elim (Bool-cases (ltb (n / 2) (tally_accept t r).0)) [
  | inl e ↦ rw (e, collect_accepts) (ground (arith, tally_accept_step t r))
  | inr e ↦
      rw (e, collect_accepts)
        (ground (arith, tally_accept_step t r, collect_accepts-majority n (tally_accept t r) rs))
]

-- The replies of the accept phase, the peer's own among them.
abbrev pub accept_arrivals : Paxos → ℕ → Round → ℕ → Option PaxosValue → List (Bool × AcceptReply)
accept_arrivals px slot r seq_num v =
    arrivals
      (
        true,
        (accept (serve_all px r.before_accept)
            (record { slot_num = slot; seq_num = seq_num; value = v })).1,
      )
      r.accept_replies

-- The proposal is decided, and the peer's own slot says so.
pub record Decides (slot : ℕ) (v : Option PaxosValue) (o : Outcome) : Type 0 where
  pub px : Paxos
  pub outcome : o ≡ Outcome.decided px v
  pub own_decided : (slot_of px slot).is_decided ≡ true
  pub own_value : (slot_of px slot).value ≡ v

decide_phase-Decides :
    (px : Paxos) (slot : ℕ) (r : Round) (v : Option PaxosValue)
    → Decides slot v (decide_phase px slot r v)
unfolding decide_phase
decide_phase-Decides px slot r v =
    let px' = serve_all px r.before_decide in
    let d = slot_of-decide px' (record { slot_num = slot; value = v }) slot in
    record {
      px = (decide px' (record { slot_num = slot; value = v })).0;
      outcome = refl;
      own_decided = ground (arith, d);
      own_value = ground (arith, d);
    }

-- A round whose accept phase gets OK from a majority of the peers decides the value that it has
-- proposed, and the proposer's own slot holds it as decided.
pub accept_phase-Decides :
    (px : Paxos) (slot : ℕ) (r : Round) (seq_num : ℕ) (v : Option PaxosValue)
    → length px.peers / 2 < count_accepts (accept_arrivals px slot r seq_num v)
    → Decides slot v (accept_phase px slot r seq_num v)
unfolding accept_phase arrivals
accept_phase-Decides px slot r seq_num v most =
    let n = length px.peers in
    let own =
      accept (serve_all px r.before_accept)
        (record { slot_num = slot; seq_num = seq_num; value = v }) in
    let rs = accept_arrivals px slot r seq_num v in
    let test : leb (collect_accepts n (0, 0) rs).0 (n / 2) ≡ false =
      ground (arith, collect_accepts-majority n (0, 0) rs) in
    rw test (decide_phase-Decides own.0 slot r v)

-- A round decides only when its accept phase has got OK from a majority of the peers, however early
-- it stopped to read replies: without one it is tried again.
pub accept_phase_retries :
    (px : Paxos) (slot : ℕ) (r : Round) (seq_num : ℕ) (v : Option PaxosValue)
    → count_accepts (accept_arrivals px slot r seq_num v) ≤ length px.peers / 2
    → (px' : Paxos) × (highest : ℕ) × (accept_phase px slot r seq_num v ≡ Outcome.retry px' highest)
unfolding accept_phase arrivals
accept_phase_retries px slot r seq_num v few =
    let n = length px.peers in
    let own =
      accept (serve_all px r.before_accept)
        (record { slot_num = slot; seq_num = seq_num; value = v }) in
    let rs = accept_arrivals px slot r seq_num v in
    let test : leb (collect_accepts n (0, 0) rs).0 (n / 2) ≡ true =
      ground (arith, collect_accepts-majority n (0, 0) rs) in
    (own.0, (collect_accepts n (0, 0) rs).1, rw test refl)
