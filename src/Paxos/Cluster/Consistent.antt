-- ===== src/Paxos/Cluster/Consistent.antt =====
-- paxos.go: the invariant of a cluster's rounds, and why it makes a new proposal safe.
use projects.Common.{
  ℕ, ◌≤◌, ◌<◌, ◌≡◌, ◌≢◌, refl, sym, ◌∙◌, subst, ◌⊎◌, inl, inr, Option, All, dec_lt, arith,
}
use projects.Paxos.Rpc.{PaxosValue}
use projects.Paxos.Quorum.{All-In, Quorum-meet}
use projects.Paxos.Cluster.{Promise, Proposal, Vote}
use projects.Paxos.Cluster.History.{
  History, Voted, Proposed, ChosenAt, Chosen, Backed, Choosable, SafeAt, Heard, Source, Prepared,
  Chosen-Choosable,
}

-- The promise's reply lists the peer's last vote below the promised number.
abbrev pub Reported : ℕ → History → Promise → Type 0
Reported n h p =
    (p.reply.seq_num_accepted < p.number)
    × All (λ v. v.peer ≡ p.peer → (v.number ≤ p.reply.seq_num_accepted) ⊎ (p.number ≤ v.number))
        h.votes
    × (0 < p.reply.seq_num_accepted
        → Backed n h p.peer p.reply.seq_num_accepted p.reply.value_accepted)

abbrev pub OnePerNumber : Promise → Promise → Type 0
OnePerNumber p q = p.peer ≡ q.peer → p.number ≡ q.number → p.round ≡ q.round

abbrev pub VoteValid : History → Vote → Type 0
VoteValid h v =
    (0 < v.number) × (v.number ≤ (h.slot v.peer).seq_num_accepted) × Proposed h v.number v.value

pub record Consistent (n : ℕ) (h : History) : Type 0 where
  pub accepted_le : (i : ℕ) → (h.slot i).seq_num_accepted ≤ (h.slot i).seq_num_highest
  pub promised : All (λ p. (0 < p.number) × (p.number ≤ (h.slot p.peer).seq_num_highest)) h.promises
  pub once : All (λ p. All (OnePerNumber p) h.promises) h.promises
  pub reported : All (Reported n h) h.promises
  pub backed :
      (i : ℕ)
      → 0 < (h.slot i).seq_num_accepted
      → Backed n h i (h.slot i).seq_num_accepted (h.slot i).value
  pub voted : All (VoteValid h) h.votes
  pub prepared : All (λ p. Prepared n h p.round p.number p.value) h.proposals
  pub unique : (m : ℕ) (v w : Option PaxosValue) → Proposed h m v → Proposed h m w → v ≡ w
  pub safe : All (λ p. SafeAt n h p.number p.value) h.proposals

module _ (n : ℕ) (h : History) (c : Consistent n h) where
  safe_at : (m : ℕ) (v : Option PaxosValue) → Proposed h m v → SafeAt n h m v
  safe_at m v p = All-In (λ q. SafeAt n h q.number q.value) _ h.proposals c.safe p.1

  vote_valid :
      (i m : ℕ) (v : Option PaxosValue)
      → Voted h i m v
      → VoteValid h (record { peer = i; number = m; value = v })
  vote_valid i m v x = All-In (VoteValid h) _ h.votes c.voted x

  -- A value that can still be chosen is any value that has been chosen.
  chosen_only :
      (m m' : ℕ) (v w : Option PaxosValue)
      → ChosenAt n h m' v
      → Choosable n h m w
      → Proposed h m w
      → w ≡ v
  chosen_only m m' v w x y p = elim (dec_lt m m') [
    | yes lt ↦ safe_at m' v x.proposed m w lt y
    | no ge ↦ elim (dec_lt m' m) [
      | yes gt ↦ sym (safe_at m w p m' v gt (Chosen-Choosable n h m' v x))
      | no le ↦
          let e : m' ≡ m = omega arith in
          c.unique m w v p (subst (λ k. Proposed h k v) e x.proposed)
    ]
  ]

  pub Chosen-agree : (v w : Option PaxosValue) → Chosen n h v → Chosen n h w → v ≡ w
  Chosen-agree v w (m, x) (m', y) = chosen_only m m' w v y (Chosen-Choosable n h m v x) x.proposed

  pub Proposed-pos : (m : ℕ) (v : Option PaxosValue) → Proposed h m v → 0 < m
  Proposed-pos m v p =
      let q = All-In (λ q. Prepared n h q.round q.number q.value) _ h.proposals c.prepared p.1 in
      let (i, lt, x, y) = Quorum-meet n q.heard q.heard in
      (All-In (λ p. (0 < p.number) × (p.number ≤ (h.slot p.peer).seq_num_highest)) _ h.promises
        c.promised x.1).0

  module _ (round k : ℕ) (v : Option PaxosValue) (q : Prepared n h round k v) where
    -- A peer that has voted below `k` and promised `k` has reported a vote from there on.
    Voted-below :
        (i m : ℕ) (w : Option PaxosValue)
        → m < k
        → Heard h round k q.top i
        → Voted h i m w ⊎ ((h.slot i).seq_num_highest ≤ m)
        → Voted h i m w × (m ≤ q.top)
    Voted-below i m w lt (r, x, le) (inr free) = absurd (
        omega (
          arith,
          (All-In (λ p. (0 < p.number) × (p.number ≤ (h.slot p.peer).seq_num_highest)) _ h.promises
              c.promised x).1,
        ))
    Voted-below i m w lt (r, x, le) (inl y) =
        let rep = All-In (Reported n h) _ h.promises c.reported x in
        let apart =
          All-In (λ (v : Vote). v.peer ≡ i → (v.number ≤ r.seq_num_accepted) ⊎ (k ≤ v.number)) _
            h.votes rep.1 y refl in
        (y, ground (arith, apart))

    -- The value of the largest report is the only one that can be chosen below `k`.
    Source-safe :
        (m : ℕ) (w : Option PaxosValue)
        → m < k
        → Choosable n h m w
        → Proposed h m w
        → m ≤ q.top
        → 0 < q.top
        → Source h round k q.top v
        → w ≡ v
    Source-safe m w lt y p le pos (j, r, x, acc, val) =
        let rep = All-In (Reported n h) _ h.promises c.reported x in
        let back : Backed n h j q.top v = rw (acc, val) at (rep.2 (omega (arith, acc))) in
        backed_safe back
      where
        backed_safe : Backed n h j q.top v → w ≡ v
        backed_safe (u, vote, inr (m', z)) = chosen_only m m' v w z y p
        backed_safe (u, vote, inl e) =
            let pu = (vote_valid j q.top u vote).2 in
            elim (dec_lt m q.top) [
              | yes low ↦ safe_at q.top u pu m w low y ∙ e
              | no high ↦
                  let at_top : m ≡ q.top = omega arith in
                  c.unique q.top w u (subst (λ k. Proposed h k w) at_top p) pu ∙ e
            ]

    by-Source :
        (m : ℕ) (w : Option PaxosValue)
        → m < k
        → Choosable n h m w
        → Proposed h m w
        → m ≤ q.top
        → 0 < m
        → (q.top ≡ 0) ⊎ Source h round k q.top v
        → w ≡ v
    by-Source m w lt y p le pos (inl e) = absurd (omega (arith, e))
    by-Source m w lt y p le pos (inr s) = Source-safe m w lt y p le (omega arith) s

    pub new-SafeAt : SafeAt n h k v
    new-SafeAt m w lt y =
        let (i, low, heard, vote) = Quorum-meet n q.heard y in
        let (voted, le) = Voted-below i m w lt heard vote in
        let valid = vote_valid i m w voted in by-Source m w lt y valid.2 le valid.0 q.source

    -- The number is new: two rounds do not both get a majority's promises for it.
    pub new_number :
        (w : Option PaxosValue) → All (λ p. p.round ≢ round) h.proposals → Proposed h k w → ⊥
    new_number w fresh (round', x) =
        let q' = All-In (λ p. Prepared n h p.round p.number p.value) _ h.proposals c.prepared x in
        let (i, lt, a, b) = Quorum-meet n q.heard q'.heard in
        let row = All-In (λ p. All (OnePerNumber p) h.promises) _ h.promises c.once b.1 in
        let same =
          All-In (OnePerNumber (record { round = round'; peer = i; number = k; reply = b.0 })) _
            h.promises row a.1 refl refl in
        All-In (λ (p : Proposal). p.round ≢ round) _ h.proposals fresh x same
