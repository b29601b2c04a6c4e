-- ===== src/Paxos/Cluster/Voting.antt =====
-- paxos.go: a new proposal, an answered `Accept` and a `Decide` keep the cluster consistent.
use projects.Common.{
  ℕ, ◌≤◌, ◌<◌, ◌≡◌, ◌≢◌, refl, sym, ap, ◌∙◌, subst, inl, inr, true, Option, List, [], ◌∷◌, All,
  arith,
}
use projects.Paxos.Rpc.{PaxosValue}
use projects.Paxos.Quorum.{In, All-map}
use projects.Paxos.Cluster.{Promise, Proposal, Vote}
use projects.Paxos.Cluster.History.{
  History, Proposed, Chosen, Backed, Prepared, Later, Binding, Backed-later, Backed-of,
  SafeAt-later, Prepared-later, Chosen-later,
}
use projects.Paxos.Cluster.Consistent.{Consistent, Reported, VoteValid, new-SafeAt, new_number}
use projects.Paxos.Cluster.Promising.{set_slot, set_slot_split}

module _ (n : ℕ) (h : History) (c : Consistent n h) (p : Proposal)
    (fresh : All (λ q. q.round ≢ p.round) h.proposals)
    (q : Prepared n h p.round p.number p.value) where
  abbrev pub proposed_history : History
  proposed_history = record h { proposals = p ∷ h.proposals }

  later : Later h proposed_history
  later = record { promises = λ p x. x; proposals = λ p x. inr x; votes = λ v x. x }

  binding : Binding h proposed_history
  binding j m v x = x

  one_value :
      (m : ℕ) (v w : Option PaxosValue)
      → Proposed proposed_history m v
      → Proposed proposed_history m w
      → v ≡ w
  one_value m v w (r, inl e) (r', inl f) = sym (ap (λ p. p.value) e) ∙ ap (λ p. p.value) f
  one_value m v w (r, inr x) (r', inr y) = c.unique m v w (r, x) (r', y)
  one_value m v w (r, inl e) (r', inr y) = absurd (
      new_number n h c p.round p.number p.value q w fresh (
        r',
        subst (λ k. In (record { round = r'; number = k; value = w }) h.proposals)
            (sym (ap (λ p. p.number) e)) y,
      ))
  one_value m v w (r, inr x) (r', inl e) = absurd (
      new_number n h c p.round p.number p.value q v fresh (
        r,
        subst (λ k. In (record { round = r; number = k; value = v }) h.proposals)
            (sym (ap (λ p. p.number) e)) x,
      ))

  pub propose-Consistent : Consistent n proposed_history
  propose-Consistent = record {
    accepted_le = c.accepted_le;
    promised = c.promised;
    once = c.once;
    reported =
        All-map (Reported n h) _ h.promises
          (λ r x. (x.0, x.1, λ pos. Backed-later n h proposed_history r.peer _ _ later (x.2 pos)))
          c.reported;
    backed = λ j pos. Backed-later n h proposed_history j _ _ later (c.backed j pos);
    voted = All-map (VoteValid h) _ h.votes (λ v x. (x.0, x.1, (x.2.0, inr x.2.1))) c.voted;
    prepared = (
      Prepared-later n h proposed_history p.round p.number p.value later q,
      All-map _ _ h.proposals
          (λ r x. Prepared-later n h proposed_history r.round r.number r.value later x) c.prepared,
    );
    unique = one_value;
    safe = (
      SafeAt-later n h proposed_history p.number p.value binding
          (new-SafeAt n h c p.round p.number p.value q),
      All-map _ _ h.proposals (λ r x. SafeAt-later n h proposed_history r.number r.value binding x)
          c.safe,
    );
  }

module _ (n : ℕ) (h : History) (c : Consistent n h) (p : Proposal) (i : ℕ) (sent : In p h.proposals)
    (pos : 0 < p.number) (free : (h.slot i).seq_num_highest ≤ p.number) where
  abbrev cast : Vote
  cast = record { peer = i; number = p.number; value = p.value }

  abbrev pub voted_history : History
  voted_history = record h {
    slot = set_slot h.slot i (record (h.slot i) {
      seq_num_accepted = p.number;
      seq_num_highest = p.number;
      value = p.value;
    });
    votes = cast ∷ h.votes;
  }

  vote_later : Later h voted_history
  vote_later = record { promises = λ p x. x; proposals = λ p x. x; votes = λ v x. inr x }

  vote-Binding : Binding h voted_history
  vote-Binding j m v (inl (inl e)) =
      let ei = ap (λ (v : Vote). v.peer) e in
      let em = ap (λ (v : Vote). v.number) e in
      inr (omega (arith, em, ap (λ j. (h.slot j).seq_num_highest) ei))
  vote-Binding j m v (inl (inr x)) = inl x
  vote-Binding j m v (inr le) = inr (ground arith)

  promised_before :
      (r : Promise)
      → (r.number ≤ (h.slot r.peer).seq_num_highest)
      → i ≡ r.peer
      → r.number ≤ p.number
  promised_before r le e = omega (arith, le, free, ap (λ j. (h.slot j).seq_num_highest) e)

  highest_grows : (j : ℕ) → (h.slot j).seq_num_highest ≤ (voted_history.slot j).seq_num_highest
  highest_grows j = ground arith

  vote-Reported :
      (r : Promise)
      → (r.number ≤ (h.slot r.peer).seq_num_highest)
      → Reported n h r
      → Reported n voted_history r
  vote-Reported r le x = (
    x.0,
    ((λ e. inr (promised_before r le e)), x.1),
    λ pos'. Backed-later n h voted_history r.peer _ _ vote_later (x.2 pos'),
  )

  Reported-all :
      (l : List Promise)
      → All (λ r. (0 < r.number) × (r.number ≤ (h.slot r.peer).seq_num_highest)) l
      → All (Reported n h) l
      → All (Reported n voted_history) l
  Reported-all [] a b = tt
  Reported-all (r ∷ l) a b = (vote-Reported r a.0.1 b.0, Reported-all l a.1 b.1)

  own_accepted : p.number ≤ (voted_history.slot i).seq_num_accepted
  own_accepted = ground arith

  vote-Backed :
      (j : ℕ)
      → 0 < (voted_history.slot j).seq_num_accepted
      → Backed n voted_history j
          (voted_history.slot j).seq_num_accepted
          (voted_history.slot j).value
  vote-Backed j =
      set_slot_split
        (λ s. 0 < s.seq_num_accepted → Backed n voted_history j s.seq_num_accepted s.value) h.slot i
        _ j
        (λ e x. (
          p.value,
          inl (ap (λ k. record { peer = k; number = p.number; value = p.value }) (sym e)),
          inl refl,
        ))
        (λ x. Backed-later n h voted_history j _ _ vote_later (c.backed j x))

  accepted_grows : (j : ℕ) → (h.slot j).seq_num_accepted ≤ (voted_history.slot j).seq_num_accepted
  accepted_grows j = ground (arith, c.accepted_le i)

  pub vote-Consistent : Consistent n voted_history
  vote-Consistent = record {
    accepted_le = λ j. ground (arith, c.accepted_le j);
    promised =
        All-map _ _ h.promises (λ r x. (x.0, omega (arith, x.1, highest_grows r.peer))) c.promised;
    once = c.once;
    reported = Reported-all h.promises c.promised c.reported;
    backed = vote-Backed;
    voted = (
      (pos, own_accepted, (p.round, sent)),
      All-map (VoteValid h) _ h.votes (λ v x. (x.0, omega (arith, x.2, accepted_grows v.peer), x.2))
          c.voted,
    );
    prepared =
        All-map _ _ h.proposals
          (λ r x. Prepared-later n h voted_history r.round r.number r.value vote_later x)
          c.prepared;
    unique = c.unique;
    safe =
        All-map _ _ h.proposals
          (λ r x. SafeAt-later n h voted_history r.number r.value vote-Binding x) c.safe;
  }

module _ (n : ℕ) (h : History) (c : Consistent n h) (i : ℕ) (v : Option PaxosValue)
    (chosen : Chosen n h v) where
  abbrev pub decided_history : History
  decided_history = record h {
    slot = set_slot h.slot i (record (h.slot i) { value = v; is_decided = true });
  }

  decide_later : Later h decided_history
  decide_later = record { promises = λ p x. x; proposals = λ p x. x; votes = λ v x. x }

  same_numbers :
      (j : ℕ)
      → ((decided_history.slot j).seq_num_accepted ≡ (h.slot j).seq_num_accepted)
        × ((decided_history.slot j).seq_num_highest ≡ (h.slot j).seq_num_highest)
  same_numbers j = ground arith

  decide-Binding : Binding h decided_history
  decide-Binding j m w (inl x) = inl x
  decide-Binding j m w (inr le) = inr (omega (arith, (same_numbers j).1))

  with_chosen :
      (j m : ℕ) (w : Option PaxosValue) → Backed n h j m w → Backed n decided_history j m v
  with_chosen j m w (u, x, y) = (u, x, inr (Chosen-later n h decided_history v decide_later chosen))

  decide-Backed :
      (j : ℕ)
      → 0 < (decided_history.slot j).seq_num_accepted
      → Backed n decided_history j
          (decided_history.slot j).seq_num_accepted
          (decided_history.slot j).value
  decide-Backed j =
      set_slot_split
        (λ s. 0 < s.seq_num_accepted → Backed n decided_history j s.seq_num_accepted s.value) h.slot
        i _ j
        (λ e x.
          with_chosen j _ _
            (Backed-of n h j (at_peer e) refl (c.backed j (omega (arith, at_peer e)))))
        (λ x. Backed-later n h decided_history j _ _ decide_later (c.backed j x))
    where
      at_peer : {j : ℕ} → j ≡ i → (h.slot j).seq_num_accepted ≡ (h.slot i).seq_num_accepted
      at_peer e = ap (λ k. (h.slot k).seq_num_accepted) e

  pub decide-Consistent : Consistent n decided_history
  decide-Consistent = record {
    accepted_le = λ j. ground (arith, c.accepted_le j);
    promised =
        All-map _ _ h.promises (λ r x. (x.0, omega (arith, x.1, (same_numbers r.peer).1)))
          c.promised;
    once = c.once;
    reported =
        All-map (Reported n h) _ h.promises
          (λ r x.
            (x.0, x.1, λ pos. Backed-later n h decided_history r.peer _ _ decide_later (x.2 pos)))
          c.reported;
    backed = decide-Backed;
    voted =
        All-map (VoteValid h) _ h.votes
          (λ v x. (x.0, omega (arith, x.1, (same_numbers v.peer).0), x.2)) c.voted;
    prepared =
        All-map _ _ h.proposals
          (λ r x. Prepared-later n h decided_history r.round r.number r.value decide_later x)
          c.prepared;
    unique = c.unique;
    safe =
        All-map _ _ h.proposals
          (λ r x. SafeAt-later n h decided_history r.number r.value decide-Binding x) c.safe;
  }
