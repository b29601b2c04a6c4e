-- ===== src/Paxos/Cluster/Agreement.antt =====
-- paxos.go: what the rounds of a cluster decide, and what a late `Accept` does to a decided slot.
use projects.Common.{ℕ, ◌≡◌}
use projects.Paxos.Quorum.{In}
use projects.Paxos.Cluster.{System, Proposal, Step, Reach, Accepts}
use projects.Paxos.Cluster.History.{history, Later, Chosen-later}
use projects.Paxos.Cluster.Consistent.{Chosen-agree}
use projects.Paxos.Cluster.Tallies.{Accepts-ChosenAt}
use projects.Paxos.Cluster.Steps.{Step-Later, Reach-Consistent}

-- Any number of further steps.
pub data After (n slot : ℕ) (s : System) : System → Type 0 where
  now : After n slot s s
  then : {t u : System} → After n slot s t → Step n slot t u → After n slot s u

Later-trans :
    (s t u : System) (slot : ℕ)
    → Later (history slot s) (history slot t)
    → Later (history slot t) (history slot u)
    → Later (history slot s) (history slot u)
Later-trans s t u slot a b = record {
  promises = λ p x. b.promises p (a.promises p x);
  proposals = λ p x. b.proposals p (a.proposals p x);
  votes = λ v x. b.votes v (a.votes v x);
}

After-Later :
    (n slot : ℕ) (s t : System) → After n slot s t → Later (history slot s) (history slot t)
After-Later n slot s _ After.now = record {
  promises = λ p x. x;
  proposals = λ p x. x;
  votes = λ v x. x;
}
After-Later n slot s u (After.then {t} a st) =
    Later-trans s t u slot (After-Later n slot s t a) (Step-Later n slot t u st)

After-Reach : (n slot : ℕ) (s t : System) → Reach n slot s → After n slot s t → Reach n slot t
After-Reach n slot s _ r After.now = r
After-Reach n slot s u r (After.then {t} a st) = Reach.next (After-Reach n slot s t r a) st

-- All rounds of a slot that decide, decide one value. Of `n` peers that start with no knowledge of
-- the slot and reach the state `s`, and from there the state `t`, by calls that are delayed, lost,
-- repeated and reordered at will: if the round of a proposal `p` has the OKs of a majority of its
-- accept phase in `s`, and the round of `q` has them in `t`, both carry the same value.
pub decided_agree :
    (n slot : ℕ) (s t : System) (p q : Proposal)
    → Reach n slot s
    → After n slot s t
    → In p s.proposals
    → In q t.proposals
    → Accepts n s p
    → Accepts n t q
    → p.value ≡ q.value
decided_agree n slot s t p q r a ip iq ap aq =
    Chosen-agree n (history slot t) (Reach-Consistent n slot t (After-Reach n slot s t r a)) p.value
      q.value
      (Chosen-later n (history slot s) (history slot t) p.value (After-Later n slot s t a)
        (p.number, Accepts-ChosenAt n slot s p ip ap))
      (q.number, Accepts-ChosenAt n slot t q iq aq)
