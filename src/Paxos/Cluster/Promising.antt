-- ===== src/Paxos/Cluster/Promising.antt =====
-- paxos.go: an answered `Prepare` keeps the cluster consistent.
use mathlib.Core.Path.{fun_ext}
use projects.Common.{
  ℕ, ◌≤◌, ◌<◌, ◌≡◌, refl, sym, ap, subst, inl, inr, List, [], ◌∷◌, All, ◌==◌, Bool-cases, inl, inr,
  subst, if◌then◌else◌, arith,
}
use projects.Paxos.Rpc.{PrepareReply}
use projects.Paxos.Replica.{TimeSlotValue}
use projects.Paxos.Quorum.{All-map}
use projects.Paxos.Cluster.{Promise}
use projects.Paxos.Cluster.History.{
  History, Backed, Later, Binding, Backed-later, Backed-of, SafeAt-later, Prepared-later,
}
use projects.Paxos.Cluster.Consistent.{Consistent, Reported, OnePerNumber, VoteValid}

abbrev pub set_slot : (ℕ → TimeSlotValue) → ℕ → TimeSlotValue → ℕ → TimeSlotValue
set_slot f i v j = if j == i then v else f j

pub set_slot_split :
    (P : TimeSlotValue → Type 0) (f : ℕ → TimeSlotValue) (i : ℕ) (v : TimeSlotValue) (j : ℕ)
    → (j ≡ i → P v)
    → P (f j)
    → P (set_slot f i v j)
set_slot_split P f i v j hx hy = elim (Bool-cases (j == i)) [
  | inl e ↦ subst P (ground arith) (hx (ground arith))
  | inr e ↦ subst P (ground arith) hy
]

-- The slots of the peers matter only peer by peer.
pub Consistent-same :
    (n : ℕ) (h : History) (slot : ℕ → TimeSlotValue)
    → ((j : ℕ) → slot j ≡ h.slot j)
    → Consistent n h
    → Consistent n (record h { slot = slot })
Consistent-same n h slot e c = subst (λ f. Consistent n (record h { slot = f })) (sym (fun_ext e)) c

module _ (n : ℕ) (h : History) (c : Consistent n h) (round i k : ℕ) (r : PrepareReply)
    (above : (h.slot i).seq_num_highest < k)
    (acc_eq : r.seq_num_accepted ≡ (h.slot i).seq_num_accepted)
    (value_eq : r.value_accepted ≡ (h.slot i).value) where
  abbrev given : Promise
  given = record { round = round; peer = i; number = k; reply = r }

  abbrev pub promised_history : History
  promised_history = record h {
    slot = set_slot h.slot i (record (h.slot i) { seq_num_highest = k });
    promises = given ∷ h.promises;
  }

  later : Later h promised_history
  later = record { promises = λ p x. inr x; proposals = λ p x. x; votes = λ v x. x }

  binding : Binding h promised_history
  binding j m v (inl x) = inl x
  binding j m v (inr le) = inr (ground arith)

  new_once : All (OnePerNumber given) h.promises
  new_once =
      All-map _ (OnePerNumber given) h.promises
        (λ p x e f. absurd (omega (arith, f, x.1, ap (λ j. (h.slot j).seq_num_highest) e)))
        c.promised

  old_once :
      (p : Promise)
      → (0 < p.number) × (p.number ≤ (h.slot p.peer).seq_num_highest)
      → OnePerNumber p given
  old_once p x e f = absurd (omega (arith, f, x.1, ap (λ j. (h.slot j).seq_num_highest) e))

  new-Reported : Reported n promised_history given
  new-Reported = (
    omega (arith, c.accepted_le i),
    All-map (VoteValid h) _ h.votes
        (λ v x e. inl (omega (arith, x.2, acc_eq, ap (λ j. (h.slot j).seq_num_accepted) e)))
        c.voted,
    λ pos.
        Backed-of n promised_history i (sym acc_eq) (sym value_eq)
          (Backed-later n h promised_history i _ _ later (c.backed i (omega (arith, acc_eq)))),
  )

  abbrev NewRow : Promise → Type 0
  NewRow p = All (OnePerNumber p) (given ∷ h.promises)

  both_once :
      (l : List Promise)
      → All (λ p. All (OnePerNumber p) h.promises) l
      → All (λ p. (0 < p.number) × (p.number ≤ (h.slot p.peer).seq_num_highest)) l
      → All NewRow l
  both_once [] a b = tt
  both_once (p ∷ l) a b = ((old_once p b.0, a.0), both_once l a.1 b.1)

  -- The promise changes neither what the peer has accepted nor its value.
  same_slot :
      (j : ℕ)
      → ((promised_history.slot j).seq_num_accepted ≡ (h.slot j).seq_num_accepted)
        × ((promised_history.slot j).value ≡ (h.slot j).value)
  same_slot j = ground arith

  Backed-later_slot :
      (j : ℕ)
      → 0 < (promised_history.slot j).seq_num_accepted
      → Backed n promised_history j
          (promised_history.slot j).seq_num_accepted
          (promised_history.slot j).value
  Backed-later_slot j pos =
      Backed-of n promised_history j (sym (same_slot j).0) (sym (same_slot j).1) (
        Backed-later n h promised_history j _ _ later (c.backed j (omega (arith, (same_slot j).0))))

  pub promise-Consistent : Consistent n promised_history
  promise-Consistent = record {
    accepted_le = λ j. ground (arith, c.accepted_le j, c.accepted_le i);
    promised = ((ground arith), All-map _ _ h.promises (λ p x. ground arith) c.promised);
    once = (((λ e f. refl), new_once), both_once h.promises c.once c.promised);
    reported = (
      new-Reported,
      All-map (Reported n h) _ h.promises
          (λ p x. (x.0, x.1, λ pos. Backed-later n h promised_history p.peer _ _ later (x.2 pos)))
          c.reported,
    );
    backed = λ j pos. Backed-later_slot j pos;
    voted = All-map (VoteValid h) _ h.votes (λ v x. ground arith) c.voted;
    prepared =
        All-map _ _ h.proposals
          (λ p x. Prepared-later n h promised_history p.round p.number p.value later x) c.prepared;
    unique = c.unique;
    safe =
        All-map _ _ h.proposals
          (λ p x. SafeAt-later n h promised_history p.number p.value binding x) c.safe;
  }
