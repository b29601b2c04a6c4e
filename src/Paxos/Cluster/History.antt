-- ===== src/Paxos/Cluster/History.antt =====
-- paxos.go: what the peers of one slot have done, and what follows for the values that they can
-- still choose.
use projects.Common.{ℕ, subst, ◌≤◌, ◌<◌, ◌≡◌, ◌⊎◌, inl, inr, Option, List}
use projects.Paxos.Rpc.{PaxosValue, PrepareReply}
use projects.Paxos.Replica.{TimeSlotValue, slot_of}
use projects.Paxos.Quorum.{In, Quorum, All-map}
use projects.Paxos.Cluster.{System, Promise, Proposal, Vote}

-- The slot of each peer, and the events.
pub record History : Type 0 where
  pub slot : ℕ → TimeSlotValue
  pub promises : List Promise
  pub proposals : List Proposal
  pub votes : List Vote

abbrev pub history : ℕ → System → History
history slot s = record {
  slot = λ i. slot_of (s.peers i) slot;
  promises = s.promises;
  proposals = s.proposals;
  votes = s.votes;
}

pub Quorum-map : {P Q : ℕ → Type 0} (n : ℕ) → ((i : ℕ) → P i → Q i) → Quorum n P → Quorum n Q
Quorum-map {P} {Q} n f q = record {
  members = q.members;
  distinct = q.distinct;
  peers = q.peers;
  most = q.most;
  all = All-map P Q q.members f q.all;
}

abbrev pub Voted : History → ℕ → ℕ → Option PaxosValue → Type 0
Voted h i m v = In (record { peer = i; number = m; value = v }) h.votes

abbrev pub Proposed : History → ℕ → Option PaxosValue → Type 0
Proposed h m v = (round : ℕ) × In (record { round = round; number = m; value = v }) h.proposals

-- A majority has voted for the value at the number.
pub record ChosenAt (n : ℕ) (h : History) (m : ℕ) (v : Option PaxosValue) : Type 0 where
  pub proposed : Proposed h m v
  pub quorum : Quorum n (λ i. Voted h i m v)

abbrev pub Chosen : ℕ → History → Option PaxosValue → Type 0
Chosen n h v = (m : ℕ) × ChosenAt n h m v

-- The value that a peer has beside its accepted number is what it has voted for, or a chosen one.
abbrev pub Backed : ℕ → History → ℕ → ℕ → Option PaxosValue → Type 0
Backed n h i m v = (w : Option PaxosValue) × Voted h i m w × ((w ≡ v) ⊎ Chosen n h v)

-- A majority has voted for the value at the number, or can still do so.
abbrev pub Choosable : ℕ → History → ℕ → Option PaxosValue → Type 0
Choosable n h m v = Quorum n (λ i. Voted h i m v ⊎ (h.slot i).seq_num_highest ≤ m)

-- No other value can be chosen at a smaller number.
abbrev pub SafeAt : ℕ → History → ℕ → Option PaxosValue → Type 0
SafeAt n h k v = (m : ℕ) (w : Option PaxosValue) → m < k → Choosable n h m w → w ≡ v

-- The promise of peer `i` to the round, with an accepted number up to `top`.
abbrev pub Heard : History → ℕ → ℕ → ℕ → ℕ → Type 0
Heard h round k top i =
    (r : PrepareReply) × In (record { round = round; peer = i; number = k; reply = r }) h.promises
    × (r.seq_num_accepted ≤ top)

abbrev pub Source : History → ℕ → ℕ → ℕ → Option PaxosValue → Type 0
Source h round k top v =
    (i : ℕ) × (r : PrepareReply) × In (record { round = round; peer = i; number = k; reply = r })
      h.promises
    × (r.seq_num_accepted ≡ top)
    × (r.value_accepted ≡ v)

-- What a round has heard before it proposes: a majority's promises, and the value of one with the
-- largest accepted number, unless that is 0.
pub record Prepared (n : ℕ) (h : History) (round k : ℕ) (v : Option PaxosValue) : Type 0 where
  pub top : ℕ
  pub heard : Quorum n (λ i. Heard h round k top i)
  pub source : (top ≡ 0) ⊎ Source h round k top v

-- Everything that is said of the past stays true.
pub record Later (h h' : History) : Type 0 where
  pub promises : (p : Promise) → In p h.promises → In p h'.promises
  pub proposals : (p : Proposal) → In p h.proposals → In p h'.proposals
  pub votes : (v : Vote) → In v h.votes → In v h'.votes

-- A peer votes only at numbers that it has not promised away.
abbrev pub Binding : History → History → Type 0
Binding h h' =
    (i m : ℕ) (v : Option PaxosValue)
    → Voted h' i m v ⊎ ((h'.slot i).seq_num_highest ≤ m)
    → Voted h i m v ⊎ ((h.slot i).seq_num_highest ≤ m)

pub Chosen-later :
    (n : ℕ) (h h' : History) (v : Option PaxosValue) → Later h h' → Chosen n h v → Chosen n h' v
Chosen-later n h h' v l (m, c) = (
  m,
  record {
    proposed = (c.proposed.0, l.proposals _ c.proposed.1);
    quorum = Quorum-map n (λ i x. l.votes _ x) c.quorum;
  },
)

pub Backed-later :
    (n : ℕ) (h h' : History) (i m : ℕ) (v : Option PaxosValue)
    → Later h h'
    → Backed n h i m v
    → Backed n h' i m v
Backed-later n h h' i m v l (w, x, inl e) = (w, l.votes _ x, inl e)
Backed-later n h h' i m v l (w, x, inr c) = (w, l.votes _ x, inr (Chosen-later n h h' v l c))

-- Of the number and value that two equations give.
pub Backed-of :
    (n : ℕ) (h : History) (i : ℕ) {m m' : ℕ} {v v' : Option PaxosValue}
    → m ≡ m'
    → v ≡ v'
    → Backed n h i m v
    → Backed n h i m' v'
Backed-of n h i {m} {m'} {v} {v'} e f b =
    subst (λ w. Backed n h i m' w) f (subst (λ k. Backed n h i k v) e b)

pub SafeAt-later :
    (n : ℕ) (h h' : History) (k : ℕ) (v : Option PaxosValue)
    → Binding h h'
    → SafeAt n h k v
    → SafeAt n h' k v
SafeAt-later n h h' k v b s m w lt c = s m w lt (Quorum-map n (λ i x. b i m w x) c)

pub Prepared-later :
    (n : ℕ) (h h' : History) (round k : ℕ) (v : Option PaxosValue)
    → Later h h'
    → Prepared n h round k v
    → Prepared n h' round k v
Prepared-later n h h' round k v l p = record {
  top = p.top;
  heard = Quorum-map n (λ i x. (x.0, l.promises _ x.1, x.2)) p.heard;
  source = source_later p.source;
}
  where
    source_later : (p.top ≡ 0) ⊎ Source h round k p.top v → (p.top ≡ 0) ⊎ Source h' round k p.top v
    source_later (inl e) = inl e
    source_later (inr (i, r, x, e, f)) = inr (i, r, l.promises _ x, e, f)

-- A chosen value can still be chosen.
pub Chosen-Choosable :
    (n : ℕ) (h : History) (m : ℕ) (v : Option PaxosValue) → ChosenAt n h m v → Choosable n h m v
Chosen-Choosable n h m v c = Quorum-map n (λ i x. inl x) c.quorum
