-- ===== src/Paxos/Cluster/Tallies.antt =====
-- paxos.go: the majorities that the tallies of a round stand for.
use projects.Common.{
  ℕ, ◌/◌, ◌≤◌, ◌<◌, ◌≡◌, ◌≢◌, refl, sym, subst, ◌⊎◌, inl, inr, Bool, true, Option, List, [], ◌∷◌,
  ◌++◌, All, Any-map, Any, map, length, if◌then◌else◌, Bool-cases, arith,
}
use projects.Paxos.Rpc.{PaxosValue}
use projects.Paxos.Proposer.{Tally, collect_prepares}
use projects.Paxos.Rounds.{counts, count_ok, start_tally, Counted, collect_prepares-Read}
use projects.Paxos.Majority.{accepts, count_accepts, collect_accepts-majority}
use projects.Paxos.Quorum.{In, Nodup, Quorum, All-map}
use projects.Paxos.Cluster.{
  System, Proposal, OneEach, PrepareArrival, AcceptArrival, prepare_result, accept_result,
  PrepareGenuine, Prepares, Accepts,
}
use projects.Paxos.Cluster.History.{history, Heard, Source, Prepared, ChosenAt}

map_split {ℓ κ} :
    {A : Type ℓ} {B : Type κ} (f : A → B) (l : List A) (xs ys : List B)
    → map f l ≡ xs ++ ys
    → (us : List A) × (ws : List A) × (l ≡ us ++ ws) × (map f us ≡ xs)
map_split f l [] ys e = ([], l, refl, refl)
map_split f [] (x ∷ xs) ys e = absurd cc
map_split f (a ∷ l) (x ∷ xs) ys e =
    let (us, ws, e1, e2) = map_split f l xs ys cc in (a ∷ us, ws, cc, cc)

All-of_map {ℓ κ λ'} :
    {A : Type ℓ} {B : Type κ} (f : A → B) (P : B → Type λ') (l : List A)
    → All P (map f l)
    → All (λ a. P (f a)) l
All-of_map f P [] h = tt
All-of_map f P (a ∷ l) h = (h.0, All-of_map f P l h.1)

All-prefix {ℓ κ} : {A : Type ℓ} (P : A → Type κ) (us ws : List A) → All P (us ++ ws) → All P us
All-prefix P [] ws h = tt
All-prefix P (a ∷ us) ws h = (h.0, All-prefix P us ws h.1)

-- One that has the property of `Any`, with what all have.
found {ℓ κ} :
    {A : Type ℓ} {B : Type κ} (f : A → B) (P : B → Type 0) (Q : A → Type 0) (l : List A)
    → All Q l
    → Any P (map f l)
    → (a : A) × P (f a) × Q a
found f P Q [] q h = absurd h
found f P Q (a ∷ l) q (inl h) = (a, h, q.0)
found f P Q (a ∷ l) q (inr h) = found f P Q l q.1 h

module _ {A : Type 0} (ok : A → Bool) (peer : A → ℕ) where
  passing : List A → List ℕ
  passing [] = []
  passing (a ∷ l) = if ok a then peer a ∷ passing l else passing l

  passing-All :
      (P : ℕ → Type 0) (l : List A) → All (λ a. ok a ≡ true → P (peer a)) l → All P (passing l)
  unfolding passing
  passing-All P [] h = tt
  passing-All P (a ∷ l) h = elim (Bool-cases (ok a)) [
    | inl e ↦ rw e (h.0 e, passing-All P l h.1)
    | inr e ↦ rw e (passing-All P l h.1)
  ]

  peers-All : (P : ℕ → Type 0) (l : List A) → All P (map peer l) → All P (passing l)
  peers-All P l h = passing-All P l (All-map _ _ l (λ a x e. x) (All-of_map peer P l h))

  passing-Nodup : (l : List A) → Nodup (map peer l) → Nodup (passing l)
  unfolding passing
  passing-Nodup [] h = tt
  passing-Nodup (a ∷ l) h = elim (Bool-cases (ok a)) [
    | inl e ↦ rw e (peers-All _ l h.0, passing-Nodup l h.1)
    | inr e ↦ rw e (passing-Nodup l h.1)
  ]

  -- The peers whose replies pass are a quorum when they are more than half.
  passing-Quorum :
      (n : ℕ) (P : ℕ → Type 0) (l : List A)
      → OneEach n (map peer l)
      → All (λ a. ok a ≡ true → P (peer a)) l
      → n / 2 < length (passing l)
      → Quorum n P
  passing-Quorum n P l d h most = record {
    members = passing l;
    distinct = passing-Nodup l d.0;
    peers = peers-All _ l d.1;
    most = most;
    all = passing-All P l h;
  }

  Nodup-prefix : (us ws : List A) → Nodup (map peer (us ++ ws)) → Nodup (map peer us)
  Nodup-prefix [] ws h = tt
  Nodup-prefix (a ∷ us) ws h = (fresh us h.0, Nodup-prefix us ws h.1)
    where
      fresh :
          (us : List A)
          → All (λ y. y ≢ peer a) (map peer (us ++ ws))
          → All (λ y. y ≢ peer a) (map peer us)
      fresh [] h = tt
      fresh (b ∷ us) h = (h.0, fresh us h.1)

  below-prefix :
      (n : ℕ) (us ws : List A)
      → All (λ i. i < n) (map peer (us ++ ws))
      → All (λ i. i < n) (map peer us)
  below-prefix n [] ws h = tt
  below-prefix n (a ∷ us) ws h = (h.0, below-prefix n us ws h.1)

  OneEach-prefix :
      (n : ℕ) (us ws : List A) → OneEach n (map peer (us ++ ws)) → OneEach n (map peer us)
  OneEach-prefix n us ws h = (Nodup-prefix us ws h.0, below-prefix n us ws h.1)

prepare_passes : PrepareArrival → Bool
prepare_passes a = counts (prepare_result a)

accept_passes : AcceptArrival → Bool
accept_passes a = accepts (accept_result a)

count_ok_lem :
    (l : List PrepareArrival)
    → count_ok (map prepare_result l) ≡ length (passing prepare_passes (λ a. a.peer) l)
unfolding passing prepare_passes
count_ok_lem [] = refl
count_ok_lem (a ∷ l) = ground (arith, count_ok_lem l)

count_accepts_lem :
    (l : List AcceptArrival)
    → count_accepts (map accept_result l) ≡ length (passing accept_passes (λ a. a.peer) l)
unfolding passing accept_passes
count_accepts_lem [] = refl
count_accepts_lem (a ∷ l) = ground (arith, count_accepts_lem l)

module _ (n slot : ℕ) (s : System) (p : Proposal) where
  -- The seen replies of a prepare phase, and what its tally says of them.
  prepared_by :
      (own : Option PaxosValue) (us : List PrepareArrival) (t : Tally)
      → Counted (start_tally own) (map prepare_result us) t
      → OneEach n (map (λ a. a.peer) us)
      → All (PrepareGenuine s p.round p.number) us
      → n / 2 < t.num_ok
      → Prepared n (history slot s) p.round p.number t.propose_value
  unfolding prepare_passes
  prepared_by own us t c d g most = record {
    top = t.max_seq_num_accepted;
    heard =
        passing-Quorum prepare_passes (λ a. a.peer) n _ us d
          (both us g (All-of_map prepare_result _ us c.largest))
          (omega (arith, c.total, count_ok_lem us));
    source = source_of (elim (c.source) [
      | inl same ↦ inl same
      | inr a ↦
          inr (
            Any-map _ _ (map prepare_result us) (λ q (ok, above, most, value). (ok, most, value)) a)
    ]);
  }
    where
      both :
          (l : List PrepareArrival)
          → All (PrepareGenuine s p.round p.number) l
          → All (λ a. prepare_passes a ≡ true → a.reply.seq_num_accepted ≤ t.max_seq_num_accepted) l
          → All
              (λ a.
                prepare_passes a ≡ true
                → Heard (history slot s) p.round p.number t.max_seq_num_accepted a.peer)
              l
      both [] g h = tt
      both (a ∷ l) g h = ((λ e. (a.reply, g.0 e, h.0 e)), both l g.1 h.1)

      source_of :
          ((t.max_seq_num_accepted ≡ 0) × (t.propose_value ≡ own))
            ⊎ Any
                (λ r.
                  (counts r ≡ true)
                  × (r.1.seq_num_accepted ≡ t.max_seq_num_accepted)
                  × (r.1.value_accepted ≡ t.propose_value))
                (map prepare_result us)
          → (t.max_seq_num_accepted ≡ 0)
            ⊎ Source (history slot s) p.round p.number t.max_seq_num_accepted t.propose_value
      source_of (inl x) = inl x.0
      source_of (inr y) =
          let (a, (ok, acc, val), gen) =
            found prepare_result _ (PrepareGenuine s p.round p.number) us g y in
          inr (a.peer, a.reply, gen ok, acc, val)

  -- The prepare phase of a round that goes on has heard a quorum.
  pub Prepares-Prepared : Prepares n s p → Prepared n (history slot s) p.round p.number p.value
  Prepares-Prepared q =
      let rd = collect_prepares-Read n (start_tally q.own) (map prepare_result q.arrivals) in
      let (us, ws, e, f) = map_split prepare_result q.arrivals rd.seen rd.unseen rd.split in
      let t = collect_prepares n (start_tally q.own) (map prepare_result q.arrivals) in
      subst (λ v. Prepared n (history slot s) p.round p.number v) q.chooses
        (prepared_by q.own us t (subst (λ l. Counted (start_tally q.own) l t) (sym f) rd.counted)
          (OneEach-prefix prepare_passes (λ a. a.peer) n us ws
            (subst (λ l. OneEach n (map (λ a. a.peer) l)) e q.one_each))
          (All-prefix _ us ws (subst (λ l. All (PrepareGenuine s p.round p.number) l) e q.genuine))
          (ground (arith, q.majority)))

  -- The accept phase of a round that decides has a quorum of votes.
  pub Accepts-ChosenAt :
      In p s.proposals → Accepts n s p → ChosenAt n (history slot s) p.number p.value
  unfolding accept_passes
  Accepts-ChosenAt sent a = record {
    proposed = (p.round, sent);
    quorum =
        passing-Quorum accept_passes (λ a. a.peer) n _ a.arrivals a.one_each a.genuine
          (ground (
            arith,
            a.majority,
            collect_accepts-majority n (0, 0) (map accept_result a.arrivals),
            count_accepts_lem a.arrivals,
          ));
  }
