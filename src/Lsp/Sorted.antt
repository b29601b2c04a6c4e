-- ===== src/Lsp/Sorted.antt =====
-- buffer.go: the buffer is a finite map from sequence numbers to messages, kept in increasing order.
use projects.Common.{
  ◌∙◌, ◌≢◌, sym, Option-cases, ℕ, ◌≤◌, ◌<◌, ◌≡◌, refl, Option, none, some, [], ◌∷◌, ◌++◌, ltb, leb,
  ◌==◌, if◌then◌else◌, All, Bool-cases, arith, inl, inr,
}
use projects.Lsp.Message.{Message}
use projects.Lsp.Buffer.{Buffer, back, insert, insert_before}

-- The numbers increase strictly.
abbrev pub Sorted : Buffer → Type 0
Sorted [] = Unit
Sorted (m ∷ b) = All (λ n. m.seq_num < n.seq_num) b × Sorted b

-- The map that a buffer stands for: the message of a number.
unfoldable pub find : ℕ → Buffer → Option Message
find k [] = none
find k (m ∷ b) = if m.seq_num == k then some m else find k b

-- Keeps the message that is there, if there is one.
abbrev pub or_else : Option Message → Message → Message
or_else none m = m
or_else (some n) m = n

pub All-map :
    {P Q : Message → Type 0} → (l : Buffer) → ((m : Message) → P m → Q m) → All P l → All Q l
All-map [] f a = tt
All-map (m ∷ l) f a = (f m a.0, All-map l f a.1)

-- Insertion in order by one walk, in place of the shortcut at the end and the search.
place : Message → Buffer → Buffer
place m [] = m ∷ []
place m (e ∷ b) =
    let rest = place m b in
    if ltb m.seq_num e.seq_num
    then m ∷ e ∷ b
    else if leb m.seq_num e.seq_num
    then e ∷ b
    else e ∷ rest

place-above :
    (m : Message) (b : Buffer) → All (λ n. n.seq_num < m.seq_num) b → place m b ≡ b ++ m ∷ []
unfolding place
place-above m [] a = refl
place-above m (e ∷ b) a = ground (arith, place-above m b a.1)

place-before :
    (m last : Message) (b : Buffer)
    → back b ≡ some last
    → m.seq_num ≤ last.seq_num
    → insert_before m b ≡ place m b
unfolding place insert_before
place-before m last [] h le = cc
place-before m last (e ∷ []) h le = ground arith
place-before m last (e ∷ f ∷ b) h le = ground (arith, place-before m last (f ∷ b) h le)

back_above :
    (last : Message) (b : Buffer)
    → Sorted b
    → back b ≡ some last
    → All (λ n. n.seq_num ≤ last.seq_num) b
back_above last [] s h = tt
back_above last (e ∷ []) s h = ground arith
back_above last (e ∷ f ∷ b) s h =
    let rest = back_above last (f ∷ b) s.1 h in (omega (arith, rest.0, s.0.0), rest)

back_some : (f : Message) (b : Buffer) → back (f ∷ b) ≢ none
back_some f [] h = cc
back_some f (g ∷ b) h = back_some g b h

none_above : (m : Message) (b : Buffer) → back b ≡ none → All (λ n. n.seq_num < m.seq_num) b
none_above m [] h = tt
none_above m (e ∷ []) h = cc
none_above m (e ∷ f ∷ b) h = absurd (back_some f b h)

insert-place : (m : Message) (b : Buffer) → Sorted b → insert m b ≡ place m b
unfolding insert
insert-place m b s = elim (Option-cases (back b)) [
  | inl e ↦ rw e (sym (place-above m b (none_above m b e)))
  | inr (last, e) ↦ elim (Bool-cases (ltb last.seq_num m.seq_num)) [
    | inl lt ↦
        rw (e, lt) (sym (place-above m b (All-map b (λ n h. ground arith) (back_above last b s e))))
    | inr ge ↦ rw (e, ge) (place-before m last b e (ground arith))
  ]
]

place-All : (P : Message → Type 0) (m : Message) (b : Buffer) → P m → All P b → All P (place m b)
unfolding place
place-All P m [] p a = (p, tt)
place-All P m (e ∷ b) p a = ground (arith, place-All P m b p a.1)

place-Sorted : (m : Message) (b : Buffer) → Sorted b → Sorted (place m b)
unfolding place
place-Sorted m [] s = (tt, tt)
place-Sorted m (e ∷ b) s = elim (Bool-cases (ltb m.seq_num e.seq_num)) [
  | inl lt ↦ rw lt ((ground arith, All-map b (λ n h. ground arith) s.0), s)
  | inr ge ↦ rw ge (elim (Bool-cases (leb m.seq_num e.seq_num)) [
    | inl le ↦ rw le s
    | inr gt ↦
        rw gt (place-All (λ n. e.seq_num < n.seq_num) m b (ground arith) s.0, place-Sorted m b s.1)
  ])
]

pub find-above : (k : ℕ) (b : Buffer) → All (λ n. k < n.seq_num) b → find k b ≡ none
unfolding find
find-above k [] a = refl
find-above k (e ∷ b) a = ground (arith, find-above k b a.1)

find-place :
    (k : ℕ) (m : Message) (b : Buffer)
    → Sorted b
    → find k (place m b) ≡ (if m.seq_num == k then some (or_else (find k b) m) else find k b)
unfolding find place
find-place k m [] s = refl
find-place k m (e ∷ b) s =
    let later : (m.seq_num < e.seq_num) → m.seq_num ≡ k → All (λ n. k < n.seq_num) b =
      λ lt eq. All-map b (λ n h. omega (arith, h)) s.0 in
    elim (Bool-cases (ltb m.seq_num e.seq_num)) [
      | inl lt ↦
          let above : m.seq_num ≡ k → find k b ≡ none =
            λ eq. find-above k b (later (ground arith) eq) in
          rw lt (ground (arith, above))
      | inr ge ↦ rw ge (ground (arith, find-place k m b s.1))
    ]

-- On a buffer in order, `Insert` keeps the order and is insertion into a map that keeps the message
-- that is there already.
pub insert_lem :
    (m : Message) (b : Buffer) (k : ℕ)
    → Sorted b
    → Sorted (insert m b)
      × (find k (insert m b) ≡ (if m.seq_num == k then some (or_else (find k b) m) else find k b))
insert_lem m b k s = rw (insert-place m b s) (place-Sorted m b s, find-place k m b s)

pub insert-All :
    (P : Message → Type 0) (m : Message) (b : Buffer)
    → Sorted b
    → P m
    → All P b
    → All P (insert m b)
insert-All P m b s p a = rw (insert-place m b s) (place-All P m b p a)

pub insert_above :
    (m : Message) (b : Buffer)
    → Sorted b
    → All (λ n. n.seq_num < m.seq_num) b
    → insert m b ≡ b ++ m ∷ []
insert_above m b s a = insert-place m b s ∙ place-above m b a
