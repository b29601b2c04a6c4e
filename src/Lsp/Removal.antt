-- ===== src/Lsp/Removal.antt =====
-- buffer.go: `Delete` and `AdjustUsingWindow` on the map that a buffer stands for.
use projects.Common.{
  ℕ, ◌+◌, ◌<◌, ◌≡◌, refl, Bool, true, false, none, some, [], ◌∷◌, ltb, ◌==◌, if◌then◌else◌, All,
  Bool-cases, arith, inl, inr, Option,
}
use projects.Lsp.Message.{Message}
use projects.Lsp.Buffer.{Buffer, back, delete, drop_left, adjust_using_window}
use projects.Lsp.Sorted.{Sorted, find, find-above, All-map}

abbrev pub is_some : Option Message → Bool
is_some none = false
is_some (some m) = true

pub delete-All : (P : Message → Type 0) (d : ℕ) (b : Buffer) → All P b → All P (delete d b).0
unfolding delete
delete-All P d [] a = tt
delete-All P d (e ∷ b) a = ground (arith, delete-All P d b a.1)

pub delete-Sorted : (d : ℕ) (b : Buffer) → Sorted b → Sorted (delete d b).0
unfolding delete
delete-Sorted d [] s = tt
delete-Sorted d (e ∷ b) s =
    ground (arith, delete-Sorted d b s.1, delete-All (λ n. e.seq_num < n.seq_num) d b s.0)

find-delete :
    (k d : ℕ) (b : Buffer) → Sorted b → find k (delete d b).0 ≡ (if d == k then none else find k b)
unfolding find delete
find-delete k d [] s = ground arith
find-delete k d (e ∷ b) s = elim (Bool-cases (e.seq_num == d)) [
  | inl eq ↦ rw eq (ground (arith, find-above e.seq_num b s.0))
  | inr ne ↦ rw ne (ground (arith, find-delete k d b s.1))
]

delete-found : (d : ℕ) (b : Buffer) → (delete d b).1 ≡ is_some (find d b)
unfolding find delete
delete-found d [] = refl
delete-found d (e ∷ b) = ground (arith, delete-found d b)

-- On a buffer in order, `Delete` keeps the order, is deletion from the map, and reports whether the
-- number was there.
pub delete_lem :
    (d : ℕ) (b : Buffer) (k : ℕ)
    → Sorted b
    → Sorted (delete d b).0
      × (find k (delete d b).0 ≡ (if d == k then none else find k b))
      × ((delete d b).1 ≡ is_some (find d b))
delete_lem d b k s = (delete-Sorted d b s, find-delete k d b s, delete-found d b)

drop_left-Sorted : (r w : ℕ) (b : Buffer) → Sorted b → Sorted (drop_left r w b)
unfolding drop_left
drop_left-Sorted r w [] s = tt
drop_left-Sorted r w (e ∷ b) s = ground (arith, drop_left-Sorted r w b s.1)

find-drop_left :
    (k r w : ℕ) (b : Buffer)
    → Sorted b
    → find k (drop_left r w b) ≡ (if ltb (k + w) (r + 1) then none else find k b)
unfolding find drop_left
find-drop_left k r w [] s = ground arith
find-drop_left k r w (e ∷ b) s = elim (Bool-cases (ltb (e.seq_num + w) (r + 1))) [
  | inl lt ↦ rw lt (ground (arith, find-drop_left k r w b s.1))
  | inr ge ↦
      let below : k < e.seq_num → find k b ≡ none =
        λ h. find-above k b (All-map b (λ n g. omega (arith, g)) s.0) in
      rw ge (ground (arith, below))
]

-- On a buffer in order whose last message is `last`, `AdjustUsingWindow` does not fail, keeps the
-- order, and drops exactly the messages that are a window or more below the last one.
pub adjust_using_window_lem :
    (w : ℕ) (last : Message) (b : Buffer) (k : ℕ)
    → Sorted b
    → back b ≡ some last
    → (b' : Buffer) × (adjust_using_window w b ≡ some b')
      × Sorted b'
      × (find k b' ≡ (if ltb (k + w) (last.seq_num + 1) then none else find k b))
unfolding adjust_using_window
adjust_using_window_lem w last b k s h = (
  drop_left last.seq_num w b,
  rw h refl,
  drop_left-Sorted last.seq_num w b s,
  find-drop_left k last.seq_num w b s,
)
