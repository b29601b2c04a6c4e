-- ===== src/Lsp/Window.antt =====
-- client_impl.go: the two buffers of messages that are sent or wait to be sent.
use projects.Common.{
  ℕ, suc, ◌+◌, ◌≤◌, ◌<◌, ◌≡◌, refl, ◌∙◌, true, false, [], ◌∷◌, ◌++◌, leb, Bool-cases, All,
  All-append, arith, inl, inr,
}
use projects.Lsp.Message.{Message}
use projects.Lsp.Buffer.{Buffer, insert, delete}
use projects.Lsp.Sorted.{Sorted, All-map, insert_above}
use projects.Lsp.Client.{is_empty}
use projects.Lsp.Arrivals.{move_window}

-- The left end of the window: the first number that is not acknowledged.
abbrev pub left : Buffer → ℕ
left [] = 0
left (m ∷ b) = m.seq_num

-- With window size `size` and `top` the last number given out: both buffers are in order, what is
-- sent lies in the window, what waits lies beyond it, and nothing waits when all is acknowledged.
pub record Ordered (size top : ℕ) (write unacked : Buffer) : Type 0 where
  pub write_sorted : Sorted write
  pub unacked_sorted : Sorted unacked
  pub fits : All (λ m. m.seq_num < left unacked + size) unacked
  pub waits : All (λ m. left unacked + size ≤ m.seq_num) write
  pub idle_write : is_empty unacked ≡ true → is_empty write ≡ true
  pub write_numbered : All (λ m. m.seq_num ≤ top) write
  pub unacked_numbered : All (λ m. m.seq_num ≤ top) unacked

pub Sorted-append :
    (m : Message) (b : Buffer)
    → Sorted b
    → All (λ n. n.seq_num < m.seq_num) b
    → Sorted (b ++ m ∷ [])
Sorted-append m [] s a = (tt, tt)
Sorted-append m (e ∷ b) s a = (All-append _ b (m ∷ []) s.0 (a.0, tt), Sorted-append m b s.1 a.1)

pub left-append : (m : Message) (b : Buffer) → is_empty b ≡ false → left (b ++ m ∷ []) ≡ left b
left-append m [] h = cc
left-append m (e ∷ b) h = refl

pub append-not_empty : (m : Message) (b : Buffer) → is_empty (b ++ m ∷ []) ≡ false
append-not_empty m [] = refl
append-not_empty m (e ∷ b) = refl

pub delete_unfound : (d : ℕ) (b : Buffer) → (delete d b).1 ≡ false → (delete d b).0 ≡ b
unfolding delete
delete_unfound d [] h = refl
delete_unfound d (e ∷ b) h = ground (arith, delete_unfound d b)

pub left-delete :
    (d : ℕ) (b : Buffer) → Sorted b → is_empty (delete d b).0 ≡ false → left b ≤ left (delete d b).0
unfolding delete
left-delete d [] s h = cc
left-delete d (e ∷ []) s h = ground arith
left-delete d (e ∷ f ∷ b) s h = ground arith

-- A stage of the loop: `b` parts what is sent from what waits, and `first` is the left end.
pub record Sending (size top first b : ℕ) (write unacked : Buffer) : Type 0 where
  pub write_sorted : Sorted write
  pub write_above : All (λ m. b ≤ m.seq_num) write
  pub write_numbered : All (λ m. m.seq_num ≤ top) write
  pub unacked_sorted : Sorted unacked
  pub unacked_below : All (λ m. m.seq_num < b) unacked
  pub unacked_numbered : All (λ m. m.seq_num ≤ top) unacked
  pub fits : All (λ m. m.seq_num < first + size) unacked
  pub first_eq : left unacked ≡ first
  pub not_empty : is_empty unacked ≡ false

send_one :
    (size top first b : ℕ) (m : Message) (write unacked : Buffer)
    → Sending size top first b (m ∷ write) unacked
    → m.seq_num < first + size
    → Sending size top first (suc m.seq_num) write (insert m unacked)
send_one size top first b m write unacked s lt =
    let below : All (λ u. u.seq_num < m.seq_num) unacked =
      All-map unacked (λ u h. omega (arith, h, s.write_above.0)) s.unacked_below in
    let e : insert m unacked ≡ unacked ++ m ∷ [] = insert_above m unacked s.unacked_sorted below in
    record {
      write_sorted = s.write_sorted.1;
      write_above = All-map write (λ n h. omega (arith, h)) s.write_sorted.0;
      write_numbered = s.write_numbered.1;
      unacked_sorted = rw e (Sorted-append m unacked s.unacked_sorted below);
      unacked_below = rw e (
          All-append _ unacked (m ∷ []) (All-map unacked (λ n h. omega (arith, h)) below)
            (omega arith, tt));
      unacked_numbered =
          rw e (All-append _ unacked (m ∷ []) s.unacked_numbered (s.write_numbered.0, tt));
      fits = rw e (All-append _ unacked (m ∷ []) s.fits (lt, tt));
      first_eq = rw e (left-append m unacked s.not_empty ∙ s.first_eq);
      not_empty = rw e (append-not_empty m unacked);
    }

pub move_window-Ordered :
    (size top first b : ℕ) (write unacked : Buffer)
    → Sending size top first b write unacked
    → Ordered size top
        (move_window first size write unacked).0
        (move_window first size write unacked).1
unfolding move_window
move_window-Ordered size top first b [] unacked s = record {
  write_sorted = tt;
  unacked_sorted = s.unacked_sorted;
  fits = rw s.first_eq s.fits;
  waits = tt;
  idle_write = λ h. refl;
  write_numbered = tt;
  unacked_numbered = s.unacked_numbered;
}
move_window-Ordered size top first b (m ∷ write) unacked s =
    elim (Bool-cases (leb (first + size) m.seq_num)) [
      | inl ge ↦
          let le : first + size ≤ m.seq_num = ground arith in
          rw ge (record {
            write_sorted = s.write_sorted;
            unacked_sorted = s.unacked_sorted;
            fits = rw s.first_eq s.fits;
            waits =
                rw s.first_eq (le, All-map write (λ n h. omega (arith, h, le)) s.write_sorted.0);
            idle_write = λ h. absurd (cc (h, s.not_empty));
            write_numbered = s.write_numbered;
            unacked_numbered = s.unacked_numbered;
          })
      | inr lt ↦ rw lt (
          move_window-Ordered size top first (suc m.seq_num) write (insert m unacked)
            (send_one size top first b m write unacked s (ground arith)))
    ]
