-- ===== src/Lsp/Sliding.antt =====
-- client_impl.go: writes and acknowledgements slide the window.
use projects.Common.{
  ◌≢◌, ℕ, suc, ◌+◌, ◌≤◌, ◌<◌, ◌≡◌, refl, true, false, ◌&&◌, [], ◌∷◌, ◌++◌, All, All-append, arith,
}
use projects.Lsp.Message.{Message}
use projects.Lsp.Buffer.{Buffer, insert, front, delete}
use projects.Lsp.Sorted.{Sorted, All-map, insert_above}
use projects.Lsp.Removal.{delete-All, delete-Sorted}
use projects.Lsp.Client.{is_empty, in_window}
use projects.Lsp.Arrivals.{fill_window}
use projects.Lsp.Window.{left, Ordered, Sending, Sorted-append, left-delete, move_window-Ordered}

fill_nonempty :
    (size top b : ℕ) (m u : Message) (write unacked : Buffer)
    → Sending size top u.seq_num b (m ∷ write) (u ∷ unacked)
    → Ordered size top
        (fill_window size (m ∷ write) (u ∷ unacked)).0
        (fill_window size (m ∷ write) (u ∷ unacked)).1
unfolding fill_window front
fill_nonempty size top b m u write unacked s =
    move_window-Ordered size top u.seq_num b (m ∷ write) (u ∷ unacked) s

-- What is left after an acknowledgement, before the window is filled.
record Acked (size top b : ℕ) (write unacked : Buffer) : Type 0 where
  write_sorted : Sorted write
  write_above : All (λ m. b ≤ m.seq_num) write
  write_numbered : All (λ m. m.seq_num ≤ top) write
  unacked_sorted : Sorted unacked
  unacked_below : All (λ m. m.seq_num < b) unacked
  unacked_numbered : All (λ m. m.seq_num ≤ top) unacked
  end_le : is_empty unacked ≡ false → b ≤ left unacked + size

fill_window-Ordered :
    (size top b : ℕ) (write unacked : Buffer)
    → 1 ≤ size
    → Acked size top b write unacked
    → Ordered size top (fill_window size write unacked).0 (fill_window size write unacked).1
unfolding fill_window front insert
fill_window-Ordered size top b [] [] one a = record {
  write_sorted = tt;
  unacked_sorted = tt;
  fits = tt;
  waits = tt;
  idle_write = λ h. refl;
  write_numbered = tt;
  unacked_numbered = tt;
}
fill_window-Ordered size top b [] (u ∷ unacked) one a = record {
  write_sorted = tt;
  unacked_sorted = a.unacked_sorted;
  fits = All-map (u ∷ unacked) (λ m h. omega (arith, h, a.end_le refl)) a.unacked_below;
  waits = tt;
  idle_write = λ h. refl;
  write_numbered = tt;
  unacked_numbered = a.unacked_numbered;
}
fill_window-Ordered size top b (m ∷ write) [] one a =
    move_window-Ordered size top m.seq_num (suc m.seq_num) write (m ∷ []) (record {
      write_sorted = a.write_sorted.1;
      write_above = All-map write (λ n h. omega (arith, h)) a.write_sorted.0;
      write_numbered = a.write_numbered.1;
      unacked_sorted = (tt, tt);
      unacked_below = (omega arith, tt);
      unacked_numbered = (a.write_numbered.0, tt);
      fits = (omega arith, tt);
      first_eq = refl;
      not_empty = refl;
    })
fill_window-Ordered size top b (m ∷ write) (u ∷ unacked) one a =
    fill_nonempty size top b m u write unacked (record {
      write_sorted = a.write_sorted;
      write_above = a.write_above;
      write_numbered = a.write_numbered;
      unacked_sorted = a.unacked_sorted;
      unacked_below = a.unacked_below;
      unacked_numbered = a.unacked_numbered;
      fits = All-map (u ∷ unacked) (λ m h. omega (arith, h, a.end_le refl)) a.unacked_below;
      first_eq = refl;
      not_empty = refl;
    })

delete-Acked :
    (size top d : ℕ) (write unacked : Buffer)
    → Ordered size top write unacked
    → Acked size top (left unacked + size) write (delete d unacked).0
delete-Acked size top d write unacked o = record {
  write_sorted = o.write_sorted;
  write_above = o.waits;
  write_numbered = o.write_numbered;
  unacked_sorted = delete-Sorted d unacked o.unacked_sorted;
  unacked_below = delete-All _ d unacked o.fits;
  unacked_numbered = delete-All _ d unacked o.unacked_numbered;
  end_le = λ h. omega (arith, left-delete d unacked o.unacked_sorted h);
}

-- After an acknowledgement.
pub ack-Ordered :
    (size top d : ℕ) (write unacked : Buffer)
    → 1 ≤ size
    → Ordered size top write unacked
    → let r = fill_window size write (delete d unacked).0 in Ordered size top r.0 r.1
ack-Ordered size top d write unacked one o =
    fill_window-Ordered size top (left unacked + size) write (delete d unacked).0 one
      (delete-Acked size top d write unacked o)

fits-append :
    (size : ℕ) (m : Message) (unacked : Buffer)
    → 1 ≤ size
    → in_window m.seq_num size unacked ≡ true
    → All (λ u. u.seq_num < left unacked + size) unacked
    → All (λ u. u.seq_num < left (unacked ++ m ∷ []) + size) (unacked ++ m ∷ [])
fits-append size m [] one h a = (omega arith, tt)
fits-append size m (u ∷ unacked) one h a =
    let lt : m.seq_num < u.seq_num + size = ground arith in
    (a.0, All-append _ unacked (m ∷ []) a.1 (lt, tt))

occupied :
    (size : ℕ) (m : Message) (write unacked : Buffer)
    → (is_empty write && in_window m.seq_num size unacked) ≡ false
    → (is_empty unacked ≡ true → is_empty write ≡ true)
    → is_empty unacked ≢ true
occupied size m write [] h i g = ground (arith, i g)
occupied size m write (u ∷ unacked) h i g = cc

no_room :
    (size top : ℕ) (m : Message) (write unacked : Buffer)
    → m.seq_num ≡ top + 1
    → (is_empty write && in_window m.seq_num size unacked) ≡ false
    → Ordered size top write unacked
    → left unacked + size ≤ m.seq_num
no_room size top m write [] e h o = absurd (occupied size m write [] h o.idle_write refl)
no_room size top m [] (u ∷ unacked) e h o = ground arith
no_room size top m (w ∷ write) (u ∷ unacked) e h o = omega (arith, o.waits.0, o.write_numbered.0, e)

-- After a write that is sent at once.
pub sent-Ordered :
    (size top : ℕ) (m : Message) (write unacked : Buffer)
    → 1 ≤ size
    → m.seq_num ≡ top + 1
    → (is_empty write && in_window m.seq_num size unacked) ≡ true
    → Ordered size top write unacked
    → Ordered size (top + 1) write (insert m unacked)
sent-Ordered size top m (w ∷ write) unacked one e h o = cc
sent-Ordered size top m [] unacked one e h o =
    let below : All (λ u. u.seq_num < m.seq_num) unacked =
      All-map unacked (λ u g. omega (arith, g, e)) o.unacked_numbered in
    let at_end : insert m unacked ≡ unacked ++ m ∷ [] =
      insert_above m unacked o.unacked_sorted below in
    rw at_end (record {
      write_sorted = tt;
      unacked_sorted = Sorted-append m unacked o.unacked_sorted below;
      fits = fits-append size m unacked one h o.fits;
      waits = tt;
      idle_write = λ g. refl;
      write_numbered = tt;
      unacked_numbered =
          All-append _ unacked (m ∷ [])
            (All-map unacked (λ u g. omega (arith, g)) o.unacked_numbered) (omega (arith, e), tt);
    })

-- After a write that has to wait.
pub kept-Ordered :
    (size top : ℕ) (m : Message) (write unacked : Buffer)
    → m.seq_num ≡ top + 1
    → (is_empty write && in_window m.seq_num size unacked) ≡ false
    → Ordered size top write unacked
    → Ordered size (top + 1) (insert m write) unacked
kept-Ordered size top m write unacked e h o =
    let below : All (λ u. u.seq_num < m.seq_num) write =
      All-map write (λ u g. omega (arith, g, e)) o.write_numbered in
    let at_end : insert m write ≡ write ++ m ∷ [] = insert_above m write o.write_sorted below in
    rw at_end (record {
      write_sorted = Sorted-append m write o.write_sorted below;
      unacked_sorted = o.unacked_sorted;
      fits = o.fits;
      waits = All-append _ write (m ∷ []) o.waits (no_room size top m write unacked e h o, tt);
      idle_write = λ g. absurd (occupied size m write unacked h o.idle_write g);
      write_numbered =
          All-append _ write (m ∷ []) (All-map write (λ u g. omega (arith, g)) o.write_numbered)
            (omega (arith, e), tt);
      unacked_numbered = All-map unacked (λ u g. omega (arith, g)) o.unacked_numbered;
    })
