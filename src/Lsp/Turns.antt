-- ===== src/Lsp/Turns.antt =====
-- client_impl.go: the window over a whole run of the event loop.
use projects.Common.{ℕ, zero, suc, ◌≤◌, ◌≡◌, refl, ◌∙◌, List, [], ◌∷◌, All-append, arith}
use projects.Lsp.Message.{Params}
use projects.Lsp.Client.{Op, Request, Output, Client, new_client, handle_connect}
use projects.Lsp.Buffer.{insert}
use projects.Lsp.EventLoop.{
  Turn, handle, handle_op, handled, turn, event_handler, go_on, unblock_read, unblock_close,
  take_next, take_op,
}
use projects.Lsp.Moves.{Move, turn-Move}
use projects.Lsp.Window.{Ordered}
use projects.Lsp.Windowed.{NoConnect, NoConnects, Windowed, handle_op-Keeps}

-- A client between two turns.
record Connected (params : Params) (c : Client) : Type 0 where
  windowed : Windowed c
  params_eq : c.params ≡ params
  reads : NoConnects c.deferred_read
  closes : NoConnects c.deferred_close

abbrev Stays : Params → Turn → Type 0
Stays params Turn.halted = Unit
Stays params Turn.blocked = Unit
Stays params (Turn.moved c q outs) = Connected params c × NoConnects q

handle-Stays :
    (params : Params) (c : Client) (req : Request) (q : List Request)
    → 1 ≤ params.window_size
    → NoConnect req.op
    → NoConnects q
    → Connected params c
    → Stays params (handled q (handle c req))
unfolding handled handle
handle-Stays params c req q one n nq h =
    let sized : 1 ≤ c.params.window_size = rw h.params_eq one in
    let k = handle_op-Keeps c req req.op n sized h.windowed in
    (
      record {
        windowed = k.windowed;
        params_eq = k.same_params ∙ h.params_eq;
        reads = rw k.same_reads h.reads;
        closes = rw k.same_closes h.closes;
      },
      nq,
    )

relisted :
    (params : Params) (c : Client) (rs cs : List Request)
    → NoConnects rs
    → NoConnects cs
    → Connected params c
    → Connected params (record c { deferred_read = rs; deferred_close = cs })
relisted params c rs cs nr nc h = record {
  windowed = h.windowed;
  params_eq = h.params_eq;
  reads = nr;
  closes = nc;
}

Move-Stays :
    (params : Params) (c : Client) (q : List Request) (t : Turn)
    → 1 ≤ params.window_size
    → Move c q t
    → NoConnects q
    → Connected params c
    → Stays params t
Move-Stays params c q t one Move.halts n h = tt
Move-Stays params c q t one Move.blocks n h = tt
Move-Stays params c q t one (Move.read_waits req q' e o) n h =
    let n' : NoConnects (req ∷ q') = rw e at n in
    (
      relisted params c _ c.deferred_close
          (All-append _ c.deferred_read (req ∷ []) h.reads (n'.0, tt)) h.closes h,
      n'.1,
    )
Move-Stays params c q t one (Move.close_waits req q' e o) n h =
    let n' : NoConnects (req ∷ q') = rw e at n in
    (
      relisted params c c.deferred_read _ h.reads
          (All-append _ c.deferred_close (req ∷ []) h.closes (n'.0, tt)) h,
      n'.1,
    )
Move-Stays params c q t one (Move.read_unblocked req rs e) n h =
    let d : NoConnects (req ∷ rs) = rw e at h.reads in
    handle-Stays params _ req q one d.0 n (relisted params c rs c.deferred_close d.1 h.closes h)
Move-Stays params c q t one (Move.close_unblocked req cs e) n h =
    let d : NoConnects (req ∷ cs) = rw e at h.closes in
    handle-Stays params _ req q one d.0 n (relisted params c c.deferred_read cs h.reads d.1 h)
Move-Stays params c q t one (Move.served req q' e) n h =
    let n' : NoConnects (req ∷ q') = rw e at n in handle-Stays params c req q' one n'.0 n'.1 h

go_on-Connected :
    (params : Params) (c : Client) (q : List Request) (t : Turn)
    (loop : Client → List Request → Client × List Request × List Output)
    → Connected params c
    → Stays params t
    → ((c' : Client) (q' : List Request)
        → NoConnects q'
        → Connected params c'
        → Connected params (loop c' q').0)
    → Connected params (go_on loop c q t).0
go_on-Connected params c q Turn.halted loop h s ih = h
go_on-Connected params c q Turn.blocked loop h s ih = h
go_on-Connected params c q (Turn.moved c' q' outs) loop h s ih = ih c' q' s.1 s.0

event_handler-Connected :
    (params : Params) (n : ℕ) (c : Client) (q : List Request)
    → 1 ≤ params.window_size
    → NoConnects q
    → Connected params c
    → Connected params (event_handler n c q).0
unfolding event_handler
event_handler-Connected params zero c q one nq h = h
event_handler-Connected params (suc n) c q one nq h =
    go_on-Connected params c q (turn c q) (event_handler n) h
      (Move-Stays params c q _ one (turn-Move c q) nq h)
      (λ c' q' n' h'. event_handler-Connected params n c' q' one n' h')

new-Connected : (params : Params) → Connected params (new_client params)
new-Connected params = record {
  windowed = record {
    write_sorted = tt;
    unacked_sorted = tt;
    fits = tt;
    waits = tt;
    idle_write = λ h. refl;
    write_numbered = tt;
    unacked_numbered = tt;
  };
  params_eq = refl;
  reads = tt;
  closes = tt;
}

connect-Stays :
    (params : Params) (connect : Request) (q : List Request)
    → 1 ≤ params.window_size
    → connect.op ≡ Op.do_connect
    → NoConnects q
    → Stays params (turn (new_client params) (connect ∷ q))
unfolding turn unblock_read unblock_close take_next take_op handled handle handle_op handle_connect
    insert
connect-Stays params connect q one e n = rw e (
  record {
    windowed = record {
      write_sorted = tt;
      unacked_sorted = (tt, tt);
      fits = (omega arith, tt);
      waits = tt;
      idle_write = λ h. refl;
      write_numbered = tt;
      unacked_numbered = (omega arith, tt);
    };
    params_eq = refl;
    reads = tt;
    closes = tt;
  },
  n,
)

-- With a window of at least one message, a client whose first request is its connect request and
-- whose further requests are any others has, after any number of turns, its window in order: the
-- messages sent and not acknowledged are in order and less than the window's size above the first
-- of them, those that wait are in order, at or beyond the window's end and none of them waits
-- when all sent ones are acknowledged.
pub window_kept :
    (params : Params) (n : ℕ) (connect : Request) (q : List Request)
    → 1 ≤ params.window_size
    → connect.op ≡ Op.do_connect
    → NoConnects q
    → let c = (event_handler n (new_client params) (connect ∷ q)).0 in
      Ordered params.window_size c.seq_num c.write_buffer c.unacked_msg_buffer
unfolding event_handler
window_kept params zero connect q one e nq = (new-Connected params).windowed
window_kept params (suc n) connect q one e nq =
    let h =
      go_on-Connected params (new_client params) (connect ∷ q) _ (event_handler n)
        (new-Connected params) (connect-Stays params connect q one e nq)
        (λ c' q' n' h'. event_handler-Connected params n c' q' one n' h') in
    rw h.params_eq at h.windowed
