-- ===== src/Lsp/Settling.antt =====
-- client_impl.go: the event loop comes to rest.
use projects.Common.{
  if_split, ℕ, zero, suc, ◌+◌, ◌*◌, ◌≤◌, ◌<◌, ◌≡◌, refl, ◌⊎◌, inl, inr, Bool, true, false, Option,
  none, some, List, [], ◌∷◌, length, length-append, arith, ◌==◌,
}
use projects.Lsp.Message.{new_ack, Message, MsgType}
use projects.Lsp.Buffer.{insert, adjust_using_window, delete, Buffer, remove}
use projects.Lsp.Client.{
  Op, Request, Output, Client, read_front, handle_read, send_or_keep, handle_write, handle_close,
  handle_connect,
}
use projects.Lsp.Arrivals.{handle_epoch, acked, or_panic, handle_data, by_type, handle_received_msg}
use projects.Lsp.EventLoop.{Turn, handle, handle_op, handled, turn, event_handler, go_on}
use projects.Lsp.Moves.{Move, turn-Move}

-- The requests that wait, those on the channel counted twice.
abbrev pub weight : Client → List Request → ℕ
weight c q = 2 * length q + length c.deferred_read + length c.deferred_close

-- The handler leaves the deferred requests alone.
record Same (c : Client) (r : Client × List Output) : Type 0 where
  reads_eq : r.0.deferred_read ≡ c.deferred_read
  closes_eq : r.0.deferred_close ≡ c.deferred_close

same :
    {c : Client} {r : Client × List Output}
    → r.0.deferred_read ≡ c.deferred_read
    → r.0.deferred_close ≡ c.deferred_close
    → Same c r
same e f = record { reads_eq = e; closes_eq = f }

read_front-Same :
    (c : Client) (req : Request) (r : Option (Message × Buffer)) → Same c (read_front c req r)
unfolding read_front
read_front-Same c req none = same refl refl
read_front-Same c req (some (m, b)) = same refl refl

acked-Same : (c : Client) (msg : Message) (r : Buffer × Bool) → Same c (acked c msg r)
unfolding acked
acked-Same c msg (b, false) = same refl refl
acked-Same c msg (b, true) =
    if_split (Same c) (msg.seq_num == 0) _ _ (same refl refl) (same refl refl)

or_panic-Same : (c : Client) (b : Option Buffer) (outs : List Output) → Same c (or_panic c b, outs)
or_panic-Same c none outs = same refl refl
or_panic-Same c (some b) outs = same refl refl

handle_data-Same : (c : Client) (msg : Message) → Same c (handle_data c msg)
unfolding handle_data
handle_data-Same c msg =
    let kept = record c { read_buffer = insert msg c.read_buffer } in
    let acks =
      or_panic-Same kept
        (adjust_using_window c.params.window_size
          (insert (new_ack c.conn_id msg.seq_num) c.latest_ack_buffer))
        [] in
    same (ground (arith, acks.reads_eq)) (ground (arith, acks.closes_eq))

by_type-Same : (c : Client) (msg : Message) (t : MsgType) → Same c (by_type c msg t)
unfolding by_type
by_type-Same c msg MsgType.msg_connect = same refl refl
by_type-Same c msg MsgType.msg_ack = acked-Same c msg (delete msg.seq_num c.unacked_msg_buffer)
by_type-Same c msg MsgType.msg_data = handle_data-Same c msg

handle_op-Same : (c : Client) (req : Request) (op : Op) → Same c (handle_op c req op)
unfolding handle_op handle_read handle_write send_or_keep handle_epoch handle_received_msg
    handle_close handle_connect
handle_op-Same c req Op.do_read =
    let r = read_front-Same c req (remove c.read_buffer) in
    same (ground (arith, r.reads_eq)) (ground (arith, r.closes_eq))
handle_op-Same c req (Op.do_write bytes) = same (ground arith) (ground arith)
handle_op-Same c req Op.do_close = same refl refl
handle_op-Same c req Op.do_conn_id = same refl refl
handle_op-Same c req Op.do_connect = same refl refl
handle_op-Same c req Op.epoch_timer = same (ground arith) (ground arith)
handle_op-Same c req (Op.receive_msg msg) =
    let active = record c { latest_active_epoch = c.curr_epoch } in
    let s = by_type-Same active msg msg.type in same s.reads_eq s.closes_eq

-- A turn that moves takes weight off.
abbrev Lighter : Client → List Request → Turn → Type 0
Lighter c q Turn.halted = Unit
Lighter c q Turn.blocked = Unit
Lighter c q (Turn.moved c' q' outs) = weight c' q' < weight c q

handled-weight :
    (c : Client) (req : Request) (q : List Request) (n : ℕ)
    → weight c q < n
    → weight (handle c req).0 q < n
unfolding handle
handled-weight c req q n h =
    let unchanged = handle_op-Same c req req.op in rw (unchanged.reads_eq, unchanged.closes_eq) h

turn-Lighter : (c : Client) (q : List Request) (t : Turn) → Move c q t → Lighter c q t
unfolding handled
turn-Lighter c q t Move.halts = tt
turn-Lighter c q t Move.blocks = tt
turn-Lighter c q t (Move.read_waits req q' e o) =
    rw e (omega (arith, length-append c.deferred_read (req ∷ [])))
turn-Lighter c q t (Move.close_waits req q' e o) =
    rw e (omega (arith, length-append c.deferred_close (req ∷ [])))
turn-Lighter c q t (Move.read_unblocked req rs e) =
    handled-weight (record c { deferred_read = rs }) req q _ (rw e (omega arith))
turn-Lighter c q t (Move.close_unblocked req cs e) =
    handled-weight (record c { deferred_close = cs }) req q _ (rw e (omega arith))
turn-Lighter c q t (Move.served req q' e) = handled-weight c req q' _ (rw e (omega arith))

-- The loop has ended, or waits for a request with none on the channel.
abbrev pub AtRest : Client → List Request → Type 0
AtRest c q = (turn c q ≡ Turn.halted) ⊎ (turn c q ≡ Turn.blocked)

go_on-AtRest :
    (n : ℕ) (c : Client) (q : List Request) (t : Turn)
    → turn c q ≡ t
    → Lighter c q t
    → weight c q ≤ suc n
    → ((c' : Client) (q' : List Request)
        → weight c' q' ≤ n
        → let r = event_handler n c' q' in AtRest r.0 r.1)
    → let r = go_on (event_handler n) c q t in AtRest r.0 r.1
go_on-AtRest n c q Turn.halted e l h ih = inl e
go_on-AtRest n c q Turn.blocked e l h ih = inr e
go_on-AtRest n c q (Turn.moved c' q' outs) e l h ih = ih c' q' (omega (arith, l, h))

light-AtRest :
    (c : Client) (q : List Request) (t : Turn)
    → turn c q ≡ t
    → Lighter c q t
    → weight c q ≤ 0
    → AtRest c q
light-AtRest c q Turn.halted e l h = inl e
light-AtRest c q Turn.blocked e l h = inr e
light-AtRest c q (Turn.moved c' q' outs) e l h = absurd (omega (arith, l, h))

-- The event loop serves what it is given in finitely many turns: after twice as many as there are
-- requests on the channel, and one for each deferred request, it has ended or waits for a request, if no
-- send of a handler has to wait.
event_handler_rests :
    (n : ℕ) (c : Client) (q : List Request)
    → weight c q ≤ n
    → let r = event_handler n c q in AtRest r.0 r.1
unfolding event_handler
event_handler_rests zero c q h =
    light-AtRest c q (turn c q) refl (turn-Lighter c q _ (turn-Move c q)) h
event_handler_rests (suc n) c q h =
    go_on-AtRest n c q (turn c q) refl (turn-Lighter c q _ (turn-Move c q)) h
      (λ c' q' h'. event_handler_rests n c' q' h')
