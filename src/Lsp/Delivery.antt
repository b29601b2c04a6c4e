-- ===== src/Lsp/Delivery.antt =====
-- client_impl.go: each handler delivers the next payloads of the stream, or none.
use projects.Common.{
  ℕ, ◌+◌, ◌≤◌, ◌≡◌, refl, Bool, true, false, not, ◌||◌, Option, none, some, List, [], ◌∷◌, leb,
  ◌==◌, Bool-cases, arith, inl, inr,
}
use projects.Lsp.Message.{MsgType, Message, Payload}
use projects.Lsp.Buffer.{Buffer, insert}
use projects.Lsp.Sorted.{insert_lem, insert-All}
use projects.Lsp.Client.{Op, Request, Output, Client, is_empty, handle_close, handle_connect}
use projects.Lsp.Arrivals.{
  handle_epoch, fill_window, acked, or_panic, handle_data, by_type, handle_received_msg,
}
use projects.Lsp.Replies.{reads-silent, reads-resent, reads-fill_window, reads-handle_close}
use projects.Lsp.EventLoop.{handle_op}
use projects.Lsp.Readable.{
  Genuine, GenuineOp, GenuineAll, Readable, Progress, idle, handle_read-Progress,
  handle_write-Progress,
}

handle_epoch-Progress :
    (stream : ℕ → Payload) (c : Client) → Readable stream c → Progress stream c (handle_epoch c)
unfolding handle_epoch
handle_epoch-Progress stream c h =
    elim (Bool-cases (leb (c.params.epoch_limit + c.latest_active_epoch) (c.curr_epoch + 1))) [
      | inl e ↦ rw e (idle stream c _ _ h refl refl refl refl refl)
      | inr e ↦ rw e (
          idle stream c _ _ h refl refl refl refl
            (reads-resent (record c { curr_epoch = c.curr_epoch + 1 })))
    ]

acked-Progress :
    (stream : ℕ → Payload) (c : Client) (msg : Message) (r : Buffer × Bool)
    → Readable stream c
    → Progress stream c (acked c msg r)
unfolding acked
acked-Progress stream c msg (unacked, false) h = idle stream c _ _ h refl refl refl refl refl
acked-Progress stream c msg (unacked, true) h =
    let moved = fill_window c.params.window_size c.write_buffer unacked in
    let none_read = reads-fill_window c.params.window_size c.write_buffer unacked in
    elim (Bool-cases (msg.seq_num == 0)) [
      | inl e ↦ rw e (
          idle stream c _ _ h refl refl refl refl
            (reads-silent moved.2 (Output.established ∷ []) none_read refl))
      | inr e ↦ rw e (idle stream c _ _ h refl refl refl refl none_read)
    ]

or_panic-Progress :
    (stream : ℕ → Payload) (c : Client) (b : Buffer) (acks : Option Buffer) (m : Message)
    → Readable stream (record c { read_buffer = b })
    → Progress stream c (or_panic (record c { read_buffer = b }) acks, Output.sent m ∷ [])
or_panic-Progress stream c b none m h = record {
  keeps = h;
  count = 0;
  advances = omega arith;
  delivers = refl;
}
or_panic-Progress stream c b (some acks) m h = record {
  keeps = record {
    sorted = h.sorted;
    ahead = h.ahead;
    genuine = h.genuine;
    reads_genuine = h.reads_genuine;
    closes_genuine = h.closes_genuine;
  };
  count = 0;
  advances = omega arith;
  delivers = refl;
}

insert-Readable :
    (stream : ℕ → Payload) (c : Client) (msg : Message)
    → msg.payload ≡ stream msg.seq_num
    → c.expected_seq_num ≤ msg.seq_num
    → Readable stream c
    → Readable stream (record c { read_buffer = insert msg c.read_buffer })
insert-Readable stream c msg g le h = record {
  sorted = (insert_lem msg c.read_buffer 0 h.sorted).0;
  ahead = insert-All (λ m. c.expected_seq_num ≤ m.seq_num) msg c.read_buffer h.sorted le h.ahead;
  genuine = insert-All (λ m. m.payload ≡ stream m.seq_num) msg c.read_buffer h.sorted g h.genuine;
  reads_genuine = h.reads_genuine;
  closes_genuine = h.closes_genuine;
}

handle_data-Progress :
    (stream : ℕ → Payload) (c : Client) (msg : Message)
    → msg.payload ≡ stream msg.seq_num
    → Readable stream c
    → Progress stream c (handle_data c msg)
unfolding handle_data
handle_data-Progress stream c msg g h =
    elim (Bool-cases (c.conn_id == 0 || not (is_empty c.deferred_close))) [
      | inl e ↦ rw e (idle stream c c [] h refl refl refl refl refl)
      | inr e ↦ rw e (elim (Bool-cases (leb c.expected_seq_num msg.seq_num)) [
        | inl f ↦
            rw f
              (or_panic-Progress stream c _ _ _ (insert-Readable stream c msg g (ground arith) h))
        | inr f ↦ rw f (idle stream c c [] h refl refl refl refl refl)
      ])
    ]

by_type-Progress :
    (stream : ℕ → Payload) (c : Client) (msg : Message) (t : MsgType)
    → Genuine stream msg t
    → Readable stream c
    → Progress stream c (by_type c msg t)
unfolding by_type
by_type-Progress stream c msg MsgType.msg_connect g h =
    idle stream c c [] h refl refl refl refl refl
by_type-Progress stream c msg MsgType.msg_data g h = handle_data-Progress stream c msg g h
by_type-Progress stream c msg MsgType.msg_ack g h = acked-Progress stream c msg _ h

-- From a state that differs only in what a read does not see.
pub moved :
    (stream : ℕ → Payload) (c c' : Client) (r : Client × List Output)
    → c'.expected_seq_num ≡ c.expected_seq_num
    → Progress stream c' r
    → Progress stream c r
moved stream c c' r e p = record {
  keeps = p.keeps;
  count = p.count;
  advances = omega (arith, p.advances, e);
  delivers = rw e at p.delivers;
}

pub relisted :
    (stream : ℕ → Payload) (c : Client) (rs cs : List Request)
    → GenuineAll stream rs
    → GenuineAll stream cs
    → Readable stream c
    → Readable stream (record c { deferred_read = rs; deferred_close = cs })
relisted stream c rs cs gr gc h = record {
  sorted = h.sorted;
  ahead = h.ahead;
  genuine = h.genuine;
  reads_genuine = gr;
  closes_genuine = gc;
}

pub handle_op-Progress :
    (stream : ℕ → Payload) (c : Client) (req : Request) (op : Op)
    → GenuineOp stream op
    → Readable stream c
    → Progress stream c (handle_op c req op)
unfolding handle_op handle_received_msg handle_connect handle_close
handle_op-Progress stream c req Op.do_read g h = handle_read-Progress stream c req h
handle_op-Progress stream c req (Op.do_write bytes) g h = handle_write-Progress stream c req bytes h
handle_op-Progress stream c req Op.do_close g h =
    idle stream c _ _ h refl refl refl refl (reads-handle_close c req)
handle_op-Progress stream c req Op.do_conn_id g h = idle stream c c _ h refl refl refl refl refl
handle_op-Progress stream c req Op.do_connect g h = idle stream c _ _ h refl refl refl refl refl
handle_op-Progress stream c req Op.epoch_timer g h = handle_epoch-Progress stream c h
handle_op-Progress stream c req (Op.receive_msg msg) g h =
    let active = record c { latest_active_epoch = c.curr_epoch } in
    moved stream c active _ refl (
      by_type-Progress stream active msg msg.type g (record {
        sorted = h.sorted;
        ahead = h.ahead;
        genuine = h.genuine;
        reads_genuine = h.reads_genuine;
        closes_genuine = h.closes_genuine;
      }))
