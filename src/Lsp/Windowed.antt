-- ===== src/Lsp/Windowed.antt =====
-- client_impl.go: every turn of the client keeps its window.
use projects.Common.{
  if_split, ◌+◌, ◌≤◌, ◌≡◌, refl, Bool, true, false, not, ◌&&◌, ◌||◌, Option, none, some, List, leb,
  ◌==◌, Bool-cases, All, inl, inr,
}
use projects.Lsp.Message.{MsgType, Message, Payload, new_data}
use projects.Lsp.Buffer.{Buffer, insert, remove, delete}
use projects.Lsp.Client.{
  Output, Op, Request, Client, is_empty, in_window, front_is, read_front, handle_read, send_or_keep,
  handle_write, handle_close,
}
use projects.Lsp.Arrivals.{
  handle_epoch, fill_window, acked, or_panic, handle_data, by_type, handle_received_msg,
}
use projects.Lsp.EventLoop.{handle_op}
use projects.Lsp.Window.{Ordered, delete_unfound}
use projects.Lsp.Sliding.{ack-Ordered, sent-Ordered, kept-Ordered}

-- Only `NewClient` sends a connect request, as the first one.
abbrev pub NoConnect : Op → Type 0
NoConnect Op.do_connect = ⊥
NoConnect Op.do_read = Unit
NoConnect Op.do_close = Unit
NoConnect Op.do_conn_id = Unit
NoConnect Op.epoch_timer = Unit
NoConnect (Op.do_write bytes) = Unit
NoConnect (Op.receive_msg msg) = Unit

abbrev pub NoConnects : List Request → Type 0
NoConnects = All (λ r. NoConnect r.op)

-- The window of a client.
abbrev pub Windowed : Client → Type 0
Windowed c = Ordered c.params.window_size c.seq_num c.write_buffer c.unacked_msg_buffer

-- A handler's state keeps the window, the parameters and the deferred requests.
pub record Keeps (c c' : Client) : Type 0 where
  pub windowed : Windowed c'
  pub same_params : c'.params ≡ c.params
  pub same_reads : c'.deferred_read ≡ c.deferred_read
  pub same_closes : c'.deferred_close ≡ c.deferred_close

untouched :
    (c c' : Client)
    → Windowed c
    → c'.params ≡ c.params
    → c'.seq_num ≡ c.seq_num
    → c'.write_buffer ≡ c.write_buffer
    → c'.unacked_msg_buffer ≡ c.unacked_msg_buffer
    → c'.deferred_read ≡ c.deferred_read
    → c'.deferred_close ≡ c.deferred_close
    → Keeps c c'
untouched c c' h e1 e2 e3 e4 e5 e6 = record {
  windowed = rw (e1, e2, e3, e4) h;
  same_params = e1;
  same_reads = e5;
  same_closes = e6;
}

read_front-Keeps :
    (c : Client) (req : Request) (r : Option (Message × Buffer))
    → Windowed c
    → Keeps c (read_front c req r).0
unfolding read_front
read_front-Keeps c req none h = untouched c c h refl refl refl refl refl refl
read_front-Keeps c req (some (m, b)) h = untouched c _ h refl refl refl refl refl refl

handle_read-Keeps : (c : Client) (req : Request) → Windowed c → Keeps c (handle_read c req).0
unfolding handle_read
handle_read-Keeps c req h = elim (Bool-cases (not (is_empty c.deferred_close))) [
  | inl e ↦ rw e (untouched c c h refl refl refl refl refl refl)
  | inr e ↦ rw e (elim (Bool-cases (front_is c.expected_seq_num c.read_buffer)) [
    | inl f ↦ rw f (read_front-Keeps c req (remove c.read_buffer) h)
    | inr f ↦ rw f (untouched c c h refl refl refl refl refl refl)
  ])
]

send_or_keep-Keeps :
    (c : Client) (req : Request) (bytes : Payload)
    → 1 ≤ c.params.window_size
    → Windowed c
    → Keeps c
        (send_or_keep
          (record c { seq_num = c.seq_num + 1 })
          req
          (new_data c.conn_id (c.seq_num + 1) bytes)).0
unfolding send_or_keep
send_or_keep-Keeps c req bytes one h =
    let m = new_data c.conn_id (c.seq_num + 1) bytes in
    elim (Bool-cases (
      is_empty c.write_buffer
      && in_window (c.seq_num + 1) c.params.window_size c.unacked_msg_buffer)) [
        | inl e ↦ rw e (record {
          windowed =
              sent-Ordered c.params.window_size c.seq_num m c.write_buffer c.unacked_msg_buffer one
                refl e h;
          same_params = refl;
          same_reads = refl;
          same_closes = refl;
        })
        | inr e ↦ rw e (record {
          windowed =
              kept-Ordered c.params.window_size c.seq_num m c.write_buffer c.unacked_msg_buffer refl
                e h;
          same_params = refl;
          same_reads = refl;
          same_closes = refl;
        })
      ]

handle_write-Keeps :
    (c : Client) (req : Request) (bytes : Payload)
    → 1 ≤ c.params.window_size
    → Windowed c
    → Keeps c (handle_write c req bytes).0
unfolding handle_write
handle_write-Keeps c req bytes one h =
    let same = untouched c c h refl refl refl refl refl refl in
    if_split (λ (r : Client × List Output). Keeps c r.0) c.conn_lost _ _ same
      (if_split (λ (r : Client × List Output). Keeps c r.0) (not (is_empty c.deferred_close)) _ _
        same (send_or_keep-Keeps c req bytes one h))

handle_epoch-Keeps : (c : Client) → Windowed c → Keeps c (handle_epoch c).0
unfolding handle_epoch
handle_epoch-Keeps c h =
    elim (Bool-cases (leb (c.params.epoch_limit + c.latest_active_epoch) (c.curr_epoch + 1))) [
      | inl e ↦ rw e (untouched c _ h refl refl refl refl refl refl)
      | inr e ↦ rw e (untouched c _ h refl refl refl refl refl refl)
    ]

acked-Keeps :
    (c : Client) (msg : Message) (unacked : Buffer) (found : Bool)
    → (found ≡ false → unacked ≡ c.unacked_msg_buffer)
    → (let r = fill_window c.params.window_size c.write_buffer unacked in
        Ordered c.params.window_size c.seq_num r.0 r.1)
    → Windowed c
    → Keeps c (acked c msg (unacked, found)).0
unfolding acked
acked-Keeps c msg unacked false e o h = untouched c _ h refl refl refl (e refl) refl refl
acked-Keeps c msg unacked true e o h = elim (Bool-cases (msg.seq_num == 0)) [
  | inl f ↦
      rw f (record { windowed = o; same_params = refl; same_reads = refl; same_closes = refl })
  | inr f ↦
      rw f (record { windowed = o; same_params = refl; same_reads = refl; same_closes = refl })
]

or_panic-Keeps : (c c' : Client) (b : Option Buffer) → Keeps c c' → Keeps c (or_panic c' b)
or_panic-Keeps c c' none k = k
or_panic-Keeps c c' (some b) k = record {
  windowed = k.windowed;
  same_params = k.same_params;
  same_reads = k.same_reads;
  same_closes = k.same_closes;
}

handle_data-Keeps : (c : Client) (msg : Message) → Windowed c → Keeps c (handle_data c msg).0
unfolding handle_data
handle_data-Keeps c msg h = elim (Bool-cases (c.conn_id == 0 || not (is_empty c.deferred_close))) [
  | inl e ↦ rw e (untouched c c h refl refl refl refl refl refl)
  | inr e ↦ rw e (elim (Bool-cases (leb c.expected_seq_num msg.seq_num)) [
    | inl f ↦ rw f (
        or_panic-Keeps c (record c { read_buffer = insert msg c.read_buffer }) _
          (untouched c _ h refl refl refl refl refl refl))
    | inr f ↦ rw f (untouched c c h refl refl refl refl refl refl)
  ])
]

by_type-Keeps :
    (c : Client) (msg : Message) (t : MsgType)
    → 1 ≤ c.params.window_size
    → Windowed c
    → Keeps c (by_type c msg t).0
unfolding by_type
by_type-Keeps c msg MsgType.msg_connect one h = untouched c c h refl refl refl refl refl refl
by_type-Keeps c msg MsgType.msg_data one h = handle_data-Keeps c msg h
by_type-Keeps c msg MsgType.msg_ack one h =
    acked-Keeps c msg (delete msg.seq_num c.unacked_msg_buffer).0
      (delete msg.seq_num c.unacked_msg_buffer).1 (delete_unfound msg.seq_num c.unacked_msg_buffer)
      (ack-Ordered c.params.window_size c.seq_num msg.seq_num c.write_buffer c.unacked_msg_buffer
        one h)
      h

pub handle_op-Keeps :
    (c : Client) (req : Request) (op : Op)
    → NoConnect op
    → 1 ≤ c.params.window_size
    → Windowed c
    → Keeps c (handle_op c req op).0
unfolding handle_op handle_received_msg handle_close
handle_op-Keeps c req Op.do_connect n one h = absurd n
handle_op-Keeps c req Op.do_read n one h = handle_read-Keeps c req h
handle_op-Keeps c req (Op.do_write bytes) n one h = handle_write-Keeps c req bytes one h
handle_op-Keeps c req Op.do_close n one h = untouched c _ h refl refl refl refl refl refl
handle_op-Keeps c req Op.do_conn_id n one h = untouched c c h refl refl refl refl refl refl
handle_op-Keeps c req Op.epoch_timer n one h = handle_epoch-Keeps c h
handle_op-Keeps c req (Op.receive_msg msg) n one h =
    let active = record c { latest_active_epoch = c.curr_epoch } in
    let k = by_type-Keeps active msg msg.type one h in
    record {
      windowed = k.windowed;
      same_params = k.same_params;
      same_reads = k.same_reads;
      same_closes = k.same_closes;
    }
