-- ===== src/Lsp/Readable.antt =====
-- client_impl.go: the read buffer against the stream of messages that the other side sends.
use projects.Common.{
  ℕ, ◌+◌, ◌≤◌, ◌≡◌, refl, ap, ◌∙◌, true, not, List, [], ◌∷◌, Bool-cases, All, arith, inl, inr,
}
use projects.Lsp.Message.{MsgType, Message, Payload}
use projects.Lsp.Buffer.{Buffer, remove}
use projects.Lsp.Sorted.{All-map, Sorted}
use projects.Lsp.Client.{
  Op, Request, Output, Client, is_empty, front_is, read_front, handle_read, handle_write,
  send_or_keep,
}
use projects.Lsp.Replies.{reads, span}

-- A data message carries the payload that the stream has under its number.
abbrev pub Genuine : (ℕ → Payload) → Message → MsgType → Type 0
Genuine stream m MsgType.msg_data = m.payload ≡ stream m.seq_num
Genuine stream m MsgType.msg_connect = Unit
Genuine stream m MsgType.msg_ack = Unit

abbrev pub GenuineOp : (ℕ → Payload) → Op → Type 0
GenuineOp stream (Op.receive_msg m) = Genuine stream m m.type
GenuineOp stream (Op.do_write bytes) = Unit
GenuineOp stream Op.do_read = Unit
GenuineOp stream Op.do_close = Unit
GenuineOp stream Op.do_conn_id = Unit
GenuineOp stream Op.do_connect = Unit
GenuineOp stream Op.epoch_timer = Unit

abbrev pub GenuineAll : (ℕ → Payload) → List Request → Type 0
GenuineAll stream = All (λ r. GenuineOp stream r.op)

-- The read buffer holds messages of the stream, in order, and none that has been read.
pub record Readable (stream : ℕ → Payload) (c : Client) : Type 0 where
  pub sorted : Sorted c.read_buffer
  pub ahead : All (λ m. c.expected_seq_num ≤ m.seq_num) c.read_buffer
  pub genuine : All (λ m. m.payload ≡ stream m.seq_num) c.read_buffer
  pub reads_genuine : GenuineAll stream c.deferred_read
  pub closes_genuine : GenuineAll stream c.deferred_close

-- The outputs deliver the next payloads of the stream.
pub record Progress (stream : ℕ → Payload) (c : Client) (r : Client × List Output) : Type 0 where
  pub keeps : Readable stream r.0
  pub count : ℕ
  pub advances : r.0.expected_seq_num ≡ c.expected_seq_num + count
  pub delivers : reads r.1 ≡ span stream c.expected_seq_num count

pub idle :
    (stream : ℕ → Payload) (c c' : Client) (outs : List Output)
    → Readable stream c
    → c'.read_buffer ≡ c.read_buffer
    → c'.expected_seq_num ≡ c.expected_seq_num
    → c'.deferred_read ≡ c.deferred_read
    → c'.deferred_close ≡ c.deferred_close
    → reads outs ≡ []
    → Progress stream c (c', outs)
idle stream c c' outs h e1 e2 e3 e4 e5 = record {
  keeps = record {
    sorted = rw e1 h.sorted;
    ahead = rw (e1, e2) h.ahead;
    genuine = rw e1 h.genuine;
    reads_genuine = rw e3 h.reads_genuine;
    closes_genuine = rw e4 h.closes_genuine;
  };
  count = 0;
  advances = omega (arith, e2);
  delivers = e5;
}

read_front-Progress :
    (stream : ℕ → Payload) (c : Client) (req : Request) (b : Buffer)
    → Readable stream c
    → c.read_buffer ≡ b
    → front_is c.expected_seq_num b ≡ true
    → Progress stream c (read_front c req (remove b))
unfolding read_front remove
read_front-Progress stream c req [] h e f = cc
read_front-Progress stream c req (m ∷ b) h e f =
    let sorted : Sorted (m ∷ b) = rw e at h.sorted in
    let genuine : All (λ n. n.payload ≡ stream n.seq_num) (m ∷ b) = rw e at h.genuine in
    let at_front : m.seq_num ≡ c.expected_seq_num = ground arith in
    record {
      keeps = record {
        sorted = sorted.1;
        ahead = All-map b (λ n g. omega (arith, g, at_front)) sorted.0;
        genuine = genuine.1;
        reads_genuine = h.reads_genuine;
        closes_genuine = h.closes_genuine;
      };
      count = 1;
      advances = refl;
      delivers = ap (λ p. p ∷ []) (genuine.0 ∙ ap stream at_front);
    }

pub handle_read-Progress :
    (stream : ℕ → Payload) (c : Client) (req : Request)
    → Readable stream c
    → Progress stream c (handle_read c req)
unfolding handle_read
handle_read-Progress stream c req h = elim (Bool-cases (not (is_empty c.deferred_close))) [
  | inl e ↦ rw e (idle stream c c _ h refl refl refl refl refl)
  | inr e ↦ rw e (elim (Bool-cases (front_is c.expected_seq_num c.read_buffer)) [
    | inl f ↦ rw f (read_front-Progress stream c req c.read_buffer h refl f)
    | inr f ↦ rw f (idle stream c c _ h refl refl refl refl refl)
  ])
]

pub handle_write-Progress :
    (stream : ℕ → Payload) (c : Client) (req : Request) (bytes : Payload)
    → Readable stream c
    → Progress stream c (handle_write c req bytes)
unfolding handle_write send_or_keep
handle_write-Progress stream c req bytes h =
    let r = handle_write c req bytes in
    idle stream c r.0 r.1 h (ground arith) (ground arith) (ground arith) (ground arith)
      (ground arith)
