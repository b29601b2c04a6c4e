-- ===== src/Lsp/Client.antt =====
-- p1/src/github.com/cmu440/lsp/client_impl.go and common.go: the state of a client and the handlers
-- of its requests. What a handler sends on the network and on channels is its list of outputs.
use projects.Common.{
  ℕ, ◌+◌, String, Bool, true, false, not, ◌&&◌, Option, none, some, List, [], ◌∷◌, ◌++◌, ltb, ◌==◌,
  if◌then◌else◌, map,
}
use projects.Lsp.Message.{Message, Payload, Params, new_connect, new_data}
use projects.Lsp.Buffer.{Buffer, new_buffer, insert, remove}

pub data Op : Type 0 where
  do_read do_close do_conn_id do_connect epoch_timer : Op
  do_write : Payload → Op
  receive_msg : Message → Op

-- `replyc` names the channel that the caller waits on.
pub record Request : Type 0 where
  pub op : Op
  pub replyc : ℕ

pub data RetType : Type 0 where
  nil : RetType
  payload : Payload → RetType
  id : ℕ → RetType
  err : String → RetType

-- `sent` is `sendMessage`, `shut` is `shutDown`, `established` and `lost` are the two signals to
-- `NewClient`.
pub data Output : Type 0 where
  sent : Message → Output
  replied : ℕ → RetType → Output
  established lost shut : Output

pub record Client : Type 0 where
  pub params : Params
  pub write_buffer : Buffer
  pub unacked_msg_buffer : Buffer
  pub latest_ack_buffer : Buffer
  pub read_buffer : Buffer
  pub deferred_read : List Request
  pub deferred_close : List Request
  pub conn_id : ℕ
  pub seq_num : ℕ
  pub expected_seq_num : ℕ
  pub curr_epoch : ℕ
  pub latest_active_epoch : ℕ
  pub client_running : Bool
  pub conn_lost : Bool

abbrev pub new_client : Params → Client
new_client params = record {
  params = params;
  write_buffer = new_buffer;
  unacked_msg_buffer = new_buffer;
  latest_ack_buffer = new_buffer;
  read_buffer = new_buffer;
  deferred_read = [];
  deferred_close = [];
  conn_id = 0;
  seq_num = 0;
  expected_seq_num = 1;
  curr_epoch = 0;
  latest_active_epoch = 0;
  client_running = true;
  conn_lost = false;
}

abbrev pub is_empty {ℓ} : {A : Type ℓ} → List A → Bool
is_empty [] = true
is_empty (x ∷ xs) = false

-- The first message of the buffer has the number.
abbrev pub front_is : ℕ → Buffer → Bool
front_is n [] = false
front_is n (m ∷ b) = m.seq_num == n

-- The reply to a read whose message is at the front of the buffer. `none` is a nil front.
unfoldable pub read_front : Client → Request → Option (Message × Buffer) → Client × List Output
read_front c req none = (c, [])
read_front c req (some (read_msg, rest)) = (
  record c { read_buffer = rest; expected_seq_num = c.expected_seq_num + 1 },
  Output.replied req.replyc (RetType.payload read_msg.payload) ∷ [],
)

unfoldable pub handle_read : Client → Request → Client × List Output
unfolding read_front
handle_read c req =
    if not (is_empty c.deferred_close)
    then (c, Output.replied req.replyc (RetType.err "client closed") ∷ [])
    else if not (front_is c.expected_seq_num c.read_buffer)
    then (c, Output.replied req.replyc (RetType.err "connection lost") ∷ [])
    else read_front c req (remove c.read_buffer)

-- `seq_num - window_size < front.seq_num`, without the difference.
abbrev pub in_window : ℕ → ℕ → Buffer → Bool
in_window seq_num window_size [] = true
in_window seq_num window_size (m ∷ b) = ltb seq_num (m.seq_num + window_size)

unfoldable pub send_or_keep : Client → Request → Message → Client × List Output
send_or_keep c req sent_msg =
    if is_empty c.write_buffer
      && in_window sent_msg.seq_num c.params.window_size c.unacked_msg_buffer
    then (
      record c { unacked_msg_buffer = insert sent_msg c.unacked_msg_buffer },
      Output.sent sent_msg ∷ Output.replied req.replyc RetType.nil ∷ [],
    )
    else (
      record c { write_buffer = insert sent_msg c.write_buffer },
      Output.replied req.replyc RetType.nil ∷ [],
    )

unfoldable pub handle_write : Client → Request → Payload → Client × List Output
unfolding send_or_keep
handle_write c req bytes =
    if c.conn_lost
    then (c, Output.replied req.replyc (RetType.err "connection lost") ∷ [])
    else if not (is_empty c.deferred_close)
    then (c, Output.replied req.replyc (RetType.err "client closed") ∷ [])
    else send_or_keep (record c { seq_num = c.seq_num + 1 }) req
        (new_data c.conn_id (c.seq_num + 1) bytes)

abbrev pub handle_conn_id : Client → Request → Client × List Output
handle_conn_id c req = (c, Output.replied req.replyc (RetType.id c.conn_id) ∷ [])

-- What a close answers: an error if a message was not sent or not acknowledged.
abbrev pub close_result : Client → RetType
close_result c =
    if is_empty c.write_buffer && is_empty c.unacked_msg_buffer
    then RetType.nil
    else RetType.err "connection lost before sending out all pending messages"

unfoldable pub handle_close : Client → Request → Client × List Output
handle_close c req = (
  record c { client_running = false },
  (if c.conn_lost then [] else Output.shut ∷ [])
      ++ map (λ r. Output.replied r.replyc (close_result c)) (req ∷ c.deferred_close),
)

unfoldable pub handle_connect : Client → Request → Client × List Output
handle_connect c req = (
  record c { unacked_msg_buffer = insert new_connect c.unacked_msg_buffer },
  Output.sent new_connect ∷ Output.replied req.replyc RetType.nil ∷ [],
)
