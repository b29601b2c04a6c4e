-- ===== src/Lsp/Arrivals.antt =====
-- client_impl.go: the handlers of the epoch timer and of messages from the network.
use projects.Common.{
  ℕ, ◌+◌, Bool, true, false, not, ◌&&◌, ◌||◌, Option, none, some, List, [], ◌∷◌, ◌++◌, ltb, leb,
  ◌==◌, if◌then◌else◌, map,
}
use projects.Lsp.Message.{MsgType, Message, new_ack}
use projects.Lsp.Buffer.{Buffer, insert, front, delete, adjust_using_window, return_all}
use projects.Lsp.Client.{Client, Output, is_empty}

-- The acknowledgements that an epoch sends: one with number 0 as long as no data has come.
unfoldable pub first_ack : Client → List Output
first_ack c =
    if ltb 0 c.conn_id && is_empty c.latest_ack_buffer && is_empty c.deferred_close
    then Output.sent (new_ack c.conn_id 0) ∷ []
    else []

unfoldable pub resent : Client → List Output
unfolding first_ack
resent c =
    first_ack c
    ++ map Output.sent (return_all c.unacked_msg_buffer)
    ++ (if is_empty c.deferred_close then map Output.sent (return_all c.latest_ack_buffer) else [])

-- `curr_epoch - latest_active_epoch >= epoch_limit`, without the difference.
unfoldable pub handle_epoch : Client → Client × List Output
unfolding resent
handle_epoch c =
    let next = record c { curr_epoch = c.curr_epoch + 1 } in
    if leb (c.params.epoch_limit + c.latest_active_epoch) (c.curr_epoch + 1)
    then (record next { conn_lost = true }, Output.lost ∷ Output.shut ∷ [])
    else (next, resent next)

-- The loop that moves messages from the write buffer into the window whose left end is `left`.
unfoldable pub move_window : ℕ → ℕ → Buffer → Buffer → Buffer × Buffer × List Output
move_window left size [] unacked = ([], unacked, [])
move_window left size (m ∷ write) unacked =
    let (write', unacked', outs) = move_window left size write (insert m unacked) in
    if leb (left + size) m.seq_num
    then (m ∷ write, unacked, [])
    else (write', unacked', Output.sent m ∷ outs)

abbrev pub left_of : Option Message → ℕ
left_of none = 0
left_of (some m) = m.seq_num

-- After a message is acknowledged: an empty window takes the first waiting message in any case.
unfoldable pub fill_window : ℕ → Buffer → Buffer → Buffer × Buffer × List Output
unfolding move_window
fill_window size [] unacked = ([], unacked, [])
fill_window size (m ∷ write) [] =
    let (write', unacked', outs) =
      move_window (left_of (front (insert m []))) size write (insert m []) in
    (write', unacked', Output.sent m ∷ outs)
fill_window size (m ∷ write) (u ∷ unacked) =
    move_window (left_of (front (u ∷ unacked))) size (m ∷ write) (u ∷ unacked)

unfoldable pub acked : Client → Message → Buffer × Bool → Client × List Output
unfolding fill_window
acked c msg (unacked, false) = (record c { unacked_msg_buffer = unacked }, [])
acked c msg (unacked, true) =
    let (write', unacked', outs) = fill_window c.params.window_size c.write_buffer unacked in
    let moved = record c { write_buffer = write'; unacked_msg_buffer = unacked' } in
    if msg.seq_num == 0
    then (record moved { conn_id = msg.conn_id }, outs ++ Output.established ∷ [])
    else (moved, outs)

-- `none` is a nil element in `AdjustUsingWindow`.
abbrev pub or_panic : Client → Option Buffer → Client
or_panic c none = c
or_panic c (some b) = record c { latest_ack_buffer = b }

unfoldable pub handle_data : Client → Message → Client × List Output
handle_data c msg =
    let ack_msg = new_ack c.conn_id msg.seq_num in
    let kept = record c { read_buffer = insert msg c.read_buffer } in
    if c.conn_id == 0 || not (is_empty c.deferred_close)
    then (c, [])
    else if leb c.expected_seq_num msg.seq_num
    then (
      or_panic kept (adjust_using_window c.params.window_size (insert ack_msg c.latest_ack_buffer)),
      Output.sent ack_msg ∷ [],
    )
    else (c, [])

unfoldable pub by_type : Client → Message → MsgType → Client × List Output
unfolding acked handle_data
by_type c msg MsgType.msg_connect = (c, [])
by_type c msg MsgType.msg_data = handle_data c msg
by_type c msg MsgType.msg_ack = acked c msg (delete msg.seq_num c.unacked_msg_buffer)

unfoldable pub handle_received_msg : Client → Message → Client × List Output
unfolding by_type
handle_received_msg c msg = by_type (record c { latest_active_epoch = c.curr_epoch }) msg msg.type
