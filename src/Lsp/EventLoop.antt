-- ===== src/Lsp/EventLoop.antt =====
-- client_impl.go: one turn of the client's event loop, over the queue of the request channel.
use projects.Common.{ℕ, zero, suc, Bool, not, ◌&&◌, ◌||◌, List, [], ◌∷◌, ◌++◌, ◌==◌, if◌then◌else◌}
use projects.Lsp.Client.{
  Op, Request, Output, Client, is_empty, front_is, handle_read, handle_write, handle_close,
  handle_conn_id, handle_connect,
}
use projects.Lsp.Arrivals.{handle_epoch, handle_received_msg}

unfoldable pub handle_op : Client → Request → Op → Client × List Output
handle_op c req Op.do_read = handle_read c req
handle_op c req (Op.do_write bytes) = handle_write c req bytes
handle_op c req Op.do_close = handle_close c req
handle_op c req Op.do_conn_id = handle_conn_id c req
handle_op c req Op.do_connect = handle_connect c req
handle_op c req Op.epoch_timer = handle_epoch c
handle_op c req (Op.receive_msg msg) = handle_received_msg c msg

unfoldable pub handle : Client → Request → Client × List Output
unfolding handle_op
handle c req = handle_op c req req.op

-- `halted`: the loop has ended. `blocked`: it waits for a request.
pub data Turn : Type 0 where
  halted blocked : Turn
  moved : Client → List Request → List Output → Turn

abbrev pub read_ready : Client → Bool
read_ready c =
    front_is c.expected_seq_num c.read_buffer || c.conn_lost || not (is_empty c.deferred_close)

abbrev pub all_acked : Client → Bool
all_acked c = is_empty c.write_buffer && is_empty c.unacked_msg_buffer

unfoldable pub handled : List Request → Client × List Output → Turn
handled q (c, outs) = Turn.moved c q outs

-- A request from the channel: reads and closes may have to wait.
unfoldable pub take_op : Client → Request → List Request → Op → Turn
unfolding handled handle
take_op c req q Op.do_read =
    if front_is c.expected_seq_num c.read_buffer
    then handled q (handle c req)
    else Turn.moved (record c { deferred_read = c.deferred_read ++ req ∷ [] }) q []
take_op c req q Op.do_close =
    if all_acked c
    then handled q (handle c req)
    else Turn.moved (record c { deferred_close = c.deferred_close ++ req ∷ [] }) q []
take_op c req q op = handled q (handle c req)

unfoldable pub take_next : Client → List Request → Turn
unfolding take_op
take_next c [] = Turn.blocked
take_next c (req ∷ q) = take_op c req q req.op

unfoldable pub unblock_close : Client → List Request → List Request → Turn
unfolding take_next handled handle
unblock_close c q [] = take_next c q
unblock_close c q (req ∷ closes) =
    if all_acked c || c.conn_lost
    then handled q (handle (record c { deferred_close = closes }) req)
    else take_next c q

unfoldable pub unblock_read : Client → List Request → List Request → Turn
unfolding unblock_close handled handle
unblock_read c q [] = unblock_close c q c.deferred_close
unblock_read c q (req ∷ reads) =
    if read_ready c
    then handled q (handle (record c { deferred_read = reads }) req)
    else unblock_close c q c.deferred_close

unfoldable pub turn : Client → List Request → Turn
unfolding unblock_read
turn c q =
    if not c.client_running || (c.conn_id == 0 && c.conn_lost)
    then Turn.halted
    else unblock_read c q c.deferred_read

abbrev pub go_on :
    (Client → List Request → Client × List Request × List Output)
    → Client
    → List Request
    → Turn
    → Client × List Request × List Output
go_on loop c q Turn.halted = (c, q, [])
go_on loop c q Turn.blocked = (c, q, [])
go_on loop c q (Turn.moved c' q' outs) =
    let (c'', q'', outs') = loop c' q' in (c'', q'', outs ++ outs')

-- At most `n` turns of `eventHandler`: the state, the queue that is left, and all outputs.
unfoldable pub event_handler : ℕ → Client → List Request → Client × List Request × List Output
unfolding turn
event_handler zero c q = (c, q, [])
event_handler (suc n) c q = go_on (event_handler n) c q (turn c q)
