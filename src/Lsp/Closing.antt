-- ===== src/Lsp/Closing.antt =====
-- client_impl.go: a close that does not have to wait, while reads do.
use projects.Common.{ℕ, zero, suc, ◌≡◌, refl, true, false, List, [], ◌∷◌, arith}
use projects.Lsp.Client.{Op, Request, RetType, Output, Client, front_is, handle_close}
use projects.Lsp.EventLoop.{
  Turn, all_acked, handle, handle_op, handled, turn, take_op, take_next, unblock_close,
  unblock_read, event_handler,
}

close_now :
    (c : Client) (close : Request) (q : List Request)
    → close.op ≡ Op.do_close
    → c.client_running ≡ true
    → c.conn_lost ≡ false
    → c.deferred_close ≡ []
    → front_is c.expected_seq_num c.read_buffer ≡ false
    → all_acked c ≡ true
    → turn c (close ∷ q)
      ≡ Turn.moved
          (record c { client_running = false })
          q
          (Output.shut ∷ Output.replied close.replyc RetType.nil ∷ [])
unfolding turn unblock_read unblock_close take_next take_op handled handle handle_op handle_close
close_now c close q o running lost closes front acked = ground (arith, running, lost)

-- If a close finds everything acknowledged while a read waits for a message that has not come, the
-- event loop answers the close and ends: whatever further turns are asked for, the waiting reads
-- stay without a reply, and so do the requests behind the close on the channel.
pub close_strands_reads :
    (n : ℕ) (c : Client) (close read : Request) (reads q : List Request)
    → close.op ≡ Op.do_close
    → c.client_running ≡ true
    → c.conn_lost ≡ false
    → c.deferred_close ≡ []
    → c.deferred_read ≡ read ∷ reads
    → front_is c.expected_seq_num c.read_buffer ≡ false
    → all_acked c ≡ true
    → let r = event_handler (suc n) c (close ∷ q) in
      (r.0.deferred_read ≡ read ∷ reads)
      × (r.1 ≡ q)
      × (r.2 ≡ Output.shut ∷ Output.replied close.replyc RetType.nil ∷ [])
unfolding event_handler turn
close_strands_reads zero c close read reads q o running lost closes waiting front acked =
    rw (close_now c close q o running lost closes front acked) (waiting, refl, refl)
close_strands_reads (suc n) c close read reads q o running lost closes waiting front acked =
    rw (close_now c close q o running lost closes front acked) (waiting, refl, refl)
