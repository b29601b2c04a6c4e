-- ===== src/Lsp/Tests.antt =====
-- The theorems about buffer.go and client_impl.go at concrete inputs.
use projects.Common.{Any, inl, ◌*◌, ℕ, ◌≡◌, refl, List, [], ◌∷◌, arith}
use projects.Lsp.Message.{Message, Payload, Params, new_data, new_ack, new_params}
use projects.Lsp.Buffer.{remove, Buffer, insert, delete, adjust_using_window}
use projects.Lsp.Sorted.{Sorted}
use projects.Lsp.Client.{
  handle_read, handle_connect, Op, Request, RetType, Output, Client, new_client,
}
use projects.Lsp.Arrivals.{handle_epoch, handle_received_msg}
use projects.Lsp.EventLoop.{event_handler}
use projects.Lsp.Replies.{reads, span}
use projects.Lsp.Epochs.{resends_unacked}
use projects.Lsp.Stream.{Delivered, reads_in_order}
use projects.Lsp.Window.{Ordered}
use projects.Lsp.Turns.{window_kept}
use projects.Lsp.Closing.{close_strands_reads}

abbrev two_ahead : Buffer
two_ahead = new_data 1 2 (20 ∷ []) ∷ new_data 1 4 (40 ∷ []) ∷ []

two_ahead-Sorted : Sorted two_ahead
two_ahead-Sorted = ((omega arith, tt), (tt, tt))

abbrev third : Message
third = new_data 1 3 (30 ∷ [])

abbrev params : Params
params = record new_params { window_size = 2 }

-- Number 10 times the message's own.
abbrev tens : ℕ → Payload
tens n = 10 * n ∷ []

abbrev connect : Request
connect = record { op = Op.do_connect; replyc = 0 }

abbrev arrives : Message → Request
arrives m = record { op = Op.receive_msg m; replyc = 0 }

abbrev read : Request
read = record { op = Op.do_read; replyc = 1 }

-- Two reads, and messages 2, 1 and 2 again.
abbrev queue : List Request
queue =
    connect
    ∷ arrives (new_ack 7 0)
    ∷ read
    ∷ arrives (new_data 7 2 (20 ∷ []))
    ∷ arrives (new_data 7 1 (10 ∷ []))
    ∷ arrives (new_data 7 2 (20 ∷ []))
    ∷ read
    ∷ []

reads_in_order_example :
    Delivered tens (new_client params) (event_handler 20 (new_client params) queue)
reads_in_order_example =
    reads_in_order tens params 20 queue (tt, (tt, (tt, (refl, (refl, (refl, (tt, tt)))))))

both_read : reads (event_handler 20 (new_client params) queue).2 ≡ span tens 1 2
unfolding event_handler handle_connect handle_received_msg delete insert adjust_using_window
    handle_read remove
both_read = refl

abbrev writes : List Request
writes =
    arrives (new_ack 7 0)
    ∷ record { op = Op.do_write (1 ∷ []); replyc = 2 }
    ∷ record { op = Op.do_write (2 ∷ []); replyc = 2 }
    ∷ record { op = Op.do_write (3 ∷ []); replyc = 2 }
    ∷ arrives (new_ack 7 1)
    ∷ []

window_kept_example :
    let c = (event_handler 9 (new_client params) (connect ∷ writes)).0 in
    Ordered params.window_size c.seq_num c.write_buffer c.unacked_msg_buffer
window_kept_example =
    window_kept params 9 connect writes (omega arith) refl (tt, (tt, (tt, (tt, (tt, tt)))))

abbrev reading : Client
reading = record (new_client params) { conn_id = 7; deferred_read = read ∷ [] }

abbrev close : Request
close = record { op = Op.do_close; replyc = 3 }

close_strands_reads_example :
    let r = event_handler 5 reading (close ∷ read ∷ []) in
    (r.0.deferred_read ≡ read ∷ [])
    × (r.1 ≡ read ∷ [])
    × (r.2 ≡ Output.shut ∷ Output.replied 3 RetType.nil ∷ [])
close_strands_reads_example =
    close_strands_reads 4 reading close read [] (read ∷ []) refl refl refl refl refl refl refl

resends_unacked_example :
    Any
      (λ o. o ≡ Output.sent third)
      (handle_epoch (record reading { unacked_msg_buffer = third ∷ [] })).1
resends_unacked_example =
    resends_unacked (record reading { unacked_msg_buffer = third ∷ [] }) third (omega arith)
      (inl refl)
