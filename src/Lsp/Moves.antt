-- ===== src/Lsp/Moves.antt =====
-- client_impl.go: the turns of the event loop as a step relation, and the loop's end.
use projects.Common.{◌≡◌, refl, not, ◌&&◌, ◌||◌, inl, inr, List, [], ◌∷◌, ◌++◌, ◌==◌, Bool-cases}
use projects.Lsp.Client.{Op, Request, Client, front_is}
use projects.Lsp.EventLoop.{
  Turn, read_ready, all_acked, handle, handled, turn, take_op, take_next, unblock_close,
  unblock_read,
}

-- What one turn does with the state and the queue.
pub data Move (c : Client) (q : List Request) : Turn → Type 0 where
  halts : Move c q Turn.halted
  blocks : Move c q Turn.blocked
  read_waits :
      (req : Request) (q' : List Request)
      → q ≡ req ∷ q'
      → req.op ≡ Op.do_read
      → Move c q (Turn.moved (record c { deferred_read = c.deferred_read ++ req ∷ [] }) q' [])
  close_waits :
      (req : Request) (q' : List Request)
      → q ≡ req ∷ q'
      → req.op ≡ Op.do_close
      → Move c q (Turn.moved (record c { deferred_close = c.deferred_close ++ req ∷ [] }) q' [])
  read_unblocked :
      (req : Request) (reads : List Request)
      → c.deferred_read ≡ req ∷ reads
      → Move c q (handled q (handle (record c { deferred_read = reads }) req))
  close_unblocked :
      (req : Request) (closes : List Request)
      → c.deferred_close ≡ req ∷ closes
      → Move c q (handled q (handle (record c { deferred_close = closes }) req))
  served : (req : Request) (q' : List Request) → q ≡ req ∷ q' → Move c q (handled q' (handle c req))

take_op-Move :
    (c : Client) (req : Request) (q : List Request) (op : Op)
    → req.op ≡ op
    → Move c (req ∷ q) (take_op c req q op)
unfolding take_op
take_op-Move c req q Op.do_read e = elim (Bool-cases (front_is c.expected_seq_num c.read_buffer)) [
  | inl h ↦ rw h (Move.served req q refl)
  | inr h ↦ rw h (Move.read_waits req q refl e)
]
take_op-Move c req q Op.do_close e = elim (Bool-cases (all_acked c)) [
  | inl h ↦ rw h (Move.served req q refl)
  | inr h ↦ rw h (Move.close_waits req q refl e)
]
take_op-Move c req q Op.do_conn_id e = Move.served req q refl
take_op-Move c req q Op.do_connect e = Move.served req q refl
take_op-Move c req q Op.epoch_timer e = Move.served req q refl
take_op-Move c req q (Op.do_write bytes) e = Move.served req q refl
take_op-Move c req q (Op.receive_msg msg) e = Move.served req q refl

take_next-Move : (c : Client) (q : List Request) → Move c q (take_next c q)
unfolding take_next
take_next-Move c [] = Move.blocks
take_next-Move c (req ∷ q) = take_op-Move c req q req.op refl

unblock_close-Move :
    (c : Client) (q closes : List Request)
    → c.deferred_close ≡ closes
    → Move c q (unblock_close c q closes)
unfolding unblock_close
unblock_close-Move c q [] e = take_next-Move c q
unblock_close-Move c q (req ∷ closes) e = elim (Bool-cases (all_acked c || c.conn_lost)) [
  | inl h ↦ rw h (Move.close_unblocked req closes e)
  | inr h ↦ rw h (take_next-Move c q)
]

unblock_read-Move :
    (c : Client) (q reads : List Request)
    → c.deferred_read ≡ reads
    → Move c q (unblock_read c q reads)
unfolding unblock_read
unblock_read-Move c q [] e = unblock_close-Move c q c.deferred_close refl
unblock_read-Move c q (req ∷ reads) e = elim (Bool-cases (read_ready c)) [
  | inl h ↦ rw h (Move.read_unblocked req reads e)
  | inr h ↦ rw h (unblock_close-Move c q c.deferred_close refl)
]

pub turn-Move : (c : Client) (q : List Request) → Move c q (turn c q)
unfolding turn
turn-Move c q = elim (Bool-cases (not c.client_running || (c.conn_id == 0 && c.conn_lost))) [
  | inl h ↦ rw h Move.halts
  | inr h ↦ rw h (unblock_read-Move c q c.deferred_read refl)
]
