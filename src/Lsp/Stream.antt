-- ===== src/Lsp/Stream.antt =====
-- client_impl.go: the whole event loop delivers the stream in order.
use projects.Common.{
  ℕ, zero, suc, ◌+◌, ◌≡◌, refl, sym, ap, ◌∙◌, List, [], ◌∷◌, ◌++◌, All-append, arith,
}
use projects.Lsp.Message.{Payload, Params}
use projects.Lsp.Client.{Request, Output, Client, new_client}
use projects.Lsp.EventLoop.{Turn, handle, handled, turn, event_handler, go_on}
use projects.Lsp.Moves.{Move, turn-Move}
use projects.Lsp.Replies.{reads, span, span-append, reads-append}
use projects.Lsp.Readable.{GenuineOp, GenuineAll, Readable, Progress}
use projects.Lsp.Delivery.{handle_op-Progress, moved, relisted}

-- What a turn leaves: the next payloads are delivered, and the queue is a stream's.
abbrev Advances : (ℕ → Payload) → Client → Turn → Type 0
Advances stream c Turn.halted = Unit
Advances stream c Turn.blocked = Unit
Advances stream c (Turn.moved c' q outs) = Progress stream c (c', outs) × GenuineAll stream q

handle-Advances :
    (stream : ℕ → Payload) (c : Client) (rs cs : List Request) (req : Request) (q : List Request)
    → GenuineOp stream req.op
    → GenuineAll stream rs
    → GenuineAll stream cs
    → GenuineAll stream q
    → Readable stream c
    → Advances stream c
        (handled q (handle (record c { deferred_read = rs; deferred_close = cs }) req))
unfolding handled handle
handle-Advances stream c rs cs req q g gr gc gq h =
    let c' = record c { deferred_read = rs; deferred_close = cs } in
    (
      moved stream c c' (handle c' req) refl
          (handle_op-Progress stream c' req req.op g (relisted stream c rs cs gr gc h)),
      gq,
    )

waits-Advances :
    (stream : ℕ → Payload) (c : Client) (rs cs q : List Request)
    → GenuineAll stream rs
    → GenuineAll stream cs
    → GenuineAll stream q
    → Readable stream c
    → Advances stream c (Turn.moved (record c { deferred_read = rs; deferred_close = cs }) q [])
waits-Advances stream c rs cs q gr gc gq h = (
  record {
    keeps = relisted stream c rs cs gr gc h;
    count = 0;
    advances = omega arith;
    delivers = refl;
  },
  gq,
)

Move-Advances :
    (stream : ℕ → Payload) (c : Client) (q : List Request) (t : Turn)
    → Move c q t
    → GenuineAll stream q
    → Readable stream c
    → Advances stream c t
Move-Advances stream c q t Move.halts g h = tt
Move-Advances stream c q t Move.blocks g h = tt
Move-Advances stream c q t (Move.read_waits req q' e o) g h =
    let g' : GenuineAll stream (req ∷ q') = rw e at g in
    waits-Advances stream c _ c.deferred_close q'
      (All-append _ c.deferred_read (req ∷ []) h.reads_genuine (g'.0, tt)) h.closes_genuine g'.1 h
Move-Advances stream c q t (Move.close_waits req q' e o) g h =
    let g' : GenuineAll stream (req ∷ q') = rw e at g in
    waits-Advances stream c c.deferred_read _ q' h.reads_genuine
      (All-append _ c.deferred_close (req ∷ []) h.closes_genuine (g'.0, tt)) g'.1 h
Move-Advances stream c q t (Move.read_unblocked req rs e) g h =
    let d : GenuineAll stream (req ∷ rs) = rw e at h.reads_genuine in
    handle-Advances stream c rs c.deferred_close req q d.0 d.1 h.closes_genuine g h
Move-Advances stream c q t (Move.close_unblocked req cs e) g h =
    let d : GenuineAll stream (req ∷ cs) = rw e at h.closes_genuine in
    handle-Advances stream c c.deferred_read cs req q d.0 h.reads_genuine d.1 g h
Move-Advances stream c q t (Move.served req q' e) g h =
    let g' : GenuineAll stream (req ∷ q') = rw e at g in
    handle-Advances stream c c.deferred_read c.deferred_close req q' g'.0 h.reads_genuine
      h.closes_genuine g'.1 h

-- Up to here the replies carry the next `k` payloads, and the client expects the one after them.
abbrev pub Delivered : (ℕ → Payload) → Client → Client × List Request × List Output → Type 0
Delivered stream c r =
    (k : ℕ) × (r.0.expected_seq_num ≡ c.expected_seq_num + k)
    × (reads r.2 ≡ span stream c.expected_seq_num k)

then-Delivered :
    (stream : ℕ → Payload) (c c' : Client) (outs : List Output)
    (r : Client × List Request × List Output)
    → Progress stream c (c', outs)
    → Delivered stream c' r
    → Delivered stream c (r.0, r.1, outs ++ r.2)
then-Delivered stream c c' outs r p (k, expects, rest) = (
  p.count + k,
  omega (arith, p.advances, expects),
  reads-append outs r.2
      ∙ ap (λ l. l ++ reads r.2) p.delivers
      ∙ ap (λ l. span stream c.expected_seq_num p.count ++ l) (rw p.advances at rest)
      ∙ sym (span-append stream c.expected_seq_num p.count k),
)

go_on-Delivered :
    (stream : ℕ → Payload) (c : Client) (q : List Request) (t : Turn)
    (loop : Client → List Request → Client × List Request × List Output)
    → Advances stream c t
    → ((c' : Client) (q' : List Request)
        → GenuineAll stream q'
        → Readable stream c'
        → Delivered stream c' (loop c' q'))
    → Delivered stream c (go_on loop c q t)
go_on-Delivered stream c q Turn.halted loop a ih = (0, omega arith, refl)
go_on-Delivered stream c q Turn.blocked loop a ih = (0, omega arith, refl)
go_on-Delivered stream c q (Turn.moved c' q' outs) loop a ih =
    then-Delivered stream c c' outs (loop c' q') a.0 (ih c' q' a.1 a.0.keeps)

event_handler-Delivered :
    (stream : ℕ → Payload) (n : ℕ) (c : Client) (q : List Request)
    → GenuineAll stream q
    → Readable stream c
    → Delivered stream c (event_handler n c q)
unfolding event_handler
event_handler-Delivered stream zero c q g h = (0, omega arith, refl)
event_handler-Delivered stream (suc n) c q g h =
    go_on-Delivered stream c q (turn c q) (event_handler n)
      (Move-Advances stream c q _ (turn-Move c q) g h) (event_handler-Delivered stream n)

-- A new client whose data messages are those of a stream, in any order, lost or repeated, and mixed
-- with any calls of the user, acknowledgements and epochs: after any number of turns of the event
-- loop the payloads that its reads have returned are the first ones of the stream, in order, with
-- none skipped and none twice, and the client expects the next one.
pub reads_in_order :
    (stream : ℕ → Payload) (params : Params) (n : ℕ) (q : List Request)
    → GenuineAll stream q
    → Delivered stream (new_client params) (event_handler n (new_client params) q)
reads_in_order stream params n q g =
    event_handler-Delivered stream n (new_client params) q g
      (record { sorted = tt; ahead = tt; genuine = tt; reads_genuine = tt; closes_genuine = tt })
