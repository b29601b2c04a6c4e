-- ===== src/Lsp/Replies.antt =====
-- client_impl.go: the payloads that the replies of a turn carry.
use native.Mathlib.Nat.{add-zero, zero-add}
use projects.Common.{
  Bool-cases, ap, arith, map, ◌∷◌, [], ◌++◌, ◌≡◌, Bool, List, ℕ, zero, suc, ◌+◌, refl, sym, ◌∙◌,
  true, false, if◌then◌else◌, inl, inr,
}
use projects.Lsp.Message.{Message, Payload}
use projects.Lsp.Buffer.{Buffer, insert, return_all}
use projects.Lsp.Client.{
  is_empty, is_empty, Request, handle_close, close_result, Output, RetType, Client,
}
use projects.Lsp.Arrivals.{fill_window, move_window, first_ack, resent}

-- The payloads of the replies to reads.
abbrev pub reads_of : RetType → List Payload
reads_of (RetType.payload p) = p ∷ []
reads_of RetType.nil = []
reads_of (RetType.id n) = []
reads_of (RetType.err e) = []

abbrev read_by : Output → List Payload
read_by (Output.replied r v) = reads_of v
read_by (Output.sent m) = []
read_by Output.established = []
read_by Output.lost = []
read_by Output.shut = []

abbrev pub reads : List Output → List Payload
reads [] = []
reads (o ∷ outs) = read_by o ++ reads outs

-- `n` payloads of the stream, from number `k` on.
abbrev pub span : (ℕ → Payload) → ℕ → ℕ → List Payload
span stream k zero = []
span stream k (suc n) = stream k ∷ span stream (k + 1) n

append_assoc : (a b c : List Payload) → (a ++ b) ++ c ≡ a ++ (b ++ c)
append_assoc [] b c = refl
append_assoc (x ∷ a) b c = ap (λ l. x ∷ l) (append_assoc a b c)

pub reads-append : (a b : List Output) → reads (a ++ b) ≡ reads a ++ reads b
reads-append [] b = refl
reads-append (o ∷ a) b =
    ap (λ l. read_by o ++ l) (reads-append a b) ∙ sym (append_assoc (read_by o) (reads a) (reads b))

pub span-append :
    (stream : ℕ → Payload) (k n m : ℕ)
    → span stream k (n + m) ≡ span stream k n ++ span stream (k + n) m
span-append stream k zero m = rw (zero-add m, add-zero k) refl
span-append stream k (suc n) m =
    let e : suc n + m ≡ suc (n + m) = omega arith in
    let f : k + suc n ≡ k + 1 + n = omega arith in
    rw (e, f) (ap (λ l. stream k ∷ l) (span-append stream (k + 1) n m))

reads-sent : (l : List Message) → reads (map Output.sent l) ≡ []
reads-sent [] = refl
reads-sent (m ∷ l) = reads-sent l

reads-results :
    (v : RetType) (l : List Request)
    → reads_of v ≡ []
    → reads (map (λ r. Output.replied r.replyc v) l) ≡ []
reads-results v [] e = refl
reads-results v (r ∷ l) e = rw e (reads-results v l e)

reads-close : (c : Client) → reads_of (close_result c) ≡ []
reads-close c = ground arith

pub reads-handle_close : (c : Client) (req : Request) → reads (handle_close c req).1 ≡ []
unfolding handle_close
reads-handle_close c req =
    let rest = reads-results (close_result c) (req ∷ c.deferred_close) (reads-close c) in
    elim (Bool-cases c.conn_lost) [ inl e ↦ rw e rest | inr e ↦ rw e rest ]

pub reads-silent : (a b : List Output) → reads a ≡ [] → reads b ≡ [] → reads (a ++ b) ≡ []
reads-silent a b ha hb = rw (reads-append a b, ha) hb

reads-first_ack : (c : Client) → reads (first_ack c) ≡ []
unfolding first_ack
reads-first_ack c = ground arith

reads-acks : (b : Bool) (l : List Message) → reads (if b then map Output.sent l else []) ≡ []
reads-acks true l = reads-sent l
reads-acks false l = refl

pub reads-resent : (c : Client) → reads (resent c) ≡ []
unfolding resent
reads-resent c =
    let msgs = map Output.sent (return_all c.unacked_msg_buffer) in
    let acks =
      if is_empty c.deferred_close then map Output.sent (return_all c.latest_ack_buffer) else [] in
    reads-silent (first_ack c ++ msgs) acks
      (reads-silent (first_ack c) msgs (reads-first_ack c)
        (reads-sent (return_all c.unacked_msg_buffer)))
      (reads-acks (is_empty c.deferred_close) (return_all c.latest_ack_buffer))

reads-move_window :
    (left size : ℕ) (write unacked : Buffer) → reads (move_window left size write unacked).2 ≡ []
unfolding move_window
reads-move_window left size [] unacked = refl
reads-move_window left size (m ∷ write) unacked =
    ground (arith, reads-move_window left size write (insert m unacked))

pub reads-fill_window :
    (size : ℕ) (write unacked : Buffer) → reads (fill_window size write unacked).2 ≡ []
unfolding fill_window
reads-fill_window size [] unacked = refl
reads-fill_window size (m ∷ write) [] = reads-move_window _ size write (insert m [])
reads-fill_window size (m ∷ write) (u ∷ unacked) =
    reads-move_window _ size (m ∷ write) (u ∷ unacked)
