-- ===== src/Lsp/Epochs.antt =====
-- client_impl.go: what the epoch timer brings about.
use projects.Common.{
  ℕ, zero, suc, ◌+◌, ◌<◌, ◌≡◌, refl, sym, ap, ◌∙◌, true, false, List, [], ◌∷◌, ◌++◌, leb,
  if◌then◌else◌, Bool-cases, Any, map, arith, inl, inr,
}
use projects.Lsp.Message.{Message}
use projects.Lsp.Buffer.{Buffer, return_all}
use projects.Lsp.Client.{Client, Output, is_empty}
use projects.Lsp.Arrivals.{first_ack, resent, handle_epoch}

-- The client after `n` epochs in a row.
unfoldable pub epochs : ℕ → Client → Client
epochs zero c = c
epochs (suc n) c = epochs n (handle_epoch c).0

epochs-lost : (n : ℕ) (c : Client) → c.conn_lost ≡ true → (epochs n c).conn_lost ≡ true
unfolding epochs handle_epoch
epochs-lost zero c h = h
epochs-lost (suc n) c h = epochs-lost n (handle_epoch c).0 (ground arith)

-- A connection that is alive, and within its limit of epochs since the last message, is lost after
-- further epochs without a message exactly if these bring it to the limit.
pub epochs-conn_lost :
    (n : ℕ) (c : Client)
    → c.conn_lost ≡ false
    → c.curr_epoch < c.params.epoch_limit + c.latest_active_epoch
    → (epochs n c).conn_lost ≡ leb (c.params.epoch_limit + c.latest_active_epoch) (c.curr_epoch + n)
unfolding epochs handle_epoch
epochs-conn_lost zero c alive within = ground arith
epochs-conn_lost (suc n) c alive within =
    let limit = c.params.epoch_limit + c.latest_active_epoch in
    let later : c.curr_epoch + suc n ≡ c.curr_epoch + 1 + n = omega arith in
    elim (Bool-cases (leb limit (c.curr_epoch + 1))) [
      | inl e ↦
          let reached : leb limit (c.curr_epoch + suc n) ≡ true = ground arith in
          epochs-lost n (handle_epoch c).0 (rw e refl) ∙ sym reached
      | inr e ↦
          let next = record c { curr_epoch = c.curr_epoch + 1 } in
          let stepped : (handle_epoch c).0 ≡ next = rw e refl in
          ap (λ d. (epochs n d).conn_lost) stepped
          ∙ (epochs-conn_lost n next alive (ground arith) ∙ ap (leb limit) (sym later))
    ]

Any-append_left : (P : Output → Type 0) (xs ys : List Output) → Any P xs → Any P (xs ++ ys)
Any-append_left P [] ys a = absurd a
Any-append_left P (x ∷ xs) ys (inl p) = inl p
Any-append_left P (x ∷ xs) ys (inr a) = inr (Any-append_left P xs ys a)

Any-append_right : (P : Output → Type 0) (xs ys : List Output) → Any P ys → Any P (xs ++ ys)
Any-append_right P [] ys a = a
Any-append_right P (x ∷ xs) ys a = inr (Any-append_right P xs ys a)

sends :
    (m : Message) (b : Buffer)
    → Any (λ n. n ≡ m) b
    → Any (λ o. o ≡ Output.sent m) (map Output.sent (return_all b))
unfolding return_all
sends m [] a = absurd a
sends m (n ∷ b) (inl e) = inl (ap Output.sent e)
sends m (n ∷ b) (inr a) = inr (sends m b a)

-- An epoch that does not lose the connection sends every message again that is not acknowledged.
pub resends_unacked :
    (c : Client) (m : Message)
    → c.curr_epoch + 1 < c.params.epoch_limit + c.latest_active_epoch
    → Any (λ n. n ≡ m) c.unacked_msg_buffer
    → Any (λ o. o ≡ Output.sent m) (handle_epoch c).1
unfolding handle_epoch resent
resends_unacked c m within a =
    let e : leb (c.params.epoch_limit + c.latest_active_epoch) (c.curr_epoch + 1) ≡ false =
      ground arith in
    let acks =
      if is_empty c.deferred_close then map Output.sent (return_all c.latest_ack_buffer) else [] in
    let next = record c { curr_epoch = c.curr_epoch + 1 } in
    rw e (
      Any-append_left _ (first_ack next ++ map Output.sent (return_all c.unacked_msg_buffer)) acks
        (Any-append_right _ (first_ack next) _ (sends m c.unacked_msg_buffer a)))
