-- ===== src/Paxos/Proposer.antt =====
-- p3/src/github.com/cmu440/flight_reservation/paxos/paxos.go: `Start` and `startHelper`, the rounds
-- of a proposer. What happens outside the proposer enters as data: for each round the clock, the
-- replies in the order in which the channel delivers them (`none` is the peer's own reply), and the
-- calls of other peers that this peer serves while the round waits. The peer is one of its own list of
-- peers, as `NewPaxos` makes it: it sends each message of a round to itself as well.
use projects.Common.{
  ℕ, ◌+◌, ◌-◌, ◌*◌, ◌/◌, ◌%◌, ◌^◌, Bool, true, false, Option, none, some, List, [], ◌∷◌, ltb, leb,
  if◌then◌else◌, length, map, ℤ, pos, lookup, ℕ_discrete,
}
use projects.Paxos.Rpc.{
  Status, PaxosValue, PrepareArgs, PrepareReply, AcceptArgs, AcceptReply, DecideArgs,
}
use projects.Paxos.Replica.{Paxos, get_time_slot_value, get_time_slot_lock, prepare, accept, decide}

-- A call of another peer.
pub data Call : Type 0 where
  prepares : PrepareArgs → Call
  accepts : AcceptArgs → Call
  decides : DecideArgs → Call

unfoldable pub serve : Paxos → Call → Paxos
serve px (Call.prepares a) = (prepare px a).0
serve px (Call.accepts a) = (accept px a).0
serve px (Call.decides a) = (decide px a).0

unfoldable pub serve_all : Paxos → List Call → Paxos
serve_all px [] = px
serve_all px (c ∷ cs) = serve_all (serve px c) cs

pub record Round : Type 0 where
  pub now : ℕ
  pub before_prepare : List Call
  pub prepare_replies : List (Option (Bool × PrepareReply))
  pub before_accept : List Call
  pub accept_replies : List (Option (Bool × AcceptReply))
  pub before_decide : List Call

-- The bits of an `int64`. Below 2 ^ 63 they are its value, and compare as it does.
abbrev pub int64 : ℕ → ℕ
int64 n = n % 2 ^ 64

-- `n` peers, of which this is `me`; `highest` is the largest number that rejected the last round.
unfoldable pub next_seq_num : ℕ → ℕ → ℕ → ℕ → ℕ
next_seq_num now n me highest =
    let seq_num = int64 (int64 (now * n) + me) in
    if leb seq_num highest
    then int64 (seq_num + ((highest - seq_num) - (highest - seq_num) % n + n))
    else seq_num

pub record Tally : Type 0 where
  pub num_ok : ℕ
  pub propose_value : Option PaxosValue
  pub max_seq_num_accepted : ℕ
  pub max_seq_num_highest : ℕ

unfoldable pub is_ok : Status → Bool
is_ok Status.ok = true
is_ok Status.unset = false
is_ok Status.reject = false

unfoldable pub tally_prepare : Tally → Bool × PrepareReply → Tally
unfolding is_ok
tally_prepare t (false, r) = t
tally_prepare t (true, r) =
    if is_ok r.status
    then (if ltb t.max_seq_num_accepted r.seq_num_accepted
        then record t {
          num_ok = t.num_ok + 1;
          max_seq_num_accepted = r.seq_num_accepted;
          propose_value = r.value_accepted;
        }
        else record t { num_ok = t.num_ok + 1 })
    else (if ltb t.max_seq_num_highest r.seq_num_highest
        then record t { max_seq_num_highest = r.seq_num_highest }
        else t)

-- Stops at the reply that completes a majority of the `n` peers.
unfoldable pub collect_prepares : ℕ → Tally → List (Bool × PrepareReply) → Tally
unfolding tally_prepare
collect_prepares n t [] = t
collect_prepares n t (r ∷ rs) = elim (ltb (n / 2) (tally_prepare t r).num_ok) [
  | true ↦ tally_prepare t r
  | false ↦ collect_prepares n (tally_prepare t r) rs
]

unfoldable pub tally_accept : ℕ × ℕ → Bool × AcceptReply → ℕ × ℕ
unfolding is_ok
tally_accept (num_ok, highest) (false, r) = (num_ok, highest)
tally_accept (num_ok, highest) (true, r) =
    if is_ok r.status
    then (num_ok + 1, highest)
    else (if ltb highest r.seq_num_highest then (num_ok, r.seq_num_highest) else (num_ok, highest))

unfoldable pub collect_accepts : ℕ → ℕ × ℕ → List (Bool × AcceptReply) → ℕ × ℕ
unfolding tally_accept
collect_accepts n t [] = t
collect_accepts n t (r ∷ rs) = elim (ltb (n / 2) (tally_accept t r).0) [
  | true ↦ tally_accept t r
  | false ↦ collect_accepts n (tally_accept t r) rs
]

own_or {ℓ} : {A : Type ℓ} → A → Option A → A
own_or own none = own
own_or own (some a) = a

-- The channel's replies, with the peer's own in its place.
unfoldable pub arrivals {ℓ} : {A : Type ℓ} → A → List (Option A) → List A
unfolding own_or
arrivals own = map (own_or own)

-- A round ends with no majority, at a new `maxSeqNumHighest`, or with a decided value.
pub data Outcome : Type 0 where
  retry : Paxos → ℕ → Outcome
  decided : Paxos → Option PaxosValue → Outcome

unfoldable pub decide_phase : Paxos → ℕ → Round → Option PaxosValue → Outcome
unfolding serve_all
decide_phase px slot r v =
    Outcome.decided
      (decide (serve_all px r.before_decide) (record { slot_num = slot; value = v })).0 v

unfoldable pub accept_phase : Paxos → ℕ → Round → ℕ → Option PaxosValue → Outcome
unfolding serve_all arrivals decide_phase
accept_phase px slot r seq_num v =
    let n = length px.peers in
    let (px', own) =
      accept (serve_all px r.before_accept)
        (record { slot_num = slot; seq_num = seq_num; value = v }) in
    let (num_ok, highest) = collect_accepts n (0, 0) (arrivals (true, own) r.accept_replies) in
    if leb num_ok (n / 2) then Outcome.retry px' highest else decide_phase px' slot r v

unfoldable pub prepare_phase : Paxos → ℕ → Option PaxosValue → ℤ → ℕ → Round → Outcome
unfolding serve_all arrivals accept_phase
prepare_phase px slot v my_max_done seq_num r =
    let n = length px.peers in
    let (px', own) =
      prepare (serve_all px r.before_prepare)
        (record { slot_num = slot; seq_num = seq_num; peer_num = px.me; max_done = my_max_done }) in
    let t =
      collect_prepares n
        (record {
          num_ok = 0;
          propose_value = v;
          max_seq_num_accepted = 0;
          max_seq_num_highest = 0;
        })
        (arrivals (true, own) r.prepare_replies) in
    if leb t.num_ok (n / 2)
    then Outcome.retry px' t.max_seq_num_highest
    else accept_phase px' slot r seq_num t.propose_value

-- One turn of the loop of `startHelper`.
unfoldable pub round : Paxos → ℕ → Option PaxosValue → ℤ → ℕ → Round → Outcome
unfolding prepare_phase
round px slot v my_max_done highest r =
    prepare_phase px slot v my_max_done (next_seq_num r.now (length px.peers) px.me highest) r

-- The loop, over the rounds that the schedule gives: `none` while no round has succeeded.
unfoldable pub rounds :
    Paxos → ℕ → Option PaxosValue → ℤ → ℕ → List Round → Paxos × Option (Option PaxosValue)
rounds px slot v my_max_done highest [] = (px, none)
rounds px slot v my_max_done highest (r ∷ rs) = elim (round px slot v my_max_done highest r) [
  | Outcome.decided px' w ↦ (px', some w)
  | Outcome.retry px' highest' ↦ rounds px' slot v my_max_done highest' rs
]

unfoldable pub max_done_of : Option ℤ → ℤ
max_done_of none = pos 0
max_done_of (some m) = m

unfoldable pub start_helper :
    Paxos → ℕ → Option PaxosValue → List Round → Paxos × Option (Option PaxosValue)
unfolding rounds max_done_of
start_helper px slot v rs =
    let (px', current) = get_time_slot_value (get_time_slot_lock px slot) slot in
    rounds px' slot v (max_done_of (lookup ℕ_discrete px.me px.max_done)) current.seq_num_highest rs

-- The outer `none` is the error of a locked instance, the inner one a call that has not returned.
unfoldable pub start :
    Paxos → ℕ → Option PaxosValue → List Round → Option (Paxos × Option (Option PaxosValue))
unfolding start_helper
start px slot v rs = if px.is_locked then none else some (start_helper px slot v rs)
