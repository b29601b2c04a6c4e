-- ===== src/Bitcoin/Server.antt =====
-- p1/src/github.com/cmu440/bitcoin/message.go and server/server.go. A map's order is that of its list.
-- What the server writes is a list of outputs, and whether a write succeeds is an argument. A uint64
-- is a natural number, with the wrap-around written out.
use projects.Common.{
  ℕ, zero, suc, ◌+◌, ◌-◌, ◌*◌, ◌/◌, ◌%◌, ◌^◌, ◌==◌, String, Bool, true, false, Option, none, some,
  List, [], ◌∷◌, ◌++◌, ltb, leb, if◌then◌else◌, length, lookup, insert, delete, ℕ_discrete, ℤ, pos,
  dec_ℤ,
}

pub data MsgType : Type 0 where
  join request result : MsgType

pub record Message : Type 0 where
  pub type : MsgType
  pub data_text : String
  pub lower : ℕ
  pub upper : ℕ
  pub hash : ℕ
  pub nonce : ℕ

unfoldable pub new_request : String → ℕ → ℕ → Message
new_request data_text lower upper = record {
  type = MsgType.request;
  data_text = data_text;
  lower = lower;
  upper = upper;
  hash = 0;
  nonce = 0;
}

unfoldable pub new_result : ℕ → ℕ → Message
new_result hash nonce = record {
  type = MsgType.result;
  data_text = "";
  lower = 0;
  upper = 0;
  hash = hash;
  nonce = nonce;
}

pub record WorkUnit : Type 0 where
  pub client_work_for : ℕ
  pub work_msg : Message

pub record ClientStatus : Type 0 where
  pub not_finished_job : ℤ
  pub min_hash : ℕ
  pub nonce : ℕ

pub record Server : Type 0 where
  pub miner_curr_work : List (ℕ × Option WorkUnit)
  pub un_occupied_miner : List (ℕ × Bool)
  pub clients : List (ℕ × ClientStatus)
  pub job_q : List WorkUnit

abbrev pub miner_workload_threshold : ℕ
miner_workload_threshold = 10000

abbrev pub uint64 : ℕ → ℕ
uint64 n = n % 2 ^ 64

unfoldable pub new_client_status : ℕ → ClientStatus
new_client_status n = record { not_finished_job = pos n; min_hash = 2 ^ 64 - 1; nonce = 0 }

-- `upper - lower + 1`
abbrev pub span : ℕ → ℕ → ℕ
span lower upper = uint64 (upper + 2 ^ 64 - lower + 1)

-- The units from number `i` on, of which `left` are left; the last one ends at `upper`.
unfoldable pub units_from : ℕ → String → ℕ → ℕ → ℕ → ℕ → ℕ → List WorkUnit
unfolding new_request
units_from conn text lower upper interval i zero = []
units_from conn text lower upper interval i (suc left) =
    let curr_lower = uint64 (lower + i * interval) in
    let curr_upper = if left == 0 then upper else uint64 (curr_lower + interval + (2 ^ 64 - 1)) in
    record { client_work_for = conn; work_msg = new_request text curr_lower curr_upper }
    ∷ units_from conn text lower upper interval (i + 1) left

-- The number of units of a long request.
unfoldable pub parts : Server → ℕ
parts s = if length s.miner_curr_work == 0 then 1 else length s.miner_curr_work

unfoldable pub partition_job : ℕ → Message → Server → Server
unfolding new_request new_client_status units_from parts
partition_job conn msg s =
    let size = span msg.lower msg.upper in
    if leb size miner_workload_threshold
    then record s {
      job_q =
          s.job_q
          ++ record {
            client_work_for = conn;
            work_msg = new_request msg.data_text msg.lower msg.upper;
          }
            ∷ [];
      clients = insert ℕ_discrete conn (new_client_status 1) s.clients;
    }
    else record s {
      job_q =
          s.job_q ++ units_from conn msg.data_text msg.lower msg.upper (size / parts s) 0 (parts s);
      clients = insert ℕ_discrete conn (new_client_status (parts s)) s.clients;
    }

pub record Output : Type 0 where
  pub conn : ℕ
  pub msg : Message

abbrev pub is_zero : ℤ → Bool
is_zero (pos zero) = true
is_zero _ = false

-- The client's status after one more result.
unfoldable pub with_result : Message → ClientStatus → ClientStatus
with_result msg st =
    if ltb msg.hash st.min_hash
    then record {
      not_finished_job = dec_ℤ st.not_finished_job;
      min_hash = msg.hash;
      nonce = msg.nonce;
    }
    else record st { not_finished_job = dec_ℤ st.not_finished_job }

unfoldable pub count_result : Server → ℕ → Message → Option ClientStatus → Server × List Output
unfolding with_result new_result
count_result s client msg none = (s, [])
count_result s client msg (some st) =
    let st' = with_result msg st in
    if is_zero st'.not_finished_job
    then (
      record s { clients = delete ℕ_discrete client s.clients },
      record { conn = client; msg = new_result st'.min_hash st'.nonce } ∷ [],
    )
    else (record s { clients = insert ℕ_discrete client st' s.clients }, [])

abbrev pub work_of : Option (Option WorkUnit) → Option WorkUnit
work_of none = none
work_of (some w) = w

-- The sender is marked as free.
abbrev pub freed : ℕ → Server → Server
freed conn s = record s {
  miner_curr_work = insert ℕ_discrete conn none s.miner_curr_work;
  un_occupied_miner = insert ℕ_discrete conn true s.un_occupied_miner;
}

-- `none` is the panic on a sender that has no work.
unfoldable pub update_result : ℕ → Message → Server → Option (Server × List Output)
unfolding count_result
update_result conn msg s = elim (work_of (lookup ℕ_discrete conn s.miner_curr_work)) [
  | none ↦ none
  | some w ↦ some (
      count_result (freed conn s) w.client_work_for msg
        (lookup ℕ_discrete w.client_work_for s.clients))
]

unfoldable pub ask : ℕ → Message → Server → Option ClientStatus → Server
unfolding partition_job
ask conn msg s none = partition_job conn msg s
ask conn msg s (some st) = s

unfoldable pub by_type : ℕ → Message → Server → MsgType → Option (Server × List Output)
unfolding ask update_result
by_type conn msg s MsgType.join = some (freed conn s, [])
by_type conn msg s MsgType.request = some (ask conn msg s (lookup ℕ_discrete conn s.clients), [])
by_type conn msg s MsgType.result = update_result conn msg s

-- `none` is a payload that is no message.
unfoldable pub handle_income_message : ℕ → Option Message → Server → Option (Server × List Output)
unfolding by_type
handle_income_message conn none s = some (s, [])
handle_income_message conn (some msg) s = by_type conn msg s msg.type

abbrev pub is_active : Server → ℕ → Bool
is_active s client = elim (lookup ℕ_discrete client s.clients) [ none ↦ false | some st ↦ true ]

-- The queue without the units at its front that are for lost clients.
unfoldable pub drop_lost : Server → List WorkUnit → List WorkUnit
drop_lost s [] = []
drop_lost s (w ∷ q) =
    let rest = drop_lost s q in if is_active s w.client_work_for then w ∷ q else rest

unfoldable pub assign_front : Bool → ℕ → Server → List WorkUnit → Server × List Output
assign_front writes miner s [] = (record s { job_q = [] }, [])
assign_front writes miner s (w ∷ q) =
    if writes
    then (
      record s {
        job_q = q;
        miner_curr_work = insert ℕ_discrete miner (some w) s.miner_curr_work;
        un_occupied_miner = delete ℕ_discrete miner s.un_occupied_miner;
      },
      record { conn = miner; msg = w.work_msg } ∷ [],
    )
    else (record s { job_q = w ∷ q }, [])

-- The walk over the free miners.
unfoldable pub assign_jobs : (ℕ → Bool) → List (ℕ × Bool) → Server → Server × List Output
unfolding drop_lost assign_front
assign_jobs writes [] s = (s, [])
assign_jobs writes ((miner, free) ∷ miners) s =
    let (s', out) = assign_front (writes miner) miner s (drop_lost s s.job_q) in
    let (s'', out') = assign_jobs writes miners s' in (s'', out ++ out')

unfoldable pub assign_jobs_to_unoccupied_miner : (ℕ → Bool) → Server → Server × List Output
unfolding assign_jobs
assign_jobs_to_unoccupied_miner writes s = assign_jobs writes s.un_occupied_miner s

abbrev pub push_work : Option WorkUnit → List WorkUnit → List WorkUnit
push_work none q = q
push_work (some w) q = w ∷ q

unfoldable pub handle_failure : ℕ → Server → Server
handle_failure conn s = elim (lookup ℕ_discrete conn s.miner_curr_work) [
  | some w ↦ record s {
    job_q = push_work w s.job_q;
    un_occupied_miner = delete ℕ_discrete conn s.un_occupied_miner;
    miner_curr_work = delete ℕ_discrete conn s.miner_curr_work;
  }
  | none ↦ record s { clients = delete ℕ_discrete conn s.clients }
]

-- What `Read` gives.
pub data Event : Type 0 where
  failure : ℕ → Event
  message : ℕ → Option Message → Event

unfoldable pub handle : Event → Server → Option (Server × List Output)
unfolding handle_failure handle_income_message
handle (Event.failure conn) s = some (handle_failure conn s, [])
handle (Event.message conn m) s = handle_income_message conn m s

-- One turn of the server's loop: free miners get work, and then one event is served.
unfoldable pub turn : (ℕ → Bool) → Event → Server → Option (Server × List Output)
unfolding assign_jobs_to_unoccupied_miner handle
turn writes ev s =
    let (s', out) = assign_jobs_to_unoccupied_miner writes s in
    elim (handle ev s') [ none ↦ none | some r ↦ some (r.0, out ++ r.1) ]
