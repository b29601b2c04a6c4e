-- ===== src/Bitcoin/Tests.antt =====
-- The theorems about the bitcoin server at concrete inputs.
use projects.Common.{
  ℕ, ◌+◌, ◌-◌, ◌*◌, ◌%◌, ◌^◌, ◌≡◌, ◌==◌, String, List, if◌then◌else◌, ite, string_dec, inl, inr,
  refl, true, none, some, [], ◌∷◌, lookup, insert, delete, ℕ_discrete, pos, arith,
}
use projects.Bitcoin.Server.{
  MsgType, Message, WorkUnit, Server, new_request, new_result, new_client_status, partition_job,
  parts, drop_lost, assign_front, assign_jobs, assign_jobs_to_unoccupied_miner, Event, handle,
  handle_income_message, by_type, update_result, count_result, with_result, turn,
}
use projects.Bitcoin.Partition.{Partitions, partition_job-Partitions}
use projects.Bitcoin.Tables.{one, count_queue, count_work}
use projects.Bitcoin.Counting.{Counted}
use projects.Bitcoin.Serving.{Fits, FitsMessage}
use projects.Bitcoin.Assigning.{turn-Counted}
use projects.Bitcoin.Miner.{hash, better, min_hash_from, calculate_min_hash, answer, mine}
use projects.Bitcoin.Mining.{Smallest, Answered, mine-Answered}
use projects.Bitcoin.Pooling.{pool, pool-Smallest}

-- Two miners, of which one works for client 7.
abbrev unit : WorkUnit
unit = record { client_work_for = 7; work_msg = new_request "m" 0 50 }

abbrev server : Server
server = record {
  miner_curr_work = (1, some unit) ∷ (2, none) ∷ [];
  un_occupied_miner = (2, true) ∷ [];
  clients = (7, new_client_status 2) ∷ [];
  job_q = unit ∷ [];
}

abbrev long : Message
long = new_request "x" 5 30004

abbrev result : Message
result = record { type = MsgType.result; data_text = ""; lower = 0; upper = 0; hash = 9; nonce = 3 }

partition_job-Partitions_example : Partitions 8 long server (partition_job 8 long server)
unfolding new_request parts
partition_job-Partitions_example =
    partition_job-Partitions 8 long server (omega arith) (omega arith) (λ big. omega arith)

server-Counted : Counted server
unfolding one count_queue count_work new_client_status lookup
server-Counted = record {
  distinct = (ground arith, (refl, tt));
  expects = λ c st e. ground (arith, e);
}

turn-Counted_example : Counted (record {
  miner_curr_work = (1, none) ∷ (2, some unit) ∷ [];
  un_occupied_miner = (1, true) ∷ [];
  clients = (7, record { not_finished_job = pos 1; min_hash = 9; nonce = 3 }) ∷ [];
  job_q = [];
})
unfolding lookup insert delete ℕ_discrete new_client_status turn handle handle_income_message
    by_type update_result count_result with_result assign_jobs_to_unoccupied_miner assign_jobs
    assign_front drop_lost Fits FitsMessage
turn-Counted_example =
    turn-Counted (λ m. true) (Event.message 1 (some result)) server _ (refl, tt) (refl, tt)
      server-Counted tt refl

-- A digest that knows only whether the nonce is even.
abbrev parity_hash : String → ℕ → ℕ
parity_hash =
    hash (λ msg n. if n % 2 == 0 then "even" else "odd") (λ text. text)
      (λ digest. ite (string_dec digest "even") 20 10)

mine-Answered_example :
    (reply : Message) × (mine parity_hash (new_request "m" 4 6) 4 ≡ some reply)
    × Answered parity_hash (new_request "m" 4 6) reply
unfolding new_request
mine-Answered_example = mine-Answered parity_hash (new_request "m" 4 6) (omega arith) (omega arith)

mine_test : mine parity_hash (new_request "m" 4 6) 4 ≡ some (new_result 10 5)
unfolding mine hash calculate_min_hash min_hash_from better answer new_request new_result string_dec
mine_test = refl

-- Two units of a range, whose results arrive in the other order.
abbrev number_hash : ℕ → ℕ
number_hash n = (n * 7 + 3) % 10

abbrev two_units : List WorkUnit
two_units =
    record { client_work_for = 7; work_msg = new_request "m" 5 6 }
    ∷ record { client_work_for = 7; work_msg = new_request "m" 7 9 }
    ∷ []

abbrev two_results : List Message
two_results = new_result 2 7 ∷ new_result 5 6 ∷ []

first_solved : Smallest number_hash 5 6 (2 ^ 64 - 1, 0) (5, 6)
first_solved = record {
  least = λ i lo hi. omega arith;
  not_above = omega arith;
  held = inr (omega arith, omega arith, refl);
}

second_solved : Smallest number_hash 7 9 (2 ^ 64 - 1, 0) (2, 7)
second_solved = record {
  least = λ i lo hi. omega arith;
  not_above = omega arith;
  held = inr (omega arith, omega arith, refl);
}

pool-Smallest_example : Smallest number_hash 5 9 (2 ^ 64 - 1, 0) (2, 7)
unfolding new_request new_result new_client_status pool with_result
pool-Smallest_example =
    pool-Smallest number_hash 5 9 2 two_units two_results
      (refl, omega arith, omega arith, (refl, omega arith, omega arith, refl))
      (inr (inl first_solved), (inl second_solved, tt))
      (inr (inl second_solved), (inl first_solved, tt))
