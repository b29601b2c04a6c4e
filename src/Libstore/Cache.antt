-- ===== src/Libstore/Cache.antt =====
-- p2/src/github.com/cmu440/tribbler/libstore/libstore_impl.go: the state of a libstore and the upkeep
-- of its caches. Times are numbers of seconds. The mutex of a key makes each call on a key one step,
-- so the mutexes are not part of the state.
use projects.Common.{
  string_dec, delete, ℕ, zero, suc, ◌+◌, String, Bool, ◌&&◌, Option, none, some, List, [], ◌∷◌, map,
  length, ltb, leb, if◌then◌else◌,
}
use projects.Storage.Rpc.{Node, RegisterReply, query_cache_seconds, query_cache_thresh}
use projects.Storage.Server.{is_ok}

pub data LeaseMode : Type 0 where
  never normal always : LeaseMode

pub record LeaseType : Type 0 where
  pub start_from : ℕ
  pub valid_seconds : ℕ

pub record ValueLib : Type 0 where
  pub value : String
  pub lease : LeaseType

pub record ListLib : Type 0 where
  pub list : List String
  pub lease : LeaseType

-- `client_map` holds the hosts that the libstore has an rpc client for.
pub record Libstore : Type 0 where
  pub servers : List Node
  pub key_value : List (String × ValueLib)
  pub key_list : List (String × ListLib)
  pub value_history : List (String × List ℕ)
  pub list_history : List (String × List ℕ)
  pub mode : LeaseMode
  pub my_host_port : String
  pub client_map : List String

-- The loop that waits for the ring; `answers n` is the outcome of the call number `n`, `none` an
-- error. The first argument is what is left of the five tries.
unfoldable pub poll : ℕ → (ℕ → Option RegisterReply) → ℕ → Option (List Node)
poll zero answers n = none
poll (suc left) answers n = elim (answers n) [
  | none ↦ none
  | some r ↦ if is_ok r.status then some r.servers else poll left answers (n + 1)
]

-- `dials` is whether the master can be dialled.
unfoldable pub new_libstore :
    Bool → (ℕ → Option RegisterReply) → String → String → LeaseMode → Option Libstore
unfolding poll
new_libstore dials answers master host mode =
    if dials
    then (elim (poll 5 answers 0) [
      | none ↦ none
      | some servers ↦ some (record {
        servers = servers;
        key_value = [];
        key_list = [];
        value_history = [];
        list_history = [];
        mode = mode;
        my_host_port = host;
        client_map = master ∷ [];
      })
    ])
    else none

unfoldable pub expired : ℕ → LeaseType → Bool
expired now l = ltb (l.start_from + l.valid_seconds) now

-- Drops old queries from the front: all that are ten seconds old, and what is over three.
unfoldable pub trim : ℕ → List ℕ → List ℕ
trim now [] = []
trim now (t ∷ ts) =
    let rest = trim now ts in
    if ltb now (t + query_cache_seconds) && leb (length (t ∷ ts)) query_cache_thresh
    then t ∷ ts
    else rest

-- The walk over the entries of a cache, which deletes from it as it goes.
unfoldable pub sweep :
    {V : Type 0} → (V → LeaseType) → ℕ → List (String × V) → List (String × V) → List (String × V)
unfolding expired
sweep lease now [] m = m
sweep lease now ((k, v) ∷ es) m =
    sweep lease now es (if expired now (lease v) then delete string_dec k m else m)

unfoldable pub delete_invalid : ℕ → Libstore → Libstore
unfolding sweep
delete_invalid now ls = record ls {
  key_value = sweep (λ v. v.lease) now ls.key_value ls.key_value;
  key_list = sweep (λ v. v.lease) now ls.key_list ls.key_list;
}

unfoldable pub delete_list : ℕ → Libstore → Libstore
unfolding trim
delete_list now ls = record ls {
  value_history = map (λ e. (e.0, trim now e.1)) ls.value_history;
  list_history = map (λ e. (e.0, trim now e.1)) ls.list_history;
}

-- Which of the two timers of the background loop has fired.
pub data Timer : Type 0 where
  lease_half cache_half : Timer

unfoldable pub epoch_time : ℕ → Timer → Libstore → Libstore
unfolding delete_invalid delete_list
epoch_time now Timer.lease_half ls = delete_invalid now ls
epoch_time now Timer.cache_half ls = delete_list now ls
