-- ===== src/Storage/Rpc.antt =====
-- p2/src/github.com/cmu440/tribbler/rpc/storagerpc/proto.go: statuses, nodes, leases, and the
-- arguments and replies of a storage server's calls. `unset` is the zero value of a status.
use projects.Common.{ℕ, String, Bool, false, List}

pub data Status : Type 0 where
  unset ok key_not_found item_not_found wrong_server item_exists not_ready : Status

abbrev pub query_cache_seconds : ℕ
query_cache_seconds = 10

abbrev pub query_cache_thresh : ℕ
query_cache_thresh = 3

abbrev pub lease_seconds : ℕ
lease_seconds = 10

abbrev pub lease_guard_seconds : ℕ
lease_guard_seconds = 2

pub record Lease : Type 0 where
  pub granted : Bool
  pub valid_seconds : ℕ

pub record Node : Type 0 where
  pub host_port : String
  pub node_id : ℕ

pub record RegisterReply : Type 0 where
  pub status : Status
  pub servers : List Node

pub record GetArgs : Type 0 where
  pub key : String
  pub want_lease : Bool
  pub host_port : String

pub record GetReply : Type 0 where
  pub status : Status
  pub value : String
  pub lease : Lease

pub record GetListReply : Type 0 where
  pub status : Status
  pub value : List String
  pub lease : Lease

pub record PutArgs : Type 0 where
  pub key : String
  pub value : String

abbrev pub no_lease : Lease
no_lease = record { granted = false; valid_seconds = 0 }
