-- ===== src/Libstore/Answers.antt =====
-- libstore_impl.go: where the answer of a `Get` comes from, and what the callbacks leave.
use projects.Common.{
  ℕ, ◌+◌, ◌≤◌, ◌≡◌, refl, ◌∙◌, ap, subst, ◌⊎◌, inl, inr, String, Option, none, some, lookup,
  lookup-delete, string_dec, ite, Option-cases, arith,
}
use projects.Storage.Rpc.{Status, GetArgs, GetReply}
use projects.Libstore.Cache.{ValueLib, Libstore, delete_invalid, delete_list, epoch_time, Timer}
use projects.Libstore.Calls.{
  Network, Result, fresh, note_query, want_lease, get_args, fetch, look_up, get, add_history,
  finish_put, put, put_args, revoke_lease,
}
use projects.Libstore.Caching.{
  Within, fresh-Within, fresh-live, sweep-Within, call_key_lem, Granted, fetch_cases, fetch-host,
  fetch-ok,
}

-- The question that `get` puts to the server when the cache has no answer.
abbrev pub question : ℕ → String → Libstore → GetArgs
question now key ls = get_args ls key (want_lease ls.mode (note_query now key ls.value_history).1)

abbrev pub hit : ℕ → String → Libstore → Option ValueLib
hit now key ls = (fresh (λ v. v.lease) now key ls.key_value).1

abbrev pub looked_up : ℕ → String → Libstore → Libstore
looked_up now key ls = record ls {
  key_value = (fresh (λ v. v.lease) now key ls.key_value).0;
  value_history = (note_query now key ls.value_history).0;
}

pub get_hit :
    (hash : String → ℕ) (net : Network) (now : ℕ) (ls : Libstore) (key : String) (w : ValueLib)
    → hit now key ls ≡ some w
    → get hash net now ls key ≡ (looked_up now key ls, Result.ok w.value)
unfolding look_up get
get_hit hash net now ls key w e = rw (get, e) refl

pub get_miss :
    (hash : String → ℕ) (net : Network) (now : ℕ) (ls : Libstore) (key : String)
    → hit now key ls ≡ none
    → get hash net now ls key
      ≡ fetch hash net now (looked_up now key ls) key (question now key ls).want_lease
unfolding look_up get
get_miss hash net now ls key e = rw (get, e) refl

pub get_cases :
    (hash : String → ℕ) (net : Network) (now : ℕ) (ls : Libstore) (key k : String) (v : ValueLib)
    → lookup string_dec k (get hash net now ls key).0.key_value ≡ some v
    → (lookup string_dec k ls.key_value ≡ some v)
      ⊎ ((key ≡ k) × Granted net now (question now key ls) v)
get_cases hash net now ls key k v h = elim (Option-cases (hit now key ls)) [
  | inl e ↦ missed (
      fetch_cases hash net now key (question now key ls).want_lease (looked_up now key ls) k v (
        subst (λ r. lookup string_dec k r.0.key_value ≡ some v) (get_miss hash net now ls key e) h))
  | inr (w, e) ↦ inl (
      fresh-Within (λ v. v.lease) now key ls.key_value k v
        (subst (λ r. lookup string_dec k r.0.key_value ≡ some v) (get_hit hash net now ls key w e)
          h))
]
  where
    missed :
        (lookup string_dec k (looked_up now key ls).key_value ≡ some v)
          ⊎ ((key ≡ k) × Granted net now (question now key ls) v)
        → (lookup string_dec k ls.key_value ≡ some v)
          ⊎ ((key ≡ k) × Granted net now (question now key ls) v)
    missed (inl x) = inl (fresh-Within (λ v. v.lease) now key ls.key_value k v x)
    missed (inr x) = inr x

pub get-host :
    (hash : String → ℕ) (net : Network) (now : ℕ) (ls : Libstore) (key : String)
    → (get hash net now ls key).0.my_host_port ≡ ls.my_host_port
get-host hash net now ls key = elim (Option-cases (hit now key ls)) [
  | inl e ↦
      ap (λ r. r.0.my_host_port) (get_miss hash net now ls key e)
      ∙ fetch-host hash net now key (question now key ls).want_lease (looked_up now key ls)
  | inr (w, e) ↦ ap (λ r. r.0.my_host_port) (get_hit hash net now ls key w e)
]

-- An answer is a live entry's or the server's.
pub get-ok :
    (hash : String → ℕ) (net : Network) (now : ℕ) (ls : Libstore) (key v : String)
    → (get hash net now ls key).1 ≡ Result.ok v
    → ((w : ValueLib) × (lookup string_dec key ls.key_value ≡ some w)
        × (w.value ≡ v)
        × (now ≤ w.lease.start_from + w.lease.valid_seconds))
      ⊎ ((host : String) × (reply : GetReply) × (net.get host (question now key ls) ≡ some reply)
          × (reply.status ≡ Status.ok)
          × (reply.value ≡ v))
get-ok hash net now ls key v h = elim (Option-cases (hit now key ls)) [
  | inl e ↦ inr (
      fetch-ok hash net now key (question now key ls).want_lease (looked_up now key ls) v
        (subst (λ r. r.1 ≡ Result.ok v) (get_miss hash net now ls key e) h))
  | inr (w, e) ↦
      let (found, live) = fresh-live (λ v. v.lease) now key ls.key_value w e in
      let same : Result.ok w.value ≡ Result.ok v =
        subst (λ r. r.1 ≡ Result.ok v) (get_hit hash net now ls key w e) h in
      inl (w, found, cc, live)
]

pub revoke_lease_lem :
    (ls : Libstore) (key k : String)
    → (lookup string_dec k (revoke_lease ls key).0.key_value
        ≡ ite (string_dec key k) none (lookup string_dec k ls.key_value))
      × ((revoke_lease ls key).0.my_host_port ≡ ls.my_host_port)
unfolding revoke_lease
revoke_lease_lem ls key k = ground (arith, lookup-delete string_dec key k ls.key_value)

pub put-values :
    (hash : String → ℕ) (net : Network) (ls : Libstore) (key value : String)
    → ((put hash net ls key value).0.key_value ≡ ls.key_value)
      × ((put hash net ls key value).0.my_host_port ≡ ls.my_host_port)
unfolding put finish_put
put-values hash net ls key value = ground (
  arith,
  call_key_lem hash net (record ls { value_history = add_history key ls.value_history }) key
      (λ host. net.put host (put_args key value)),
)

pub epoch_time-Within :
    (now : ℕ) (tm : Timer) (ls : Libstore) → Within (epoch_time now tm ls).key_value ls.key_value
unfolding epoch_time delete_invalid delete_list
epoch_time-Within now Timer.lease_half ls =
    sweep-Within (λ v. v.lease) now ls.key_value ls.key_value
epoch_time-Within now Timer.cache_half ls = λ k v h. h

pub epoch_time-host :
    (now : ℕ) (tm : Timer) (ls : Libstore) → (epoch_time now tm ls).my_host_port ≡ ls.my_host_port
unfolding epoch_time delete_invalid delete_list
epoch_time-host now Timer.lease_half ls = refl
epoch_time-host now Timer.cache_half ls = refl
