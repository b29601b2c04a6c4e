-- ===== src/Libstore/Queries.antt =====
-- libstore_impl.go: when a libstore asks for a lease, which queries it remembers, and how it waits for
-- the ring.
use projects.Common.{
  inl, inr, if◌then◌else◌, subst, sym, ℕ, zero, suc, ◌+◌, ◌≤◌, ◌<◌, ◌≡◌, refl, ap, ◌∙◌, String,
  true, false, Option, none, some, List, [], ◌∷◌, All, length, ltb, leb, lookup, string_dec,
  Bool-cases, Option-cases, arith,
}
use projects.Storage.Rpc.{Node, RegisterReply, query_cache_seconds, query_cache_thresh}
use projects.Storage.Server.{is_ok}
use projects.Libstore.Cache.{LeaseMode, Libstore, trim, poll, new_libstore}
use projects.Libstore.Caching.{fetch-rest}
use projects.Libstore.Answers.{hit, question, looked_up, get_hit, get_miss}
use projects.Libstore.Calls.{Network, note_query, want_lease, get, fetch, call_key, call_host}

-- The queries that a history keeps: each is less than ten seconds old.
abbrev pub Recent : ℕ → List ℕ → Type 0
Recent now ts = All (λ t. now < t + query_cache_seconds) ts

-- Times that do not go back.
abbrev pub Ascending : List ℕ → Type 0
Ascending [] = Unit
Ascending (t ∷ ts) = All (λ u. t ≤ u) ts × Ascending ts

Recent-after :
    (now t : ℕ) (ts : List ℕ) → now < t + query_cache_seconds → All (λ u. t ≤ u) ts → Recent now ts
Recent-after now t [] lt a = tt
Recent-after now t (u ∷ ts) lt a = (omega (arith, lt, a.0), Recent-after now t ts lt a.1)

-- Of a history in the order of time, the queries that are kept are less than ten seconds old and at
-- most three.
pub trim-Recent :
    (now : ℕ) (ts : List ℕ)
    → Ascending ts
    → Recent now (trim now ts) × (length (trim now ts) ≤ query_cache_thresh)
unfolding trim
trim-Recent now [] a = (tt, omega arith)
trim-Recent now (t ∷ ts) a = elim (Bool-cases (ltb now (t + query_cache_seconds))) [
  | inl x ↦ elim (Bool-cases (leb (length (t ∷ ts)) query_cache_thresh)) [
    | inl y ↦
        rw (x, y)
          ((ground (arith, x), Recent-after now t ts (ground (arith, x)) a.0), ground (arith, y))
    | inr y ↦ rw (x, y) (trim-Recent now ts a.1)
  ]
  | inr x ↦ rw x (trim-Recent now ts a.1)
]

-- A key without a history gets none by a read.
no_history :
    (hash : String → ℕ) (net : Network) (now : ℕ) (ls : Libstore) (key : String)
    → lookup string_dec key ls.value_history ≡ none
    → (lookup string_dec key (get hash net now ls key).0.value_history ≡ none)
      × ((get hash net now ls key).0.mode ≡ ls.mode)
unfolding note_query
no_history hash net now ls key e =
    let same : (looked_up now key ls).value_history ≡ ls.value_history = ground (arith, e) in
    elim (Option-cases (hit now key ls)) [
      | inl x ↦
          let (h, m) =
            fetch-rest hash net now key (question now key ls).want_lease (looked_up now key ls) in
          subst (λ r. (lookup string_dec key r.0.value_history ≡ none) × (r.0.mode ≡ ls.mode))
            (sym (get_miss hash net now ls key x)) (ap (lookup string_dec key) (h ∙ same) ∙ e, m)
      | inr (w, x) ↦
          subst (λ r. (lookup string_dec key r.0.value_history ≡ none) × (r.0.mode ≡ ls.mode))
            (sym (get_hit hash net now ls key w x)) (ap (lookup string_dec key) same ∙ e, refl)
    ]

-- The network without its answers to questions that ask for a lease.
abbrev pub without_leases : Network → Network
without_leases net = record net { get = λ host a. if a.want_lease then none else net.get host a }

fetch-without_leases :
    (hash : String → ℕ) (net : Network) (now : ℕ) (ls : Libstore) (key : String)
    → fetch hash (without_leases net) now ls key false ≡ fetch hash net now ls key false
unfolding fetch call_key call_host
fetch-without_leases hash net now ls key = refl

-- In mode Normal a libstore that has not itself written a key never asks for a lease of it, however
-- often it reads it: a `Get` would go the same way if no question that asks for a lease were ever
-- answered, and it leaves the key without a history and the mode as it was.
pub reader_never_leases :
    (hash : String → ℕ) (net : Network) (now : ℕ) (ls : Libstore) (key : String)
    → ls.mode ≡ LeaseMode.normal
    → lookup string_dec key ls.value_history ≡ none
    → let r = get hash net now ls key in
      (get hash (without_leases net) now ls key ≡ r)
      × (lookup string_dec key r.0.value_history ≡ none)
      × (r.0.mode ≡ LeaseMode.normal)
unfolding note_query want_lease
reader_never_leases hash net now ls key m e =
    let (h, same) = no_history hash net now ls key e in
    let plain : (question now key ls).want_lease ≡ false = ground (arith, m, e) in
    let ls' = looked_up now key ls in
    let eq : get hash (without_leases net) now ls key ≡ get hash net now ls key =
      elim (Option-cases (hit now key ls)) [
        | inl x ↦
            get_miss hash (without_leases net) now ls key x
            ∙ ap (λ want. fetch hash (without_leases net) now ls' key want) plain
            ∙ fetch-without_leases hash net now ls' key
            ∙ sym (ap (λ want. fetch hash net now ls' key want) plain)
            ∙ sym (get_miss hash net now ls key x)
        | inr (w, x) ↦
            get_hit hash (without_leases net) now ls key w x ∙ sym (get_hit hash net now ls key w x)
      ] in
    (eq, h, same ∙ m)

-- The answers before the first with OK are all answers without it.
poll-first :
    (answers : ℕ → Option RegisterReply) (left n k : ℕ) (r : RegisterReply)
    → ((i : ℕ)
        → i < k
        → (q : RegisterReply) × (answers (n + i) ≡ some q) × (is_ok q.status ≡ false))
    → answers (n + k) ≡ some r
    → is_ok r.status ≡ true
    → poll left answers n ≡ (if ltb k left then some r.servers else none)
unfolding poll
poll-first answers zero n k r wait e ok = ground arith
poll-first answers (suc left) n zero r wait e ok = ground (arith, e, ok)
poll-first answers (suc left) n (suc k) r wait e ok =
    let (q, eq, busy) = wait 0 (omega arith) in
    let rest =
      poll-first answers left (n + 1) k r
        (λ i less.
          let at : n + suc i ≡ n + 1 + i = omega arith in
          subst (λ m. (q : RegisterReply) × (answers m ≡ some q) × (is_ok q.status ≡ false)) at
            (wait (suc i) (omega arith)))
        (let at : n + suc k ≡ n + 1 + k = omega arith in subst (λ m. answers m ≡ some r) at e) ok in
    ground (arith, eq, busy, rest)

abbrev pub servers_of : Option Libstore → Option (List Node)
servers_of none = none
servers_of (some ls) = some ls.servers

-- While the master answers that the ring is not ready the constructor asks again, at most five times:
-- if the first answer with OK is among the first five, the libstore has its servers, and if it comes
-- later, there is no libstore.
pub new_libstore_lem :
    (answers : ℕ → Option RegisterReply) (master host : String) (mode : LeaseMode) (k : ℕ)
    (r : RegisterReply)
    → ((i : ℕ) → i < k → (q : RegisterReply) × (answers i ≡ some q) × (is_ok q.status ≡ false))
    → answers k ≡ some r
    → is_ok r.status ≡ true
    → servers_of (new_libstore true answers master host mode)
      ≡ (if ltb k 5 then some r.servers else none)
unfolding new_libstore
new_libstore_lem answers master host mode k r wait e ok =
    let found =
      poll-first answers 5 0 k r
        (λ i less.
          let at : i ≡ 0 + i = omega arith in
          subst (λ m. (q : RegisterReply) × (answers m ≡ some q) × (is_ok q.status ≡ false)) at
            (wait i less))
        (let at : k ≡ 0 + k = omega arith in subst (λ m. answers m ≡ some r) at e) ok in
    elim (Bool-cases (ltb k 5)) [ inl x ↦ rw (found, x) refl | inr x ↦ rw (found, x) refl ]
