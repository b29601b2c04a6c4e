-- ===== src/Libstore/Caching.antt =====
-- libstore_impl.go: what a call leaves in the cache of values, and where it comes from.
use projects.Common.{
  ℕ, ◌+◌, ◌≤◌, ◌≡◌, refl, ◌∙◌, subst, ◌⊎◌, inl, inr, String, Bool, true, Option, some, List, [],
  ◌∷◌, lookup, lookup-insert, lookup-delete, string_dec, Option-cases, arith,
}
use projects.Storage.Rpc.{Status, GetArgs, GetReply}
use projects.Libstore.Route.{find_shash_ring}
use projects.Libstore.Cache.{LeaseType, ValueLib, Libstore, expired, sweep}
use projects.Libstore.Calls.{
  Network, Result, result_of, call_host, call_key, fresh, get_args, lease_of, finish_get, fetch,
}

-- Every entry of the first map is one of the second.
abbrev pub Within : {V : Type 0} → List (String × V) → List (String × V) → Type 0
Within {V} m m' =
    (k : String) (v : V) → lookup string_dec k m ≡ some v → lookup string_dec k m' ≡ some v

pub fresh-Within :
    {V : Type 0} (lease : V → LeaseType) (now : ℕ) (key : String) (m : List (String × V))
    → Within (fresh lease now key m).0 m
unfolding fresh
fresh-Within lease now key m k v h = ground (arith, lookup-delete string_dec key k m)

pub fresh-live :
    {V : Type 0} (lease : V → LeaseType) (now : ℕ) (key : String) (m : List (String × V)) (v : V)
    → (fresh lease now key m).1 ≡ some v
    → (lookup string_dec key m ≡ some v) × (now ≤ (lease v).start_from + (lease v).valid_seconds)
unfolding fresh expired
fresh-live lease now key m v h = ground arith

pub sweep-Within :
    {V : Type 0} (lease : V → LeaseType) (now : ℕ) (es m : List (String × V))
    → Within (sweep lease now es m) m
unfolding sweep
sweep-Within lease now [] m k v h = h
sweep-Within lease now ((j, w) ∷ es) m k v h =
    ground (arith, lookup-delete string_dec j k m, sweep-Within lease now es _ k v h)

-- A call's rpc client changes nothing of the caches.
pub record SameCaches (ls ls' : Libstore) : Type 0 where
  pub values : ls'.key_value ≡ ls.key_value
  pub host : ls'.my_host_port ≡ ls.my_host_port
  pub ring : ls'.servers ≡ ls.servers
  pub queries : ls'.value_history ≡ ls.value_history
  pub mode : ls'.mode ≡ ls.mode

call_host_lem :
    {A : Type 0} (net : Network) (ls : Libstore) (host : String) (f : String → Option A)
    → SameCaches ls (call_host net ls host f).0
unfolding call_host
call_host_lem net ls host f = ground arith

pub call_key_lem :
    {A : Type 0} (hash : String → ℕ) (net : Network) (ls : Libstore) (key : String)
    (f : String → Option A)
    → SameCaches ls (call_key hash net ls key f).0
unfolding call_key
call_key_lem hash net ls key f = elim (Option-cases (find_shash_ring hash ls.servers key)) [
  | inl e ↦ rw (e, call_key) (ground arith)
  | inr (n, e) ↦ rw (e, call_key) (call_host_lem net ls n.host_port f)
]

call_key-ok :
    {A : Type 0} (hash : String → ℕ) (net : Network) (ls : Libstore) (key : String)
    (f : String → Option A) (a : A)
    → (call_key hash net ls key f).1 ≡ Result.ok a
    → (host : String) × (f host ≡ some a)
unfolding call_key call_host result_of
call_key-ok hash net ls key f a h = elim (Option-cases (find_shash_ring hash ls.servers key)) [
  | inl e ↦ absurd (ground (arith, h, e))
  | inr (n, e) ↦ (n.host_port, ground (arith, h, e))
]

-- The new entry is of a reply to this call, with the lease that the reply grants.
pub record Granted (net : Network) (now : ℕ) (a : GetArgs) (v : ValueLib) : Type 0 where
  pub host : String
  pub reply : GetReply
  pub came : net.get host a ≡ some reply
  pub ok : reply.status ≡ Status.ok
  pub granted : reply.lease.granted ≡ true
  pub entry : v ≡ record { value = reply.value; lease = lease_of now reply.lease }

finish_get_cases :
    (now : ℕ) (key : String) (ls : Libstore) (r : GetReply) (k : String) (v : ValueLib)
    → lookup string_dec k (finish_get now key ls (Result.ok r)).0.key_value ≡ some v
    → (lookup string_dec k ls.key_value ≡ some v)
      ⊎ ((key ≡ k)
          × (r.status ≡ Status.ok)
          × (r.lease.granted ≡ true)
          × (v ≡ record { value = r.value; lease = lease_of now r.lease }))
unfolding finish_get
finish_get_cases now key ls r k v h =
    let new : ValueLib = record { value = r.value; lease = lease_of now r.lease } in
    ground (arith, h, lookup-insert string_dec key k new ls.key_value)

finish_get-ok :
    (now : ℕ) (key : String) (ls : Libstore) (r : Result GetReply) (v : String)
    → (finish_get now key ls r).1 ≡ Result.ok v
    → (reply : GetReply) × (r ≡ Result.ok reply) × (reply.status ≡ Status.ok) × (reply.value ≡ v)
unfolding finish_get
finish_get-ok now key ls (Result.error e) v h = absurd (ground (arith, h))
finish_get-ok now key ls (Result.ok r) v h = (r, refl, ground (arith, h), ground (arith, h))

finish_get-host :
    (now : ℕ) (key : String) (ls : Libstore) (r : Result GetReply)
    → (finish_get now key ls r).0.my_host_port ≡ ls.my_host_port
unfolding finish_get
finish_get-host now key ls (Result.error e) = refl
finish_get-host now key ls (Result.ok r) = ground arith

finish_get-rest :
    (now : ℕ) (key : String) (ls : Libstore) (r : Result GetReply)
    → ((finish_get now key ls r).0.value_history ≡ ls.value_history)
      × ((finish_get now key ls r).0.mode ≡ ls.mode)
unfolding finish_get
finish_get-rest now key ls (Result.error e) = (refl, refl)
finish_get-rest now key ls (Result.ok r) = ground arith

-- What a new entry is.
abbrev NewEntry : ℕ → String → String → Result GetReply → ValueLib → Type 0
NewEntry now key k r v =
    (reply : GetReply) × (r ≡ Result.ok reply)
    × (key ≡ k)
    × (reply.status ≡ Status.ok)
    × (reply.lease.granted ≡ true)
    × (v ≡ record { value = reply.value; lease = lease_of now reply.lease })

finish_cases :
    (now : ℕ) (key : String) (ls : Libstore) (r : Result GetReply) (k : String) (v : ValueLib)
    → lookup string_dec k (finish_get now key ls r).0.key_value ≡ some v
    → (lookup string_dec k ls.key_value ≡ some v) ⊎ NewEntry now key k r v
unfolding finish_get
finish_cases now key ls (Result.error e) k v h = inl h
finish_cases now key ls (Result.ok r) k v h = elim (finish_get_cases now key ls r k v h) [
  | inl x ↦ inl x
  | inr (e, o, g, x) ↦ inr (r, refl, e, o, g, x)
]

module _ (hash : String → ℕ) (net : Network) (now : ℕ) (key : String) (want : Bool) where
  -- The call that asks the server.
  abbrev asked : Libstore → Libstore × Result GetReply
  asked ls = call_key hash net ls key (λ host. net.get host (get_args ls key want))

  entry_of :
      (ls : Libstore) (k : String) (v : ValueLib)
      → NewEntry now key k (asked ls).1 v
      → (key ≡ k) × Granted net now (get_args ls key want) v
  entry_of ls k v (reply, e, same, o, g, x) =
      let (host, came) =
        call_key-ok hash net ls key (λ host. net.get host (get_args ls key want)) reply e in
      (same, record { host = host; reply = reply; came = came; ok = o; granted = g; entry = x })

  pub fetch_cases :
      (ls : Libstore) (k : String) (v : ValueLib)
      → lookup string_dec k (fetch hash net now ls key want).0.key_value ≡ some v
      → (lookup string_dec k ls.key_value ≡ some v)
        ⊎ ((key ≡ k) × Granted net now (get_args ls key want) v)
  unfolding fetch
  fetch_cases ls k v h =
      let same =
        (call_key_lem hash net ls key (λ host. net.get host (get_args ls key want))).values in
      elim (finish_cases now key (asked ls).0 (asked ls).1 k v h) [
        | inl x ↦ inl (subst (λ m. lookup string_dec k m ≡ some v) same x)
        | inr x ↦ inr (entry_of ls k v x)
      ]

  pub fetch-host :
      (ls : Libstore) → (fetch hash net now ls key want).0.my_host_port ≡ ls.my_host_port
  unfolding fetch
  fetch-host ls =
      finish_get-host now key (asked ls).0 (asked ls).1
      ∙ (call_key_lem hash net ls key (λ host. net.get host (get_args ls key want))).host

  pub fetch-rest :
      (ls : Libstore)
      → ((fetch hash net now ls key want).0.value_history ≡ ls.value_history)
        × ((fetch hash net now ls key want).0.mode ≡ ls.mode)
  unfolding fetch
  fetch-rest ls =
      let (h, m) = finish_get-rest now key (asked ls).0 (asked ls).1 in
      let c = call_key_lem hash net ls key (λ host. net.get host (get_args ls key want)) in
      (h ∙ c.queries, m ∙ c.mode)

  pub fetch-ok :
      (ls : Libstore) (v : String)
      → (fetch hash net now ls key want).1 ≡ Result.ok v
      → (host : String) × (reply : GetReply) × (net.get host (get_args ls key want) ≡ some reply)
        × (reply.status ≡ Status.ok)
        × (reply.value ≡ v)
  unfolding fetch
  fetch-ok ls v h =
      let (reply, e, o, x) = finish_get-ok now key (asked ls).0 (asked ls).1 v h in
      let (host, came) =
        call_key-ok hash net ls key (λ host. net.get host (get_args ls key want)) reply e in
      (host, reply, came, o, x)
