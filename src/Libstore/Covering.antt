-- ===== src/Libstore/Covering.antt =====
-- libstore_impl.go: every entry of a cache is covered by a lease that the server records, or has run
-- out.
use projects.Common.{
  ℕ, ◌+◌, ◌≤◌, ◌<◌, ◌≡◌, sym, ◌∙◌, subst, ◌⊎◌, inl, inr, String, none, some, lookup, string_dec,
  arith,
}
use projects.Storage.Rpc.{GetArgs}
use projects.Storage.Server.{StorageServer, ValueStore, LeaseTerm, valid_until, new_term}
use projects.Storage.Calls.{Answer}
use projects.Storage.Calls as Serve
use projects.Libstore.Cache.{ValueLib, Libstore}
use projects.Libstore.Calls.{Network, get}
use projects.Libstore.Caching.{Within, Granted}
use projects.Libstore.Answers.{question, get_cases, get-host}
use projects.Libstore.Lent.{Kept, Kept-refl, get-Lent}
use projects.Libstore.Coherence.{Cluster, with_client, Answering}

-- The server has the cached value, and lends it for longer than the cache keeps it.
abbrev pub Covered : StorageServer → String → String → ValueLib → Type 0
Covered ss h k v =
    (sv : ValueStore) × (lookup string_dec k ss.key_value_store ≡ some sv)
    × (sv.value ≡ v.value)
    × ((l : LeaseTerm) × (lookup string_dec h sv.lease_granted ≡ some l)
        × (v.lease.start_from + v.lease.valid_seconds < valid_until l))

abbrev pub Covers : ℕ → StorageServer → String → Libstore → Type 0
Covers clock ss h ls =
    (k : String) (v : ValueLib)
    → lookup string_dec k ls.key_value ≡ some v
    → (v.lease.start_from + v.lease.valid_seconds < clock) ⊎ Covered ss h k v

pub record Coherent (c : Cluster) : Type 0 where
  pub hosts : (h : String) → (c.clients h).my_host_port ≡ h
  pub covers : (h : String) → Covers c.clock c.server h (c.clients h)

pub Covered-Kept :
    (ss ss' : StorageServer) (h k : String) (v : ValueLib)
    → Kept ss ss'
    → Covered ss h k v
    → Covered ss' h k v
Covered-Kept ss ss' h k v kept (sv, e, same, (l, el, lt)) =
    let (sv', e', same', longer) = kept k sv e in
    let (l', el', le) = longer h l el in (sv', e', same' ∙ same, (l', el', omega (arith, lt, le)))

pub Covers-Kept :
    (t t' : ℕ) (ss ss' : StorageServer) (h : String) (ls : Libstore)
    → t ≤ t'
    → Kept ss ss'
    → Covers t ss h ls
    → Covers t' ss' h ls
Covers-Kept t t' ss ss' h ls le kept c k v x = elim (c k v x) [
  | inl old ↦ inl (omega (arith, old))
  | inr cov ↦ inr (Covered-Kept ss ss' h k v kept cov)
]

with_client_split :
    (P : String → Libstore → Type 0) (f : String → Libstore) (host : String) (ls : Libstore)
    (h : String)
    → P host ls
    → P h (f h)
    → P h (with_client f host ls h)
with_client_split P f host ls h x y = elim (string_dec host h) [
  | yes e ↦
      let same : with_client f host ls h ≡ ls = ground arith in
      subst (P h) (sym same) (subst (λ g. P g ls) e x)
  | no ne ↦ let same : with_client f host ls h ≡ f h = ground arith in subst (P h) (sym same) y
]

-- One client changes, and the others see the server change.
with_client-Coherent :
    (c : Cluster) (t : ℕ) (ss : StorageServer) (host : String) (ls : Libstore)
    → Coherent c
    → c.clock ≤ t
    → Kept c.server ss
    → ls.my_host_port ≡ host
    → Covers t ss host ls
    → Coherent (record { clock = t; server = ss; clients = with_client c.clients host ls })
with_client-Coherent c t ss host ls co le kept me cov = record {
  hosts = λ h. with_client_split (λ h ls. ls.my_host_port ≡ h) c.clients host ls h me (co.hosts h);
  covers = λ h.
      with_client_split (Covers t ss) c.clients host ls h cov
        (Covers-Kept c.clock t c.server ss h (c.clients h) le kept (co.covers h));
}

-- A new entry is covered by the lease that the server has just recorded.
Granted-Covered :
    (hash : String → ℕ) (now t : ℕ) (ss : StorageServer) (net : Network) (a : GetArgs)
    (v : ValueLib)
    → now ≤ t
    → Answering hash t ss net
    → Granted net now a v
    → Covered (Serve.get hash t ss a).0 a.host_port a.key v
Granted-Covered hash now t ss net a v le ans g = answered (ans g.host a)
  where
    answered :
        (net.get g.host a ≡ some (Serve.get hash t ss a).1) ⊎ (net.get g.host a ≡ none)
        → Covered (Serve.get hash t ss a).0 a.host_port a.key v
    answered (inr lost) = absurd (ground (arith, lost, g.came))
    answered (inl came) =
        let same : (Serve.get hash t ss a).1 ≡ g.reply = cc in
        let (sv, e, val, lent) = (get-Lent hash t ss a).1 (ground (arith, same, g.ok)) in
        let (el, secs) = lent (ground (arith, same, g.granted)) in
        (
          sv,
          e,
          ground (arith, val, same, g.entry),
          (new_term t, el, ground (arith, secs, same, g.entry)),
        )

pub asks-Coherent :
    (hash : String → ℕ) (c : Cluster) (host key : String) (now t : ℕ) (net : Network)
    → Coherent c
    → c.clock ≤ now
    → now ≤ t
    → Answering hash t c.server net
    → Coherent (record c {
      clock = t;
      server = (Serve.get hash t c.server (question now key (c.clients host))).0;
      clients = with_client c.clients host (get hash net now (c.clients host) key).0;
    })
asks-Coherent hash c host key now t net co low le ans =
    let ls = c.clients host in
    let q = question now key ls in
    let ss = (Serve.get hash t c.server q).0 in
    let kept = (get-Lent hash t c.server q).0 in
    with_client-Coherent c t ss host (get hash net now ls key).0 co (omega (arith, low, le)) kept
      (get-host hash net now ls key ∙ co.hosts host)
      (λ k v x. elim (get_cases hash net now ls key k v x) [
        | inl old ↦
            Covers-Kept c.clock t c.server ss host ls (omega (arith, low, le)) kept (co.covers host)
              k v old
        | inr (e, g) ↦ inr (
            subst (λ k. Covered ss host k v) e
              (subst (λ h. Covered ss h key v) (co.hosts host)
                (Granted-Covered hash now t c.server net q v le ans g)))
      ])

-- A client keeps some of its entries, and the server its values and leases.
pub fewer-Coherent :
    (c : Cluster) (t : ℕ) (host : String) (ls : Libstore)
    → Coherent c
    → c.clock ≤ t
    → ls.my_host_port ≡ (c.clients host).my_host_port
    → Within ls.key_value (c.clients host).key_value
    → Coherent (record c { clock = t; clients = with_client c.clients host ls })
fewer-Coherent c t host ls co le me within =
    with_client-Coherent c t c.server host ls co le (Kept-refl c.server) (me ∙ co.hosts host)
      (λ k v x.
        Covers-Kept c.clock t c.server c.server host (c.clients host) le (Kept-refl c.server)
          (co.covers host) k v (within k v x))

pub silent-Coherent :
    (hash : String → ℕ) (c : Cluster) (host key : String) (now t : ℕ) (net : Network)
    → Coherent c
    → c.clock ≤ t
    → ((h : String) (a : GetArgs) → net.get h a ≡ none)
    → Coherent (record c {
      clock = t;
      clients = with_client c.clients host (get hash net now (c.clients host) key).0;
    })
silent-Coherent hash c host key now t net co le lost =
    let ls = c.clients host in
    fewer-Coherent c t host (get hash net now ls key).0 co le (get-host hash net now ls key)
      (λ k v x. elim (get_cases hash net now ls key k v x) [
        | inl old ↦ old
        | inr (e, g) ↦ absurd (ground (arith, g.came, lost g.host (question now key ls)))
      ])
