-- ===== src/Storage/Waiting.antt =====
-- storageserver_impl.go: an update that answers OK has waited for every lease of its key.
use projects.Common.{
  ℕ, ◌≤◌, ◌≡◌, refl, subst, ◌⊎◌, inl, inr, String, true, false, Option, none, some, [], ◌∷◌, All,
  ltb, leb, Bool-cases, lookup, string_dec, arith,
}
use projects.Storage.Rpc.{Status, PutArgs}
use projects.Storage.Server.{
  StorageServer, ValueStore, LeaseTerm, Leases, Callback, Revocation, valid_until, revoke_one,
  revoke_next, revoke_granted_lease, await_revoked, and_then,
}
use projects.Storage.Calls.{set_value, refusal, after_revoke, put, put_found, put_guarded}
use projects.Storage.Values.{is_done, Refuses, refusal-Refuses}

-- A holder is past once it has answered or its lease has run out at `t`.
abbrev pub Past : ℕ → (String → Callback) → String × LeaseTerm → Type 0
Past t env e = ((env e.0).answers ≡ true) ⊎ (valid_until e.1 ≤ t)

revoke_next_past :
    (t : ℕ) (cb : Callback) (ss ss' : StorageServer) (host : String) (l : LeaseTerm)
    → cb.now ≤ t
    → cb.until ≤ t
    → revoke_next cb ss host l ≡ Revocation.revoked ss'
    → (cb.answers ≡ true) ⊎ (valid_until l ≤ t)
unfolding revoke_next await_revoked
revoke_next_past t cb ss ss' host l now until e = elim (Bool-cases (ltb cb.now (valid_until l))) [
  | inl x ↦ elim (Bool-cases cb.answers) [
    | inl y ↦ inl y
    | inr y ↦ elim (Bool-cases (leb (valid_until l) cb.until)) [
      | inl z ↦ inr (ground (arith, z, until))
      | inr z ↦ absurd (waits (revoke_one cb ss host) x y z (revoke_next_eq x))
    ]
  ]
  | inr x ↦ inr (ground (arith, x, now))
]
  where
    revoke_next_eq :
        ltb cb.now (valid_until l) ≡ true
        → await_revoked cb l (revoke_one cb ss host) ≡ Revocation.revoked ss'
    revoke_next_eq x = ground (arith, x, e)

    waits :
        (r : Revocation)
        → ltb cb.now (valid_until l) ≡ true
        → cb.answers ≡ false
        → leb (valid_until l) cb.until ≡ false
        → await_revoked cb l r ≡ Revocation.revoked ss'
        → ⊥
    waits (Revocation.revoked ss₁) x y z f = ground (arith, y, z, f)
    waits (Revocation.dial_error ss₁) x y z f = cc
    waits (Revocation.blocked ss₁) x y z f = cc

-- The loop ends without an error only when every lease is past.
revoke_granted_lease-Past :
    (t : ℕ) (env : String → Callback) (ss ss' : StorageServer) (ls : Leases)
    → ((h : String) → (env h).now ≤ t)
    → ((h : String) → (env h).until ≤ t)
    → revoke_granted_lease env ss ls ≡ Revocation.revoked ss'
    → All (Past t env) ls
unfolding revoke_granted_lease
revoke_granted_lease-Past t env ss ss' [] now until e = tt
revoke_granted_lease-Past t env ss ss' ((host, l) ∷ ls) now until e =
    both (revoke_next (env host) ss host l) refl e
      (λ ss₁ g. revoke_granted_lease-Past t env ss₁ ss' ls now until g)
  where
    both :
        (r : Revocation)
        → revoke_next (env host) ss host l ≡ r
        → and_then r (λ ss₁. revoke_granted_lease env ss₁ ls) ≡ Revocation.revoked ss'
        → ((ss₁ : StorageServer)
            → revoke_granted_lease env ss₁ ls ≡ Revocation.revoked ss'
            → All (Past t env) ls)
        → All (Past t env) ((host, l) ∷ ls)
    both (Revocation.revoked ss₁) f g rest =
        (revoke_next_past t (env host) ss ss₁ host l (now host) (until host) f, rest ss₁ g)
    both (Revocation.dial_error ss₁) f g rest = cc
    both (Revocation.blocked ss₁) f g rest = cc

after_revoke-done :
    (ss : StorageServer) (a : PutArgs) (r : Revocation)
    → is_done (after_revoke r (λ ss'. (set_value ss' a, Status.ok))).1 ≡ true
    → (ss' : StorageServer) × (r ≡ Revocation.revoked ss')
after_revoke-done ss a (Revocation.revoked ss') d = (ss', refl)
after_revoke-done ss a (Revocation.dial_error ss') d = absurd cc
after_revoke-done ss a (Revocation.blocked ss') d = absurd cc

module _ (t : ℕ) (env : String → Callback) (ss : StorageServer) (a : PutArgs) (v : ValueStore)
    (now : (h : String) → (env h).now ≤ t) (until : (h : String) → (env h).until ≤ t) where
  put_found-Past :
      (o : Option ValueStore)
      → o ≡ some v
      → is_done (put_found env ss a o).1 ≡ true
      → All (Past t env) v.lease_granted
  unfolding put_found
  put_found-Past none e d = absurd cc
  put_found-Past (some w) e d =
      let (ss', r) = after_revoke-done ss a (revoke_granted_lease env ss w.lease_granted) d in
      let same : w ≡ v = cc in
      subst (λ (v : ValueStore). All (Past t env) v.lease_granted) same
        (revoke_granted_lease-Past t env ss ss' w.lease_granted now until r)

  put_guarded-Past :
      (o : Option Status)
      → Refuses o
      → lookup string_dec a.key ss.key_value_store ≡ some v
      → is_done (put_guarded env ss a o).1 ≡ true
      → All (Past t env) v.lease_granted
  unfolding put_guarded
  put_guarded-Past none n e d = put_found-Past (lookup string_dec a.key ss.key_value_store) e d
  put_guarded-Past (some s) n e d = ground (arith, n, d)

  -- A `Put` that has answered OK by `t` has passed every lease that the key had.
  pub put-Past :
      (hash : String → ℕ)
      → lookup string_dec a.key ss.key_value_store ≡ some v
      → is_done (put hash env ss a).1 ≡ true
      → All (Past t env) v.lease_granted
  unfolding put
  put-Past hash e d = put_guarded-Past (refusal hash ss a.key) (refusal-Refuses hash ss a.key) e d
