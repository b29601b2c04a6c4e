-- ===== src/Bitcoin/Tables.antt =====
-- server.go: how much work for a client is in the queue and with the miners.
use projects.Common.{
  ℕ, ◌+◌, ◌≡◌, refl, Option, none, some, List, [], ◌∷◌, ◌++◌, ◌==◌, if◌then◌else◌, length, All,
  lookup, insert, delete, lookup-insert, lookup-delete, ℕ_discrete, arith,
}
use projects.Bitcoin.Server.{WorkUnit, work_of}

abbrev pub Work : Type 0
Work = List (ℕ × Option WorkUnit)

-- No key stands twice.
abbrev pub Distinct : {V : Type 0} → List (ℕ × V) → Type 0
Distinct [] = Unit
Distinct ((k, v) ∷ m) = (lookup ℕ_discrete k m ≡ none) × Distinct m

pub Distinct-insert :
    {V : Type 0} (k : ℕ) (v : V) (m : List (ℕ × V))
    → Distinct m
    → Distinct (insert ℕ_discrete k v m)
unfolding insert lookup
Distinct-insert k v [] d = (refl, tt)
Distinct-insert k v ((j, w) ∷ m) d =
    ground (arith, lookup-insert ℕ_discrete k j v m, Distinct-insert k v m d.1)

pub Distinct-delete :
    {V : Type 0} (k : ℕ) (m : List (ℕ × V)) → Distinct m → Distinct (delete ℕ_discrete k m)
unfolding delete
Distinct-delete k [] d = tt
Distinct-delete k ((j, w) ∷ m) d =
    ground (arith, lookup-delete ℕ_discrete k j m, Distinct-delete k m d.1)

unfoldable pub one : ℕ → Option WorkUnit → ℕ
one c none = 0
one c (some w) = if w.client_work_for == c then 1 else 0

unfoldable pub count_queue : ℕ → List WorkUnit → ℕ
unfolding one
count_queue c [] = 0
count_queue c (w ∷ q) = one c (some w) + count_queue c q

unfoldable pub count_work : ℕ → Work → ℕ
unfolding one
count_work c [] = 0
count_work c ((k, w) ∷ m) = one c w + count_work c m

pub count_work-insert :
    (c k : ℕ) (w : Option WorkUnit) (m : Work)
    → count_work c (insert ℕ_discrete k w m) + one c (work_of (lookup ℕ_discrete k m))
      ≡ count_work c m + one c w
unfolding count_work insert lookup one
count_work-insert c k w [] = omega arith
count_work-insert c k w ((j, v) ∷ m) = ground (arith, count_work-insert c k w m)

delete-absent : (k : ℕ) (m : Work) → lookup ℕ_discrete k m ≡ none → delete ℕ_discrete k m ≡ m
unfolding delete lookup
delete-absent k [] e = refl
delete-absent k ((j, v) ∷ m) e = ground (arith, delete-absent k m)

pub count_work-delete :
    (c k : ℕ) (m : Work)
    → Distinct m
    → count_work c (delete ℕ_discrete k m) + one c (work_of (lookup ℕ_discrete k m))
      ≡ count_work c m
unfolding count_work delete lookup one
count_work-delete c k [] d = omega arith
count_work-delete c k ((j, v) ∷ m) d =
    ground (arith, delete-absent k m, count_work-delete c k m d.1)

pub count_queue-append :
    (c : ℕ) (q r : List WorkUnit) → count_queue c (q ++ r) ≡ count_queue c q + count_queue c r
unfolding count_queue
count_queue-append c [] r = omega arith
count_queue-append c (w ∷ q) r = omega (arith, count_queue-append c q r)

pub count_queue-all :
    (c d : ℕ) (q : List WorkUnit)
    → All (λ w. w.client_work_for ≡ d) q
    → count_queue c q ≡ (if d == c then length q else 0)
unfolding count_queue one
count_queue-all c d [] a = ground arith
count_queue-all c d (w ∷ q) a = ground (arith, a.0, count_queue-all c d q a.1)
