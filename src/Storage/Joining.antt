-- ===== src/Storage/Joining.antt =====
-- storageserver_impl.go: the ring that the master publishes.
use mathlib.Core.List.{Perm}
use mathlib.Core.List.Perm
use projects.Common.{
  if◌then◌else◌, length-insert_new, ap, ℕ, zero, suc, ◌+◌, ◌≤◌, ◌≡◌, refl, String, true, none, some,
  List, [], ◌∷◌, All, map, ltb, Bool-cases, inl, inr, length, lookup, insert, string_dec, arith,
}
use projects.Storage.Rpc.{Status, Node}
use projects.Storage.Server.{StorageServer}
use projects.Storage.Ring.{
  exchange, sort_nodes, nodes_of, register_server, register_master, is_known,
}

exchange_perm : (x : Node) (xs : List Node) → Perm ((exchange x xs).0 ∷ (exchange x xs).1) (x ∷ xs)
unfolding exchange
exchange_perm x [] = Perm.rfl
exchange_perm x (y ∷ ys) = elim (Bool-cases (ltb y.node_id x.node_id)) [
  | inl e ↦ rw e (Perm.trans (Perm.swap x _ _) (Perm.cons x (exchange_perm y ys)))
  | inr e ↦ rw e (
      Perm.trans (Perm.swap y _ _)
        (Perm.trans (Perm.cons y (exchange_perm x ys)) (Perm.swap x y ys)))
]

exchange-All :
    (P : Node → Type 0) (x : Node) (xs : List Node)
    → P x
    → All P xs
    → P (exchange x xs).0 × All P (exchange x xs).1
unfolding exchange
exchange-All P x [] p a = (p, tt)
exchange-All P x (y ∷ ys) p a = elim (Bool-cases (ltb y.node_id x.node_id)) [
  | inl e ↦ rw e (let r = exchange-All P y ys a.0 a.1 in (r.0, (p, r.1)))
  | inr e ↦ rw e (let r = exchange-All P x ys p a.1 in (r.0, (a.0, r.1)))
]

exchange_least :
    (x : Node) (xs : List Node) (k : ℕ)
    → (exchange x xs).0.node_id ≡ k
    → (k ≤ x.node_id) × All (λ n. k ≤ n.node_id) xs
unfolding exchange
exchange_least x [] k e = (omega arith, tt)
exchange_least x (y ∷ ys) k e = elim (Bool-cases (ltb y.node_id x.node_id)) [
  | inl b ↦ let r = exchange_least y ys k (rw b at e) in (ground arith, (r.0, r.1))
  | inr b ↦ let r = exchange_least x ys k (rw b at e) in (r.0, (ground arith, r.1))
]

length-exchange : (x : Node) (xs : List Node) → length (exchange x xs).1 ≡ length xs
unfolding exchange
length-exchange x [] = refl
length-exchange x (y ∷ ys) = ap suc (length-exchange (if ltb y.node_id x.node_id then y else x) ys)

-- Ids never fall along the list.
abbrev pub IsSorted : List Node → Type 0
IsSorted [] = Unit {0}
IsSorted (x ∷ xs) = All (λ n. x.node_id ≤ n.node_id) xs × IsSorted xs

sort_All : (P : Node → Type 0) (n : ℕ) (l : List Node) → All P l → All P (sort_nodes n l)
unfolding sort_nodes
sort_All P zero l a = a
sort_All P (suc n) [] a = tt
sort_All P (suc n) (x ∷ xs) a =
    let r = exchange-All P x xs a.0 a.1 in (r.0, sort_All P n (exchange x xs).1 r.1)

pub sort_nodes_lem :
    (n : ℕ) (l : List Node) → length l ≤ n → IsSorted (sort_nodes n l) × Perm (sort_nodes n l) l
unfolding sort_nodes
sort_nodes_lem zero [] h = (tt, Perm.rfl)
sort_nodes_lem zero (x ∷ xs) h = absurd (omega arith)
sort_nodes_lem (suc n) [] h = (tt, Perm.rfl)
sort_nodes_lem (suc n) (x ∷ xs) h =
    let e = exchange_least x xs (exchange x xs).0.node_id refl in
    let rest = (exchange x xs).1 in
    let s = sort_nodes_lem n rest (omega (arith, length-exchange x xs)) in
    (
      (sort_All _ n rest (exchange-All _ x xs e.0 e.1).1, s.0),
      Perm.trans (Perm.cons _ s.1) (exchange_perm x xs),
    )

length-map : {A B : Type 0} (f : A → B) (l : List A) → length (map f l) ≡ length l
length-map f [] = refl
length-map f (x ∷ xs) = ap suc (length-map f xs)

-- The master's state and its reply when the ring is complete.
filled : StorageServer → Node → StorageServer
filled ss node = record ss {
  servers_map = insert string_dec node.host_port node ss.servers_map;
  servers_list =
      sort_nodes ss.num_nodes
        (map (λ e. e.1) (insert string_dec node.host_port node ss.servers_map));
  status = Status.ok;
}

register_filled :
    (ss : StorageServer) (node : Node)
    → ss.is_master ≡ true
    → lookup string_dec node.host_port ss.servers_map ≡ none
    → length ss.servers_map + 1 ≡ ss.num_nodes
    → register_server ss node ≡ (
      filled ss node,
      some (record { servers = (filled ss node).servers_list; status = Status.ok }),
    )
unfolding register_server register_master is_known nodes_of filled
register_filled ss node m new full =
    ground (arith, length-insert_new string_dec node.host_port node ss.servers_map new)

-- When a new server completes the ring, the master is ready and answers with all the servers that
-- have registered, each as often as it stands in the map, in the order of their ids.
pub register_completes :
    (ss : StorageServer) (node : Node)
    → ss.is_master ≡ true
    → lookup string_dec node.host_port ss.servers_map ≡ none
    → length ss.servers_map + 1 ≡ ss.num_nodes
    → let r = register_server ss node in
      (r.0.status ≡ Status.ok)
      × (r.1 ≡ some (record { status = Status.ok; servers = r.0.servers_list }))
      × IsSorted r.0.servers_list
      × Perm r.0.servers_list
          (map (λ e. e.1) (insert string_dec node.host_port node ss.servers_map))
unfolding filled
register_completes ss node m new full =
    let nodes =
      map (λ (e : String × Node). e.1) (insert string_dec node.host_port node ss.servers_map) in
    let s = sort_nodes_lem ss.num_nodes nodes (
      omega (
        arith,
        length-map (λ (e : String × Node). e.1)
            (insert string_dec node.host_port node ss.servers_map),
        length-insert_new string_dec node.host_port node ss.servers_map new,
      )) in
    rw (register_filled ss node m new full) (refl, refl, s.0, s.1)
