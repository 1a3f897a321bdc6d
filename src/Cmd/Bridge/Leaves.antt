-- ===== src/Cmd/Bridge/Leaves.antt =====
-- cmd/skybridge/bridge.go: the nodes that walkNodes calls back on are those below its root that are no
-- directories.
use skylb.Prelude.{
  ◌≡◌, refl, inl, inr, ◌↔◌, Str, ℤ, Bool, true, false, [], ◌∷◌, In, In-append_left, In-append_right,
  In-append_cases,
}
use skylb.Api.{Node, node, Nodes, nil, cons, node_dir}
use skylb.Cmd.Bridge.{walk_nodes, walk_all}

-- A node is one of those of a directory.
pub data IsChild : Node → Nodes → Type 0 where
  first : {n : Node} {ns : Nodes} → IsChild n (cons n ns)
  later : {n m : Node} {ns : Nodes} → IsChild n ns → IsChild n (cons m ns)

-- A node is the root itself or stands below it, at any depth.
pub data IsBelow : Node → Node → Type 0 where
  itself : {n : Node} → IsBelow n n
  deeper :
      {n m : Node} {k v : Str} {d : Bool} {t : ℤ} {ns : Nodes}
      → IsChild m ns
      → IsBelow n m
      → IsBelow n (node k d v t ns)

abbrev pub IsLeafOf : Node → Node → Type 0
IsLeafOf n root = IsBelow n root × (node_dir n ≡ false)

In-walk_all : (n m : Node) (ns : Nodes) → IsChild m ns → In n (walk_nodes m) → In n (walk_all ns)
unfolding walk_nodes
In-walk_all n m nil c i = elim c [ ]
In-walk_all n m (cons _ ns) first i = In-append_left n (walk_nodes m) (walk_all ns) i
In-walk_all n m (cons x ns) (later c) i =
    In-append_right n (walk_nodes x) (walk_all ns) (In-walk_all n m ns c i)

In-walk_nodes : (n root : Node) → IsBelow n root → node_dir n ≡ false → In n (walk_nodes root)
unfolding walk_nodes
In-walk_nodes _ (node k false v t ns) itself e =
    In-append_right (node k false v t ns) (walk_all ns) _ (inl refl)
In-walk_nodes _ (node k true v t ns) itself e = cc
In-walk_nodes n (node k d v t ns) (deeper {m = m} c b) e =
    In-append_left n (walk_all ns) _ (In-walk_all n m ns c (In-walk_nodes n m b e))

mutual
  unfolding walk_nodes

  walked-IsLeafOf : (n root : Node) → In n (walk_nodes root) → IsLeafOf n root
  walked-IsLeafOf n (node k true v t ns) i = elim (In-append_cases n (walk_all ns) [] i) [
    | inl j ↦ let (m, c, b, e) = all_walked n ns j in (deeper c b, e)
    | inr j ↦ absurd j.1
  ]
  walked-IsLeafOf n (node k false v t ns) i =
      elim (In-append_cases n (walk_all ns) (node k false v t ns ∷ []) i) [
        | inl j ↦ let (m, c, b, e) = all_walked n ns j in (deeper c b, e)
        | inr (inl e) ↦ rw e (itself, refl)
        | inr (inr z) ↦ absurd z.1
      ]

  all_walked :
      (n : Node) (ns : Nodes)
      → In n (walk_all ns)
      → (m : Node) × IsChild m ns × IsBelow n m × (node_dir n ≡ false)
  all_walked n nil i = absurd i.1
  all_walked n (cons m ns) i = elim (In-append_cases n (walk_nodes m) (walk_all ns) i) [
    | inl j ↦ let (b, e) = walked-IsLeafOf n m j in (m, first, b, e)
    | inr j ↦ let (x, c, b, e) = all_walked n ns j in (x, later c, b, e)
  ]

pub In-walk_nodes_iff : (n root : Node) → In n (walk_nodes root) ↔ IsLeafOf n root
In-walk_nodes_iff n root = (walked-IsLeafOf n root, λ (b, e). In-walk_nodes n root b e)
