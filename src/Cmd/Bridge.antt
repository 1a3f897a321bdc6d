-- ===== src/Cmd/Bridge.antt =====
-- cmd/skybridge/bridge.go: the copy of the endpoints of one etcd cluster to another. `W` is the state
-- of the other cluster. Its client is a parameter: `set` and `remove` are what a Set and a Delete do to
-- the state, errors included, which the program only logs.
pub mod Leaves
pub mod Copy
use skylb.Prelude.{
  ◌≡◌, Bool, true, false, ◌||◌, List, [], ◌∷◌, ◌++◌, Option, none, some, Str, if◌then◌else◌, ◌=?◌,
  str_eq,
}
use skylb.Api.{Node, node, Nodes, nil, cons, node_key, node_value, Response}
use skylb.Deps.{Deps}

abbrev leaf_of : Bool → Node → List Node
leaf_of true n = []
leaf_of false n = n ∷ []

-- The nodes on which walkNodes calls back, in order.
unfoldable mutual
  pub walk_nodes : Node → List Node
  walk_nodes (node k d v t ns) = walk_all ns ++ leaf_of d (node k d v t ns)

  pub walk_all : Nodes → List Node
  walk_all nil = []
  walk_all (cons n ns) = walk_nodes n ++ walk_all ns

module _ {W : Type 0} (set : Str → Str → W → W) (remove : Str → W → W) where
  pub set_keys : List Node → W → W
  set_keys [] w = w
  set_keys (n ∷ ns) w = set_keys ns (set (node_key n) (node_value n) w)

  pub delete_keys : List Node → W → W
  delete_keys [] w = w
  delete_keys (n ∷ ns) w = delete_keys ns (remove (node_key n) w)

  -- What initialCopy does with the node that it has got.
  pub initial_copy : Node → W → W
  unfolding set_keys walk_nodes
  initial_copy root w = set_keys (walk_nodes root) w

  -- The actions that the client package names, besides those of the hub.
  module _ (d : Deps) (compare_and_delete compare_and_swap : Str) where
    open d use {action_create, action_set, action_delete, action_expire}

    -- One round of watchChanges; `none` stands for the panic on a node that is not there.
    pub apply_change : Response → W → Option W
    unfolding set_keys delete_keys walk_nodes
    apply_change resp w =
        if resp.action =? compare_and_delete
          || (resp.action =? compare_and_swap
              || (resp.action =? action_create || resp.action =? action_set))
        then elim resp.node [ none ↦ none | some n ↦ some (set_keys (walk_nodes n) w) ]
        else if resp.action =? action_delete || resp.action =? action_expire
        then elim resp.prev_node [ none ↦ none | some n ↦ some (delete_keys (walk_nodes n) w) ]
        else some w

    -- watchChanges on the events up to the first error.
    unfoldable pub watch_changes : List Response → W → Option W
    unfolding apply_change
    watch_changes [] w = some w
    watch_changes (resp ∷ resps) w = elim (apply_change resp w) [
      | none ↦ none
      | some w' ↦ watch_changes resps w'
    ]
