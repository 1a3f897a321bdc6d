-- ===== src/Cmd/Bridge/Copy.antt =====
-- cmd/skybridge/bridge.go: what the other cluster holds after a copy and after an event.
use skylb.Prelude.{
  ◌≡◌, ◌≢◌, refl, sym, ap, ◌∙◌, ◌⊎◌, inl, inr, Bool, true, false, ◌||◌, List, [], ◌∷◌, Option, none,
  some, Str, arith, if◌then◌else◌, ◌=?◌, =?_iff, str_eq, In, Bool-cases, Option-cases,
}
use skylb.Api.{Node, Response, node_key, node_value}
use skylb.Deps.{Deps}
use skylb.Cmd.Bridge.Leaves.{IsLeafOf, In-walk_nodes_iff}
use skylb.Cmd.Bridge.{walk_nodes, set_keys, delete_keys, initial_copy, apply_change}

-- The value of the last of the nodes with the key, or else `held`.
abbrev pub last_value : Str → List Node → Option Str → Option Str
last_value key [] held = held
last_value key (n ∷ ns) held =
    last_value key ns (if node_key n =? key then some (node_value n) else held)

-- Some node has the key.
abbrev pub is_listed : Str → List Node → Bool
is_listed key [] = false
is_listed key (n ∷ ns) = node_key n =? key || is_listed key ns

-- A test and what it decides.
abbrev Decides : Bool → Type 0 → Type 0
Decides test P = ((test ≡ true) × P) ⊎ ((test ≡ false) × (¬ P))

=?_cases : (a b : Str) → Decides (a =? b) (a ≡ b)
=?_cases a b = elim (Bool-cases (a =? b)) [
  | inl t ↦ inl (t, (=?_iff a b).0 t)
  | inr f ↦ inr (f, λ e. let t : (a =? b) ≡ true = (=?_iff a b).1 e in cc)
]

either_cases : {s t : Bool} {P Q : Type 0} → Decides s P → Decides t Q → Decides (s || t) (P ⊎ Q)
either_cases (inl (e, p)) q = inl (rw e refl, inl p)
either_cases (inr (e, p)) (inl (e', q)) = inl (rw (e, e') refl, inr q)
either_cases (inr (e, p)) (inr (e', q)) =
    inr (rw (e, e') refl, λ z. elim z [ inl x ↦ p x | inr y ↦ q y ])

last_value-cases :
    (j : Str) (ns : List Node) (held : Option Str)
    → ((n : Node) × In n ns × (node_key n ≡ j) × (last_value j ns held ≡ some (node_value n)))
      ⊎ (((n : Node) → In n ns → node_key n ≢ j) × (last_value j ns held ≡ held))
last_value-cases j [] held = inr (λ n i. absurd i.1, refl)
last_value-cases j (m ∷ ns) held =
    elim (last_value-cases j ns (if node_key m =? j then some (node_value m) else held)) [
      | inl (n, i, k, e) ↦ inl (n, inr i, k, e)
      | inr (others, e) ↦ elim (=?_cases (node_key m) j) [
        | inl (t, k) ↦ inl (m, inl refl, k, e ∙ rw t refl)
        | inr (f, k) ↦ inr (
          λ n i. elim i [ inl same ↦ λ q. k (ap node_key (sym same) ∙ q) | inr i' ↦ others n i' ],
          e ∙ rw f refl,
        )
      ]
    ]

is_listed-cases :
    (j : Str) (ns : List Node)
    → ((n : Node) × In n ns × (node_key n ≡ j) × (is_listed j ns ≡ true))
      ⊎ (((n : Node) → In n ns → node_key n ≢ j) × (is_listed j ns ≡ false))
is_listed-cases j [] = inr (λ n i. absurd i.1, refl)
is_listed-cases j (m ∷ ns) = elim (=?_cases (node_key m) j) [
  | inl (t, k) ↦ inl (m, inl refl, k, rw t refl)
  | inr (f, k) ↦ elim (is_listed-cases j ns) [
    | inl (n, i, q, e) ↦ inl (n, inr i, q, rw (f, e) refl)
    | inr (others, e) ↦ inr (
      λ n i. elim i [ inl same ↦ λ q. k (ap node_key (sym same) ∙ q) | inr i' ↦ others n i' ],
      rw (f, e) refl,
    )
  ]
]

-- The client of the other cluster, where no call fails: `view` is what a key holds.
pub record IsStore {W : Type 0} (set : Str → Str → W → W) (remove : Str → W → W)
    (view : Str → W → Option Str) : Type 0 where
  pub view_set :
      (key value j : Str) (w : W)
      → view j (set key value w) ≡ (if key =? j then some value else view j w)
  pub view_remove :
      (key j : Str) (w : W) → view j (remove key w) ≡ (if key =? j then none else view j w)

module _ {W : Type 0} (set : Str → Str → W → W) (remove : Str → W → W) (view : Str → W → Option Str)
    (store : IsStore set remove view) where
  open store use {view_set, view_remove}

  view-set_keys :
      (ns : List Node) (j : Str) (w : W)
      → view j (set_keys set remove ns w) ≡ last_value j ns (view j w)
  unfolding set_keys
  view-set_keys [] j w = refl
  view-set_keys (n ∷ ns) j w =
      view-set_keys ns j (set (node_key n) (node_value n) w)
      ∙ ap (last_value j ns) (view_set (node_key n) (node_value n) j w)

  view-delete_keys :
      (ns : List Node) (j : Str) (w : W)
      → view j (delete_keys set remove ns w) ≡ (if is_listed j ns then none else view j w)
  unfolding delete_keys
  view-delete_keys [] j w = refl
  view-delete_keys (n ∷ ns) j w =
      ground (arith, view-delete_keys ns j (remove (node_key n) w), view_remove (node_key n) j w)

  -- A key holds the value of a leaf below the root that has it; a key of no such leaf holds what it held.
  abbrev pub IsCopied : Node → Str → W → W → Type 0
  IsCopied root j before after =
      ((n : Node) × IsLeafOf n root × (node_key n ≡ j) × (view j after ≡ some (node_value n)))
      ⊎ (((n : Node) → IsLeafOf n root → node_key n ≢ j) × (view j after ≡ view j before))

  -- A key of a leaf below the root is gone; a key of no such leaf holds what it held.
  abbrev pub IsRemoved : Node → Str → W → W → Type 0
  IsRemoved root j before after =
      ((n : Node) × IsLeafOf n root × (node_key n ≡ j) × (view j after ≡ none))
      ⊎ (((n : Node) → IsLeafOf n root → node_key n ≢ j) × (view j after ≡ view j before))

  set_keys-IsCopied :
      (root : Node) (j : Str) (w : W) → IsCopied root j w (set_keys set remove (walk_nodes root) w)
  set_keys-IsCopied root j w = elim (last_value-cases j (walk_nodes root) (view j w)) [
    | inl (n, i, k, e) ↦
        inl (n, (In-walk_nodes_iff n root).0 i, k, view-set_keys (walk_nodes root) j w ∙ e)
    | inr (others, e) ↦
        inr (
          λ n l. others n ((In-walk_nodes_iff n root).1 l),
          view-set_keys (walk_nodes root) j w ∙ e,
        )
  ]

  delete_keys-IsRemoved :
      (root : Node) (j : Str) (w : W)
      → IsRemoved root j w (delete_keys set remove (walk_nodes root) w)
  delete_keys-IsRemoved root j w = elim (is_listed-cases j (walk_nodes root)) [
    | inl (n, i, k, e) ↦
        inl
          (n, (In-walk_nodes_iff n root).0 i, k, view-delete_keys (walk_nodes root) j w ∙ rw e refl)
    | inr (others, e) ↦ inr (
      λ n l. others n ((In-walk_nodes_iff n root).1 l),
      view-delete_keys (walk_nodes root) j w ∙ rw e refl,
    )
  ]

  -- Where no call of the client of the other cluster fails, after the initial copy each key of a node
  -- that is the root or below it, at any depth, and is no directory, holds the value of such a node with
  -- this key; every other key holds what it held.
  pub initial_copy-IsCopied :
      (root : Node) (j : Str) (w : W) → IsCopied root j w (initial_copy set remove root w)
  unfolding initial_copy
  initial_copy-IsCopied root j w = set_keys-IsCopied root j w

  module _ (d : Deps) (compare_and_delete compare_and_swap : Str) where
    -- The actions that are copied as writes.
    abbrev pub IsWrite : Str → Type 0
    IsWrite a =
        (a ≡ compare_and_delete)
        ⊎ ((a ≡ compare_and_swap) ⊎ ((a ≡ d.action_create) ⊎ (a ≡ d.action_set)))

    -- The actions that are copied as deletions.
    abbrev pub IsGone : Str → Type 0
    IsGone a = (a ≡ d.action_delete) ⊎ (a ≡ d.action_expire)

    IsWrite-cases :
        (a : Str)
        → let test =
            a =? compare_and_delete
            || (a =? compare_and_swap || (a =? d.action_create || a =? d.action_set)) in
          ((test ≡ true) × IsWrite a) ⊎ ((test ≡ false) × (¬ (IsWrite a)))
    IsWrite-cases a = either_cases (=?_cases a compare_and_delete) (
        either_cases (=?_cases a compare_and_swap)
          (either_cases (=?_cases a d.action_create) (=?_cases a d.action_set)))

    IsGone-cases :
        (a : Str)
        → let test = a =? d.action_delete || a =? d.action_expire in
          ((test ≡ true) × IsGone a) ⊎ ((test ≡ false) × (¬ (IsGone a)))
    IsGone-cases a = either_cases (=?_cases a d.action_delete) (=?_cases a d.action_expire)

    -- What one event does, on each of its branches.
    abbrev pub IsApplied : Response → W → Option W → Type 0
    IsApplied resp w result =
        (IsWrite resp.action
          × (((resp.node ≡ none) × (result ≡ none))
              ⊎ ((n : Node) × (w' : W) × (resp.node ≡ some n)
                  × (result ≡ some w')
                  × ((j : Str) → IsCopied n j w w'))))
        ⊎ (((¬ (IsWrite resp.action))
              × IsGone resp.action
              × (((resp.prev_node ≡ none) × (result ≡ none))
                  ⊎ ((n : Node) × (w' : W) × (resp.prev_node ≡ some n)
                      × (result ≡ some w')
                      × ((j : Str) → IsRemoved n j w w'))))
            ⊎ ((¬ (IsWrite resp.action)) × (¬ (IsGone resp.action)) × (result ≡ some w)))

    -- Where no call of the client of the other cluster fails: an event of one of the four actions that
    -- are copied as writes, a compare-and-delete among them, leaves each key of a leaf of its node with
    -- the value of such a leaf; another event of a delete or an expiry removes each key of a leaf of the
    -- previous node; both leave every other key as it was, and panic when the node is nil. A leaf is the
    -- node itself or one below it, at any depth, that is no directory. Any other event changes nothing.
    pub apply_change-IsApplied :
        (resp : Response) (w : W)
        → IsApplied resp w (apply_change set remove d compare_and_delete compare_and_swap resp w)
    unfolding apply_change
    apply_change-IsApplied resp w = elim (IsWrite-cases resp.action) [
      | inl (t, writes) ↦ elim (Option-cases resp.node) [
        | inl e ↦ inl (writes, inl (e, rw (t, e) refl))
        | inr (n, e) ↦ inl (
          writes,
          inr (
            n,
            set_keys set remove (walk_nodes n) w,
            e,
            rw (t, e) refl,
            λ j. set_keys-IsCopied n j w,
          ),
        )
      ]
      | inr (f, no_write) ↦ elim (IsGone-cases resp.action) [
        | inl (t, gone) ↦ elim (Option-cases resp.prev_node) [
          | inl e ↦ inr (inl (no_write, gone, inl (e, rw (f, t, e) refl)))
          | inr (n, e) ↦ inr (
              inl (
                no_write,
                gone,
                inr (
                  n,
                  delete_keys set remove (walk_nodes n) w,
                  e,
                  rw (f, t, e) refl,
                  λ j. delete_keys-IsRemoved n j w,
                ),
              ))
        ]
        | inr (f', not_gone) ↦ inr (inr (no_write, not_gone, rw (f, f') refl))
      ]
    ]
