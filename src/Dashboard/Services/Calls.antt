-- ===== src/Dashboard/Services/Calls.antt =====
-- The two lists of calls on the page of a service, on a graph whose keys have the form that the hub
-- writes: neither loop panics, and each is a loop over lists.
use skylb.Prelude.{
  ◌≡◌, ◌≢◌, refl, sym, ap, ◌∙◌, ◌↔◌, inl, inr, Bool, true, false, not, ◌||◌, List, [], ◌∷◌, ◌++◌,
  Option, none, some, arith, Str, ℤ, if◌then◌else◌, length, length-append, drop, ◌=?◌, =?_iff,
  =?_refl, str_eq, All, In, In-append_left, In-append_right, In-append_cases, Bool-cases,
}
use skylb.Go.Maps.{GoMap, get}
use skylb.Api.{Node, node_key, node_nodes}
use skylb.Dashboard.Services.{
  ServiceRef, slice_from, collect, client_node, graph_prefix, clients_part, is_skipped,
  known_service, ref_of, incoming_named, incoming_of, incomings_under, incomings_at, outgoing_named,
  outgoing_of, outgoings_under, outgoings_named, outgoings_at,
}

-- The lists of a loop that never panics.
unfoldable pub flat : {A B : Type 0} → (A → List B) → List A → List B
flat g [] = []
flat g (n ∷ ns) = g n ++ flat g ns

pub collect-flat :
    {A B : Type 0} (f : A → Option (List B)) (g : A → List B) (ns : List A)
    → All (λ n. f n ≡ some (g n)) ns
    → collect f ns ≡ some (flat g ns)
unfolding collect flat
collect-flat f g [] h = refl
collect-flat f g (n ∷ ns) h = rw (collect, h.0, collect-flat f g ns h.1) refl

pub flat_same :
    {A B C : Type 0} (g : A → List B) (h : A → List C) (b : B) (c : C) (ns : List A)
    → All (λ n. In b (g n) ↔ In c (h n)) ns
    → In b (flat g ns) ↔ In c (flat h ns)
unfolding flat
flat_same g h b c [] e = (λ m. absurd m.1, λ m. absurd m.1)
flat_same g h b c (n ∷ ns) e =
    let rest = flat_same g h b c ns e.1 in
    (
      λ m. elim (In-append_cases b (g n) (flat g ns) m) [
        | inl l ↦ In-append_left c (h n) (flat h ns) (e.0.0 l)
        | inr r ↦ In-append_right c (h n) (flat h ns) (rest.0 r)
      ],
      λ m. elim (In-append_cases c (h n) (flat h ns) m) [
        | inl l ↦ In-append_left b (g n) (flat g ns) (e.0.1 l)
        | inr r ↦ In-append_right b (g n) (flat g ns) (rest.1 r)
      ],
    )

drop-append : (p s : Str) → drop (length p) (p ++ s) ≡ s
drop-append [] s = refl
drop-append (x ∷ p) s = drop-append p s

slice_from-append : (p s : Str) → slice_from (length p) (p ++ s) ≡ some s
slice_from-append p s = ground (arith, length-append p s, drop-append p s)

-- The keys of one service of the graph and of its callers.
abbrev pub clients_prefix : Str → Str
clients_prefix svc = graph_prefix ++ svc ++ clients_part

-- A child of a node "clients" stands for a caller.
abbrev pub IsCallerOf : Str → Node → Type 0
IsCallerOf svc k = (cli : Str) × (node_key k ≡ clients_prefix svc ++ cli)

-- A node of the graph stands for a service; the children of its node "clients" are its callers.
abbrev pub HasCallers : Str → Option Node → Type 0
HasCallers svc none = Unit
HasCallers svc (some c) = All (IsCallerOf svc) (node_nodes c)

abbrev pub IsServiceNode : Node → Type 0
IsServiceNode n =
    (svc : Str) × (node_key n ≡ graph_prefix ++ svc) × HasCallers svc (client_node (node_nodes n))

append_inj : (p s t : Str) → p ++ s ≡ p ++ t → s ≡ t
append_inj p s t e = sym (drop-append p s) ∙ ap (drop (length p)) e ∙ drop-append p t

pub In-if_empty :
    {A : Type 0} (b : Bool) (a : A) (xs : List A)
    → In a (if b then [] else xs) ↔ ((b ≡ false) × In a xs)
In-if_empty true a xs = ground arith
In-if_empty false a xs = ground arith

pub not-equal : (s t : Str) → s ≢ t → (s =? t) ≡ false
not-equal s t h = ground (arith, =?_iff s t)

ref_of_name : (r : ServiceRef) (svc : Str) (o : Option ℤ) → In r (ref_of svc o) → r.name ≡ svc
ref_of_name r svc none m = absurd m.1
ref_of_name r svc (some id) (inl e) = ap (λ x. x.name) e
ref_of_name r svc (some id) (inr m) = absurd m.1

module _ (ids : GoMap Str ℤ) where
  known_service_name : (r : ServiceRef) (svc : Str) → In r (known_service ids svc) → r.name ≡ svc
  known_service_name r svc m = ref_of_name r svc (get svc ids) m

  known_service-In :
      (svc : Str) (i : ℤ)
      → get svc ids ≡ some i
      → In (record { id = i; name = svc }) (known_service ids svc)
  known_service-In svc i g = rw (ap (ref_of svc) g) (inl refl)

  -- What the rounds append, on keys of that form.
  abbrev pub incoming : Str → Str → List ServiceRef
  incoming name cli = if is_skipped cli || cli =? name then [] else known_service ids cli

  abbrev pub outgoing : Str → Str → Str → List ServiceRef
  outgoing name svc cli = if is_skipped cli || not (cli =? name) then [] else known_service ids svc

  pub incoming_iff :
      (name other cli : Str) (i : ℤ)
      → get other ids ≡ some i
      → is_skipped other ≡ false
      → other ≢ name
      → In (record { id = i; name = other }) (incoming name cli) ↔ (cli ≡ other)
  incoming_iff name other cli i g s d =
      let test =
        In-if_empty (is_skipped cli || cli =? name) (record { id = i; name = other })
          (known_service ids cli) in
      (
        λ m. sym (known_service_name (record { id = i; name = other }) cli (test.0 m).1),
        λ e. test.1 (rw (e, s) (not-equal other name d), rw e (known_service-In other i g)),
      )

  pub outgoing_iff :
      (name other cli svc : Str) (j : ℤ)
      → get name ids ≡ some j
      → is_skipped other ≡ false
      → In (record { id = j; name = name }) (outgoing other svc cli)
        ↔ ((cli ≡ other) × (svc ≡ name))
  outgoing_iff name other cli svc j g s =
      let test =
        In-if_empty (is_skipped cli || not (cli =? other)) (record { id = j; name = name })
          (known_service ids svc) in
      (
        λ m. (
          ground (arith, (test.0 m).0, =?_iff cli other),
          sym (known_service_name (record { id = j; name = name }) svc (test.0 m).1),
        ),
        λ (e, q). test.1 (rw (e, s, =?_refl other) refl, rw q (known_service-In name j g)),
      )

  -- The callers that a child of a node "clients" of the service stands for.
  abbrev pub caller : Str → Node → Str
  caller svc k = drop (length (clients_prefix svc)) (node_key k)

  slice_key :
      (p cli : Str) (k : Node)
      → node_key k ≡ p ++ cli
      → slice_from (length p) (node_key k) ≡ some (drop (length p) (node_key k))
  slice_key p cli k e = rw e (slice_from-append p cli ∙ ap some (sym (drop-append p cli)))

  incoming_of-lem :
      (name : Str) (k : Node)
      → IsCallerOf name k
      → incoming_of ids name k ≡ some (incoming name (caller name k))
  incoming_of-lem name k (cli, e) =
      ap (incoming_named ids name) (slice_key (clients_prefix name) cli k e)

  outgoing_of-lem :
      (name svc : Str) (k : Node)
      → IsCallerOf svc k
      → outgoing_of ids name svc k ≡ some (outgoing name svc (caller svc k))
  outgoing_of-lem name svc k (cli, e) =
      ap (outgoing_named ids name svc) (slice_key (clients_prefix svc) cli k e)

  abbrev pub over_clients : (Node → List ServiceRef) → Option Node → List ServiceRef
  over_clients g none = []
  over_clients g (some c) = flat g (node_nodes c)

  abbrev pub incomings : Str → Node → List ServiceRef
  incomings name n =
      if node_key n =? (graph_prefix ++ name)
      then over_clients (λ k. incoming name (caller name k)) (client_node (node_nodes n))
      else []

  abbrev pub service_of : Node → Str
  service_of n = drop (length graph_prefix) (node_key n)

  abbrev pub outgoings : Str → Node → List ServiceRef
  outgoings name n =
      if service_of n =? name
      then []
      else over_clients (λ k. outgoing name (service_of n) (caller (service_of n) k))
          (client_node (node_nodes n))

  pub All-map :
      {A : Type 0} {P Q : A → Type 0} (ns : List A) → ((n : A) → P n → Q n) → All P ns → All Q ns
  All-map [] f h = tt
  All-map (n ∷ ns) f h = (f n h.0, All-map ns f h.1)

  incomings_under-lem :
      (name : Str) (o : Option Node)
      → HasCallers name o
      → incomings_under ids name o ≡ some (over_clients (λ k. incoming name (caller name k)) o)
  incomings_under-lem name none h = refl
  incomings_under-lem name (some c) h =
      collect-flat _ _ (node_nodes c) (All-map (node_nodes c) (incoming_of-lem name) h)

  outgoings_under-lem :
      (name svc : Str) (o : Option Node)
      → HasCallers svc o
      → outgoings_under ids name svc o
        ≡ some (over_clients (λ k. outgoing name svc (caller svc k)) o)
  outgoings_under-lem name svc none h = refl
  outgoings_under-lem name svc (some c) h =
      collect-flat _ _ (node_nodes c) (All-map (node_nodes c) (outgoing_of-lem name svc) h)

  pub incomings_at-lem :
      (name : Str) (n : Node) → IsServiceNode n → incomings_at ids name n ≡ some (incomings name n)
  unfolding incomings_at
  incomings_at-lem name n (svc, e, h) = elim (Bool-cases (node_key n =? (graph_prefix ++ name))) [
    | inl t ↦
        let same : svc ≡ name = append_inj graph_prefix svc name (sym e ∙ (=?_iff _ _).0 t) in
        rw t (incomings_under-lem name (client_node (node_nodes n)) (rw (← same) h))
    | inr f ↦ rw f refl
  ]

  pub service_of-lem :
      (n : Node) (svc : Str) → node_key n ≡ graph_prefix ++ svc → service_of n ≡ svc
  service_of-lem n svc e = rw e (drop-append graph_prefix svc)

  pub outgoings_at-lem :
      (name : Str) (n : Node) → IsServiceNode n → outgoings_at ids name n ≡ some (outgoings name n)
  unfolding outgoings_at
  outgoings_at-lem name n (svc, e, h) =
      ap (outgoings_named ids name n) (slice_key graph_prefix svc n e)
      ∙ elim (Bool-cases (service_of n =? name)) [
        | inl t ↦ rw t refl
        | inr f ↦ rw f (
            outgoings_under-lem name (service_of n) (client_node (node_nodes n))
              (rw (service_of-lem n svc e) h))
      ]
