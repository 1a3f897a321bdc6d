-- ===== src/Hub/Graph/Paths.antt =====
-- hub/svcgraph.go against hub/hub.go: the paths that the tracker writes, as the graph reads them.
use mathlib.Core.List.{append_assoc}
use skylb.Prelude.{
  ◌≡◌, refl, ap, sym, ◌∙◌, ◌-◌, ◌+◌, false, List, [], ◌∷◌, ◌++◌, some, Str, pos, inl, inr,
  Bool-cases, arith, All, All-append, suc, length, length-append, get_elem?, ltb,
}
use skylb.Go.Strings.{lit, split, has_suffix}
use skylb.Go.Path.{slash}
use skylb.Go.Path.Segments.{IsSegment, join_path-render, split-render}
use skylb.Api.{ServiceSpec, Node, node_key, node_nodes}
use skylb.Deps.{Deps, HasPaths}
use skylb.Hub.Tracking.{graph_key_of}
use skylb.Hub.Graph.{
  parse_call_pair, Graph, read_client, read_clients, read_service, read_services, read_namespaces,
  build_dependencies, finish_recording, simplify, find_roots, roots_of,
}

length-pieces : (xs : List Str) (a b c : Str) → length (xs ++ a ∷ b ∷ c ∷ []) ≡ length xs + 3
length-pieces xs a b c = length-append xs (a ∷ b ∷ c ∷ [])

-- What stands before three last pieces leaves parse_call_pair alone.
pieces :
    (xs : List Str) (a b c : Str)
    → (get_elem? (xs ++ a ∷ b ∷ c ∷ []) (length xs) ≡ some a)
      × (get_elem? (xs ++ a ∷ b ∷ c ∷ []) (suc (suc (length xs))) ≡ some c)
pieces [] a b c = (refl, refl)
pieces (x ∷ xs) a b c = pieces xs a b c

-- The pieces of a tracked path: whatever precedes, then the callee, "clients" and the caller.
parse_call_pair-pieces :
    (path : Str) (x : Str) (xs : List Str) (a b c : Str)
    → split slash path ≡ x ∷ xs ++ a ∷ b ∷ c ∷ []
    → parse_call_pair path ≡ record { callee = a; info = record { caller = c; timestamp = pos 0 } }
unfolding parse_call_pair
parse_call_pair-pieces path x xs a b c e =
    let n = length xs in
    let ln = length (xs ++ a ∷ b ∷ c ∷ []) in
    let q : ln ≡ n + 3 = length-pieces xs a b c in
    let long : ltb (suc ln) 4 ≡ false = ground (arith, q) in
    let callee_at : suc ln - 3 ≡ suc n = omega (arith, q) in
    let caller_at : suc ln - 1 ≡ suc (suc (suc n)) = omega (arith, q) in
    rw (e, long, callee_at, caller_at, (pieces xs a b c).0, (pieces xs a b c).1)

clients-IsSegment : IsSegment (lit "clients")
clients-IsSegment = record {
  whole = ground arith;
  not_empty = λ e. ground arith;
  not_dot = λ e. ground arith;
  not_dots = λ e. ground arith;
}

-- No client under the node of a service has children, as the tracker leaves it: a client is a key
-- with a value.
abbrev pub HasLeafClients : List Node → Type 0
HasLeafClients = All (λ cs. All (λ client. node_nodes client ≡ []) (node_nodes cs))

read_clients-leaves :
    (nodes : List Node) (g : Graph)
    → All (λ client. node_nodes client ≡ []) nodes
    → read_clients nodes g ≡ g
unfolding read_clients read_client
read_clients-leaves [] g h = refl
read_clients-leaves (n ∷ nodes) g h = elim (Bool-cases (has_suffix (node_key n) (lit "addr"))) [
  | inl y ↦ rw (y) (read_clients-leaves nodes g h.1)
  | inr f ↦ rw (f, h.0) (read_clients-leaves nodes g h.1)
]

read_service-leaves :
    (nodes : List Node) (g : Graph) → HasLeafClients nodes → read_service nodes g ≡ g
unfolding read_service
read_service-leaves [] g h = refl
read_service-leaves (n ∷ nodes) g h = elim (Bool-cases (has_suffix (node_key n) (lit "/clients"))) [
  | inl y ↦ rw (y, read_clients-leaves (node_nodes n) g h.0) (read_service-leaves nodes g h.1)
  | inr f ↦ rw f (read_service-leaves nodes g h.1)
]

read_services-leaves :
    (nodes : List Node) (g : Graph)
    → All (λ svc. HasLeafClients (node_nodes svc)) nodes
    → read_services nodes g ≡ g
unfolding read_services
read_services-leaves [] g h = refl
read_services-leaves (n ∷ nodes) g h =
    rw (read_service-leaves (node_nodes n) g h.0) (read_services-leaves nodes g h.1)

read_namespaces-leaves :
    (nodes : List Node) (g : Graph)
    → All (λ ns. All (λ svc. HasLeafClients (node_nodes svc)) (node_nodes ns)) nodes
    → read_namespaces nodes g ≡ g
unfolding read_namespaces
read_namespaces-leaves [] g h = refl
read_namespaces-leaves (n ∷ nodes) g h =
    rw (read_services-leaves (node_nodes n) g h.0) (read_namespaces-leaves nodes g h.1)

-- When no client node has children, the graph that is built has no callers, so no roots either.
pub build_dependencies-leaves :
    (root : Node) (g : Graph)
    → All (λ ns. All (λ svc. HasLeafClients (node_nodes svc)) (node_nodes ns)) (node_nodes root)
    → ((build_dependencies root g).simple_calling_map ≡ [])
      × (find_roots (build_dependencies root g) ≡ [])
unfolding build_dependencies finish_recording simplify find_roots roots_of
build_dependencies-leaves root g h =
    let q =
      read_namespaces-leaves (node_nodes root)
        (record g { calling_map = []; simple_calling_map = [] }) h in
    (rw q, rw q)

module _ (d : Deps) (paths : HasPaths d) where
  open paths use {graph_first, graph_rest, graph_segments, graph_path}

  -- The graph reads back the callee and the caller from the key that the tracker writes, when the
  -- names are proper path segments.
  pub parse_call_pair-graph_key_of :
      (spec : ServiceSpec) (caller : Str)
      → IsSegment spec.namespace
      → IsSegment spec.service_name
      → IsSegment caller
      → parse_call_pair (graph_key_of d spec caller) ≡ record {
        callee = spec.service_name;
        info = record { caller = caller; timestamp = pos 0 };
      }
  unfolding graph_key_of
  parse_call_pair-graph_key_of spec caller n s c =
      let es : List Str = spec.namespace ∷ spec.service_name ∷ lit "clients" ∷ caller ∷ [] in
      let proper : All IsSegment es = (n, (s, (clients-IsSegment, (c, tt)))) in
      parse_call_pair-pieces (graph_key_of d spec caller) []
        (graph_first ∷ graph_rest ++ spec.namespace ∷ []) spec.service_name (lit "clients") caller
        (ap (split slash)
            (rw graph_path (join_path-render graph_first graph_rest es graph_segments proper))
          ∙ split-render graph_first (graph_rest ++ es)
              (All-append IsSegment (graph_first ∷ graph_rest) es graph_segments proper)
          ∙ ap (λ t. [] ∷ graph_first ∷ t)
              (sym (
                append_assoc graph_rest (spec.namespace ∷ [])
                  (spec.service_name ∷ lit "clients" ∷ caller ∷ []))))
