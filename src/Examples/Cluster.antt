-- ===== src/Examples/Cluster.antt =====
-- A cluster in memory for the examples: a store whose directories are those of path.Dir. The key
-- prefixes, the clock and the action names are those of the examples only.
use skylb.Prelude.{
  ◌≡◌, refl, ap, sym, ◌∙◌, Bool, true, false, not, ◌&&◌, ◌==◌, ==_iff, List, [], ◌∷◌, ◌++◌, Option,
  none, some, Str, pos, arith, ◌=?◌, =?_iff, =?_refl, str_eq, if◌then◌else◌, Bool-cases, inl, inr,
  In,
}
use skylb.Go.Strings.{lit, Without}
use skylb.Go.Path.{dir, slash}
use skylb.Go.Path.Segments.{IsSegment}
use skylb.Go.Maps.{GoMap, get, put, get-put, In-of_get}
use skylb.Api.{
  ServiceSpec, Operation, EtcdError, key_not_found, other, Node, node, nil, node_key, node_value,
  node_nodes, nodes_of, list_of-nodes_of, Response, Fetched, ok, err,
}
use skylb.Deps.{Deps, SetOptions, HasPaths, JsonLaws, EtcdLaws}
use skylb.Examples.Codec.{marshal, unmarshal, marshal-back, unmarshal_labels}

abbrev pub Store : Type 0
Store = GoMap Str Str

abbrev pub leaf : Str → Str → Node
leaf k v = node k false v (pos 0) nil

abbrev pub listing : Str → Store → List Node
listing place [] = []
listing place ((k, v) ∷ w) =
    let rest = listing place w in if dir k =? place then leaf k v ∷ rest else rest

abbrev pub answer : Str → Store → Response
answer place w = record {
  action = lit "get";
  node = some (node place true [] (pos 0) (nodes_of (listing place w)));
  prev_node = none;
}

abbrev refresh : Option Str → Store → Option EtcdError × Store
refresh none w = (some key_not_found, w)
refresh (some v) w = (none, w)

abbrev write : Str → Str → SetOptions → Store → Option EtcdError × Store
write key value opts w = if opts.refresh then refresh (get key w) w else (none, put key value w)

-- The text of a spec, and a lame duck at one address.
abbrev text_of_spec : ServiceSpec → Str
text_of_spec spec = spec.namespace ++ lit "." ++ spec.service_name ++ lit ":" ++ spec.port_name

abbrev pub lame_duck : Str
lame_duck = lit "10.0.0.9:8080"

abbrev pub cluster : Deps
cluster = record {
  World = Store;
  etcd_get = λ place w. (ok (answer place w), w);
  etcd_set = write;
  unix_now = λ w. pos 1700000000;
  within_k8s = false;
  k8s_list = λ namespace w. (err other, w);
  marshal = marshal;
  unmarshal = unmarshal;
  action_create = lit "create";
  action_set = lit "set";
  action_delete = lit "delete";
  action_expire = lit "expire";
  endpoints_key = lit "/registry/services/endpoints";
  graph_key = lit "/registry/graph";
  lameduck_host_port = λ host port. host ++ lit ":" ++ port;
  is_lameduck_mode = λ host_port w. host_port =? lame_duck;
  unset_op = Operation.add;
  spec_string = text_of_spec;
}

listing-In :
    (place k v : Str) (w : Store) → In (k, v) w → dir k ≡ place → In (leaf k v) (listing place w)
listing-In place k v [] i e = absurd i.1
listing-In place k v ((j, u) ∷ w) (inl q) e =
    let here : dir j ≡ place = ap (λ (t : Str × Str). dir t.0) (sym q) ∙ e in
    rw ((=?_iff (dir j) place).1 here) (inl (ap (λ (t : Str × Str). leaf t.0 t.1) q))
listing-In place k v ((j, u) ∷ w) (inr i) e = elim (Bool-cases (dir j =? place)) [
  | inl t ↦ rw t (inr (listing-In place k v w i e))
  | inr f ↦ rw f (listing-In place k v w i e)
]

-- A key with a value is shown by the listing of its directory.
shown :
    (key value : Str) (w : Store) (resp : Response)
    → get key w ≡ some value
    → Fetched.ok (answer (dir key) w) ≡ ok resp
    → (nd : Node) × (n : Node) × (resp.node ≡ some nd)
      × In n (node_nodes nd)
      × (node_key n ≡ key)
      × (node_value n ≡ value)
shown key value w resp e q =
    let same : answer (dir key) w ≡ resp =
      ap (λ (r : Fetched Response). elim r [ ok a ↦ a | err x ↦ resp ]) q in
    (
      node (dir key) true [] (pos 0) (nodes_of (listing (dir key) w)),
      leaf key value,
      ap (λ (r : Response). r.node) (sym same),
      rw (list_of-nodes_of (listing (dir key) w))
          (listing-In (dir key) key value w (In-of_get key value w e) refl),
      refl,
      refl,
    )

refresh-kept :
    (o : Option Str) (w : Store)
    → (refresh o w).0 ≡ none
    → (v : Str) × (o ≡ some v) × ((refresh o w).1 ≡ w)
refresh-kept none w e = cc
refresh-kept (some v) w e = (v, refl, refl)

shown_after_refresh :
    (key : Str) (w : Store) (resp : Response)
    → (refresh (get key w) w).0 ≡ none
    → Fetched.ok (answer (dir key) (refresh (get key w) w).1) ≡ ok resp
    → (nd : Node) × (n : Node) × (resp.node ≡ some nd) × In n (node_nodes nd) × (node_key n ≡ key)
shown_after_refresh key w resp e q =
    let (v, there, same) = refresh-kept (get key w) w e in
    let (nd, n, en, i, ek, ev) =
      shown key v w resp there (ap (λ t. Fetched.ok (answer (dir key) t)) (sym same) ∙ q) in
    (nd, n, en, i, ek)

pub cluster-EtcdLaws : EtcdLaws cluster
cluster-EtcdLaws = record {
  get_after_set = λ key value w resp e q.
      shown key value (put key value w) resp (get-put key key value w ∙ rw (=?_refl key)) q;
  get_after_refresh = shown_after_refresh;
}

pub cluster-JsonLaws : JsonLaws cluster
cluster-JsonLaws = record { unmarshal_marshal = marshal-back; unmarshal_labels = unmarshal_labels }

-- A test of a segment, for the concrete ones.
abbrev pub is_plain : Str → Bool
is_plain [] = true
is_plain (x ∷ xs) = not (x == slash) && is_plain xs

abbrev pub is_segment : Str → Bool
is_segment s = is_plain s && not (s =? []) && not (s =? lit ".") && not (s =? lit "..")

pub is_plain-Without : (s : Str) → is_plain s ≡ true → Without slash s
is_plain-Without [] e = tt
is_plain-Without (x ∷ xs) e = ground (arith, ==_iff x slash, is_plain-Without xs)

pub is_segment-IsSegment : (s : Str) → is_segment s ≡ true → IsSegment s
is_segment-IsSegment s e = record {
  whole = ground (arith, is_plain-Without s);
  not_empty = λ q. ground (arith, =?_iff s []);
  not_dot = λ q. ground (arith, =?_iff s (lit "."));
  not_dots = λ q. ground (arith, =?_iff s (lit ".."));
}

pub cluster-HasPaths : HasPaths cluster
cluster-HasPaths = record {
  endpoints_first = lit "registry";
  endpoints_rest = lit "services" ∷ lit "endpoints" ∷ [];
  endpoints_segments = (
    is_segment-IsSegment (lit "registry") refl,
    (is_segment-IsSegment (lit "services") refl, (is_segment-IsSegment (lit "endpoints") refl, tt)),
  );
  endpoints_path = refl;
  graph_first = lit "registry";
  graph_rest = lit "graph" ∷ [];
  graph_segments =
      (is_segment-IsSegment (lit "registry") refl, (is_segment-IsSegment (lit "graph") refl, tt));
  graph_path = refl;
}
