-- ===== src/Hub/Register/Laws.antt =====
-- hub/hub.go: an endpoint that was inserted is resolved, with its weight.
use skylb.Prelude.{
  [], ◌≡◌, ◌≢◌, refl, ap, sym, ◌∙◌, true, Option, none, some, Str, ℤ, pos, negsuc, int_beq,
  int_beq_iff, IsInt32, to_int32-id, arith, Bool-cases, Option-cases, =?_refl, str_eq, ◌⊎◌, inl,
  inr, In, All,
}
use skylb.Go.Strings.{Without}
use skylb.Go.Strconv.{atoi-itoa, IsInt64}
use skylb.Go.Path.{slash, dir}
use skylb.Go.Path.Segments.{IsSegment}
use skylb.Go.Maps.{get}
use skylb.Api.{
  Operation, Endpoints, no_endpoints, InstanceEndpoint, ServiceSpec, Node, node, nil, cons,
  node_key, node_nodes, Response, ok, EtcdError, key_not_found, event_index_cleared,
  watcher_cleared, other,
}
use skylb.Deps.{Deps, HasPaths, JsonLaws, EtcdLaws, set_opts}
use skylb.Hub.Key.{
  calculate_weight_key, calculate_key, calculate_endpoint_key, endpoint_address, endpoint_subset,
  endpoint_object, set_key, refresh_key,
}
use skylb.Hub.Key.Laws.{dir-calculate_endpoint_key}
use skylb.Hub.Endpoints.{label_weight, parsed_weight, skypb_endpoints_to_slice}
use skylb.Hub.Endpoints.Ports.{label_weight_iff}
use skylb.Hub.Endpoints.Convert.{IsServed, In-skypb_endpoints_to_slice}
use skylb.Hub.Register.{
  merge_nodes, read_node, read_response, insert_endpoint, upsert_endpoint, fetch_endpoints, or_set,
}
use skylb.Hub.Register.Merge.{
  Decodes, HasObject, Agrees, merge_nodes_total, subsets_of_node, label_of_node,
}

-- The label of an endpoint's own object holds its weight.
parsed_weight-endpoint_object :
    (spec : ServiceSpec) (host : Str) (port weight : ℤ)
    → IsInt32 weight
    → parsed_weight
        (get (calculate_weight_key host port) (endpoint_object spec host port weight).labels)
      ≡ weight
unfolding endpoint_object get
parsed_weight-endpoint_object spec host port weight h = elim (Bool-cases (int_beq weight (pos 0))) [
  | inl zero ↦ rw zero (sym ((int_beq_iff weight (pos 0)).0 zero))
  | inr more ↦
      rw (more, =?_refl (calculate_weight_key host port), atoi-itoa weight (wide weight h))
        (to_int32-id weight h)
]
  where
    wide : (z : ℤ) → IsInt32 z → IsInt64 z
    wide (pos n) l = omega arith
    wide (negsuc n) l = omega arith

read_node-merged :
    (unmarshal : Str → Option Endpoints) (nd n : Node) (eps : Endpoints)
    → In n (node_nodes nd)
    → merge_nodes unmarshal true (node_nodes nd) no_endpoints ≡ some eps
    → read_node unmarshal nd ≡ ok eps
unfolding read_node
read_node-merged unmarshal (node k b v t nil) n eps i e = absurd i.1
read_node-merged unmarshal (node k b v t (cons m ms)) n eps i e = rw e

read_response-node :
    (unmarshal : Str → Option Endpoints) (resp : Response) (nd : Node)
    → resp.node ≡ some nd
    → read_response unmarshal (ok resp) ≡ read_node unmarshal nd
unfolding read_response
read_response-node unmarshal resp nd e = rw e

or_set-eq-none {ℓ} :
    {W : Type ℓ} (set : W → Option EtcdError × W) (e : Option EtcdError) (w : W)
    → (or_set set e w).0 ≡ none
    → ((e ≡ none) × (or_set set e w ≡ (none, w))) ⊎ (or_set set e w ≡ set w)
unfolding or_set
or_set-eq-none set none w h = inl (refl, refl)
or_set-eq-none set (some key_not_found) w h = inr refl
or_set-eq-none set (some event_index_cleared) w h = cc
or_set-eq-none set (some watcher_cleared) w h = cc
or_set-eq-none set (some other) w h = cc

-- What an inserted endpoint looks like to a client.
abbrev pub registered : Operation → Str → ℤ → ℤ → InstanceEndpoint
registered unset host port weight = record { op = unset; host = host; port = port; weight = weight }

In-endpoint_object :
    (spec : ServiceSpec) (host : Str) (port weight : ℤ)
    → In (endpoint_subset spec host port) (endpoint_object spec host port weight).subsets
unfolding endpoint_object
In-endpoint_object spec host port weight = inl refl

registered-IsServed :
    (unset : Operation) (spec : ServiceSpec) (host : Str) (port weight : ℤ) (eps : Endpoints)
    → port ≢ pos 0
    → label_weight eps.labels host port ≡ weight
    → In (endpoint_subset spec host port) eps.subsets
    → IsServed unset spec eps (registered unset host port weight)
registered-IsServed unset spec host port weight eps p w i = (
  endpoint_subset spec host port,
  endpoint_address spec host,
  i,
  inl refl,
  ([], _, [], refl, λ q z. absurd z.1, refl, refl),
  p,
  refl,
  refl,
  (label_weight_iff eps.labels host port weight).0 (sym w),
)

-- A node that lists the object of the endpoint makes the endpoint part of what is read.
read_node-registered :
    (unset : Operation) (unmarshal : Str → Option Endpoints) (spec : ServiceSpec) (host : Str)
    (port weight : ℤ) (nd n : Node)
    → port ≢ pos 0
    → IsInt32 weight
    → In n (node_nodes nd)
    → HasObject unmarshal n (endpoint_object spec host port weight)
    → All (Decodes unmarshal) (node_nodes nd)
    → All
        (Agrees unmarshal
          (calculate_weight_key host port)
          (get (calculate_weight_key host port) (endpoint_object spec host port weight).labels))
        (node_nodes nd)
    → (eps : Endpoints) × (read_node unmarshal nd ≡ ok eps)
      × In
          (registered unset host port weight)
          (skypb_endpoints_to_slice unset spec eps).inst_endpoints
read_node-registered unset unmarshal spec host port weight nd n p w i ho h g =
    let (eps, q) = merge_nodes_total unmarshal true (node_nodes nd) no_endpoints h in
    let k = calculate_weight_key host port in
    let o = endpoint_object spec host port weight in
    (
      eps,
      read_node-merged unmarshal nd n eps i q,
      (In-skypb_endpoints_to_slice unset spec eps (registered unset host port weight)).1 (
          registered-IsServed unset spec host port weight eps p
            (unfold label_weight in
              ap parsed_weight (
                label_of_node unmarshal k (get k o.labels) true (node_nodes nd) no_endpoints eps n o
                  h g (inl (unfold get in refl)) q i ho refl)
              ∙ parsed_weight-endpoint_object spec host port weight w)
            (subsets_of_node unmarshal true (node_nodes nd) no_endpoints eps n o
              (endpoint_subset spec host port) h q i ho
              (In-endpoint_object spec host port weight))),
    )

module _ (d : Deps) (paths : HasPaths d) (json : JsonLaws d) (etcd : EtcdLaws d) where
  open d use {World, etcd_get, etcd_set, marshal, unmarshal, unset_op}

  -- A write of the object that succeeds was a write of its encoding.
  set_key-eq-none :
      (key : Str) (spec : ServiceSpec) (host : Str) (port weight : ℤ) (w : World)
      → (set_key d key spec host port weight w).0 ≡ none
      → (text : Str) × (marshal (endpoint_object spec host port weight) ≡ some text)
        × ((etcd_set key text set_opts w).0 ≡ none)
        × (set_key d key spec host port weight w ≡ etcd_set key text set_opts w)
  unfolding set_key
  set_key-eq-none key spec host port weight w e =
      elim (Option-cases (marshal (endpoint_object spec host port weight))) [
        | inl q ↦ ground arith
        | inr (text, q) ↦ (text, q, rw (q, set_key) at e, rw (q, set_key))
      ]

  -- After InsertEndpoint of a spec, a host, a port other than 0 and an int32 weight has succeeded,
  -- and when etcd answers the next listing of the service and its other nodes decode and do not name
  -- another weight for this endpoint, fetchEndpoints returns, and the endpoints sent to a client hold
  -- that host with that port and that weight.
  pub fetch_endpoints-insert_endpoint :
      (spec : ServiceSpec) (host : Str) (port weight : ℤ) (w : World) (resp : Response)
      → IsSegment spec.namespace
      → IsSegment spec.service_name
      → Without slash host
      → port ≢ pos 0
      → IsInt32 weight
      → (insert_endpoint d spec host port weight w).0 ≡ none
      → (etcd_get
          (calculate_key d spec.namespace spec.service_name)
          (insert_endpoint d spec host port weight w).1).0
        ≡ ok resp
      → ((nd : Node) → resp.node ≡ some nd → All (Decodes unmarshal) (node_nodes nd))
      → ((nd : Node)
          → resp.node ≡ some nd
          → All
              (Agrees unmarshal (calculate_weight_key host port) (
                get
                  (calculate_weight_key host port)
                  (endpoint_object spec host port weight).labels))
              (node_nodes nd))
      → (eps : Endpoints) × ((fetch_endpoints d spec.namespace spec.service_name
            (insert_endpoint d spec host port weight w).1).0
          ≡ ok eps)
        × In
            (registered unset_op host port weight)
            (skypb_endpoints_to_slice unset_op spec eps).inst_endpoints
  unfolding insert_endpoint fetch_endpoints
  fetch_endpoints-insert_endpoint spec host port weight w resp hn hs hh p iw done answer dec agree =
      let key = calculate_endpoint_key d spec.namespace spec.service_name host port in
      let (text, q, ok_set, same) = set_key-eq-none key spec host port weight w done in
      let answer' : (etcd_get (dir key) (etcd_set key text set_opts w).1).0 ≡ ok resp =
        ap (λ k. (etcd_get k (etcd_set key text set_opts w).1).0)
          (dir-calculate_endpoint_key d paths spec.namespace spec.service_name host port hn hs hh)
        ∙ ap
            (λ (r : Option EtcdError × World).
              (etcd_get (calculate_key d spec.namespace spec.service_name) r.1).0)
            (sym same)
        ∙ answer in
      let (nd, n, en, i, ek, ev) = etcd.get_after_set key text w resp ok_set answer' in
      let (full, back) = json.unmarshal_marshal (endpoint_object spec host port weight) text q in
      let ho : HasObject unmarshal n (endpoint_object spec host port weight) =
        ((λ z. full (sym ev ∙ z)), ap unmarshal ev ∙ back) in
      let (eps, r, m) =
        read_node-registered unset_op unmarshal spec host port weight nd n p iw i ho (dec nd en)
          (agree nd en) in
      (eps, ap (read_response unmarshal) answer ∙ read_response-node unmarshal resp nd en ∙ r, m)

  -- After UpsertEndpoint has succeeded, by a refresh or, where the key was gone, by a new write, an
  -- answered listing of the service shows the key of the endpoint.
  pub listed-upsert_endpoint :
      (spec : ServiceSpec) (host : Str) (port weight : ℤ) (w : World) (resp : Response)
      → IsSegment spec.namespace
      → IsSegment spec.service_name
      → Without slash host
      → (upsert_endpoint d spec host port weight w).0 ≡ none
      → (etcd_get
          (calculate_key d spec.namespace spec.service_name)
          (upsert_endpoint d spec host port weight w).1).0
        ≡ ok resp
      → (nd : Node) × (n : Node) × (resp.node ≡ some nd)
        × In n (node_nodes nd)
        × (node_key n ≡ calculate_endpoint_key d spec.namespace spec.service_name host port)
  listed-upsert_endpoint spec host port weight w resp hn hs hh done answer =
      let key = calculate_endpoint_key d spec.namespace spec.service_name host port in
      let place =
        dir-calculate_endpoint_key d paths spec.namespace spec.service_name host port hn hs hh in
      let refreshed = refresh_key d key w in
      elim (or_set-eq-none (set_key d key spec host port weight) refreshed.0 refreshed.1
        (unfold upsert_endpoint in done)) [
          | inl (e, same) ↦ etcd.get_after_refresh key w resp (unfold refresh_key in e) (
              unfold upsert_endpoint refresh_key in
              ap (λ k. (etcd_get k (refresh_key d key w).1).0) place
              ∙ ap
                  (λ (r : Option EtcdError × World).
                    (etcd_get (calculate_key d spec.namespace spec.service_name) r.1).0)
                  (sym same)
              ∙ answer)
          | inr same ↦
              let w' = refreshed.1 in
              let (text, q, ok_set, wrote) = set_key-eq-none key spec host port weight w' (
                ap (λ (r : Option EtcdError × World). r.0) (sym same)
                ∙ unfold upsert_endpoint in done) in
              let (nd, n, en, i, ek, ev) = etcd.get_after_set key text w' resp ok_set (
                unfold upsert_endpoint in
                ap (λ k. (etcd_get k (etcd_set key text set_opts w').1).0) place
                ∙ ap
                    (λ (r : Option EtcdError × World).
                      (etcd_get (calculate_key d spec.namespace spec.service_name) r.1).0)
                    (sym (same ∙ wrote))
                ∙ answer) in
              (nd, n, en, i, ek)
        ]
