-- ===== src/Examples/Registry.antt =====
-- The keys and the registration of endpoints in the cluster of the examples.
use mathlib.Core.Path.{subst}
use mathlib.Core.Option.{some-injective}
use skylb.Prelude.{
  ◌≡◌, refl, sym, ◌∙◌, [], ◌∷◌, none, some, Str, pos, arith, inr, In, All, str_eq, =?_iff, =?_refl,
  ◌⊎◌,
}
use skylb.Go.Strings.{lit, Without}
use skylb.Go.Strconv.{itoa}
use skylb.Go.Path.{dir, slash}
use skylb.Go.Path.Segments.{IsSegment}
use skylb.Go.Maps.{get, put, get-put, HasKeysOnce}
use skylb.Api.{
  ServiceSpec, Operation, Endpoints, Node, node_nodes, list_of-nodes_of, node_key, Response, ok,
}
use skylb.Hub.Key.{
  calculate_key, calculate_endpoint_key, endpoint_object, refresh_key, set_key,
  calculate_weight_key,
}
use skylb.Hub.Key.Laws.{dir-calculate_endpoint_key, calculate_endpoint_key_inj}
use skylb.Hub.Endpoints.{skypb_endpoints_to_slice}
use skylb.Hub.Register.{insert_endpoint, upsert_endpoint, fetch_endpoints, or_set}
use skylb.Hub.Register.Merge.{Decodes, Agrees}
use skylb.Hub.Register.Laws.{registered, fetch_endpoints-insert_endpoint, listed-upsert_endpoint}
use skylb.Examples.Cluster.{
  cluster, cluster-HasPaths, cluster-JsonLaws, cluster-EtcdLaws, is_segment-IsSegment,
  is_plain-Without, answer, Store, leaf, listing,
}

abbrev pub shop : ServiceSpec
shop = record { namespace = lit "default"; service_name = lit "shop"; port_name = lit "grpc" }

abbrev host : Str
host = lit "10.0.0.1"

default-IsSegment : IsSegment (lit "default")
default-IsSegment = is_segment-IsSegment (lit "default") refl

shop-IsSegment : IsSegment (lit "shop")
shop-IsSegment = is_segment-IsSegment (lit "shop") refl

cart-IsSegment : IsSegment (lit "cart")
cart-IsSegment = is_segment-IsSegment (lit "cart") refl

host-Without : Without slash host
host-Without = is_plain-Without host refl

dir-calculate_endpoint_key_example :
    dir (calculate_endpoint_key cluster (lit "default") (lit "shop") (lit "10.0.0.1") (pos 8080))
    ≡ calculate_key cluster (lit "default") (lit "shop")
dir-calculate_endpoint_key_example =
    dir-calculate_endpoint_key cluster cluster-HasPaths (lit "default") (lit "shop")
      (lit "10.0.0.1") (pos 8080) default-IsSegment shop-IsSegment host-Without

-- The store after an endpoint was inserted, and what etcd answers for its service.
abbrev stored : Store
stored = (insert_endpoint cluster shop host (pos 8080) (pos 5) []).1

abbrev listed : Response
listed = answer (calculate_key cluster (lit "default") (lit "shop")) stored

insert_endpoint-shop : (insert_endpoint cluster shop host (pos 8080) (pos 5) []).0 ≡ none
unfolding insert_endpoint set_key endpoint_object calculate_weight_key itoa
insert_endpoint-shop = refl

abbrev stored_text : Str
stored_text = elim (cluster.marshal (endpoint_object shop host (pos 8080) (pos 5))) [
  | none ↦ []
  | some t ↦ t
]

listed_nodes :
    listing (calculate_key cluster (lit "default") (lit "shop")) stored
    ≡ leaf (calculate_endpoint_key cluster (lit "default") (lit "shop") host (pos 8080)) stored_text
      ∷ []
unfolding insert_endpoint set_key endpoint_object calculate_weight_key itoa put
listed_nodes = rw (
    (=?_iff (dir (calculate_endpoint_key cluster (lit "default") (lit "shop") host (pos 8080)))
        (calculate_key cluster (lit "default") (lit "shop"))).1
      (dir-calculate_endpoint_key cluster cluster-HasPaths (lit "default") (lit "shop") host
        (pos 8080) default-IsSegment shop-IsSegment host-Without))

-- What holds of the one node that is listed holds of all that the answer lists.
of_listed :
    (P : Node → Type 0)
    → P (
        leaf
          (calculate_endpoint_key cluster (lit "default") (lit "shop") host (pos 8080))
          stored_text)
    → (nd : Node) → listed.node ≡ some nd
    → All P (node_nodes nd)
of_listed P p nd e =
    subst (λ n. All P (node_nodes n)) (some-injective _ nd e)
      (rw (list_of-nodes_of (listing (calculate_key cluster (lit "default") (lit "shop")) stored))
        (subst (All P) (sym listed_nodes) (p, tt)))

text_decodes : cluster.unmarshal stored_text ≡ some (endpoint_object shop host (pos 8080) (pos 5))
unfolding endpoint_object calculate_weight_key itoa
text_decodes = refl

stored-Agrees :
    Agrees cluster.unmarshal
      (calculate_weight_key host (pos 8080))
      (get
        (calculate_weight_key host (pos 8080))
        (endpoint_object shop host (pos 8080) (pos 5)).labels)
      (leaf
        (calculate_endpoint_key cluster (lit "default") (lit "shop") host (pos 8080))
        stored_text)
unfolding get
stored-Agrees o h =
    subst
      (λ (x : Endpoints).
        HasKeysOnce x.labels
        × ((get (calculate_weight_key host (pos 8080)) x.labels ≡ none)
            ⊎ (get (calculate_weight_key host (pos 8080)) x.labels
                ≡ get (calculate_weight_key host (pos 8080))
                    (endpoint_object shop host (pos 8080) (pos 5)).labels)))
      (some-injective _ o (sym text_decodes ∙ h.1)) (unfold endpoint_object in (refl, tt), inr refl)

fetch_endpoints-insert_endpoint_example :
    (eps : Endpoints) × ((fetch_endpoints cluster (lit "default") (lit "shop") stored).0 ≡ ok eps)
    × In
        (registered Operation.add (lit "10.0.0.1") (pos 8080) (pos 5))
        (skypb_endpoints_to_slice Operation.add shop eps).inst_endpoints
fetch_endpoints-insert_endpoint_example =
    fetch_endpoints-insert_endpoint cluster cluster-HasPaths cluster-JsonLaws cluster-EtcdLaws shop
      host (pos 8080) (pos 5) [] listed default-IsSegment shop-IsSegment host-Without
      (λ e. ground (arith, e)) (omega arith) insert_endpoint-shop refl
      (of_listed (Decodes cluster.unmarshal)
        (inr (endpoint_object shop host (pos 8080) (pos 5), text_decodes)))
      (of_listed
        (Agrees cluster.unmarshal (calculate_weight_key host (pos 8080)) (
          get (calculate_weight_key host (pos 8080))
            (endpoint_object shop host (pos 8080) (pos 5)).labels))
        stored-Agrees)

-- The endpoint's key is still there, so UpsertEndpoint refreshes it.
upserted : (upsert_endpoint cluster shop host (pos 8080) (pos 5) stored).0 ≡ none
unfolding upsert_endpoint refresh_key or_set insert_endpoint set_key endpoint_object
    calculate_weight_key itoa
upserted =
    let key = calculate_endpoint_key cluster (lit "default") (lit "shop") host (pos 8080) in
    let there : get key (put key stored_text []) ≡ some stored_text =
      get-put key key stored_text [] ∙ rw (=?_refl key) in
    rw there

listed-upsert_endpoint_example :
    (nd : Node) × (n : Node) × ((answer
        (calculate_key cluster (lit "default") (lit "shop"))
        (upsert_endpoint cluster shop host (pos 8080) (pos 5) stored).1).node
      ≡ some nd)
    × In n (node_nodes nd)
    × (node_key n ≡ calculate_endpoint_key cluster (lit "default") (lit "shop") host (pos 8080))
listed-upsert_endpoint_example =
    listed-upsert_endpoint cluster cluster-HasPaths cluster-JsonLaws cluster-EtcdLaws shop host
      (pos 8080) (pos 5) stored
      (answer (calculate_key cluster (lit "default") (lit "shop"))
        (upsert_endpoint cluster shop host (pos 8080) (pos 5) stored).1)
      default-IsSegment shop-IsSegment host-Without upserted refl

calculate_endpoint_key_inj_example :
    (lit "default" ≡ lit "default")
    × (lit "shop" ≡ lit "shop")
    × (host ≡ host)
    × (pos 8080 ≡ pos 8080)
calculate_endpoint_key_inj_example =
    calculate_endpoint_key_inj cluster cluster-HasPaths (lit "default") (lit "default") (lit "shop")
      (lit "shop") host host (pos 8080) (pos 8080)
      (default-IsSegment, (shop-IsSegment, (default-IsSegment, (shop-IsSegment, tt)))) host-Without
      host-Without refl
