-- ===== src/Hub/Endpoints/Convert.antt =====
-- hub/hub.go: the map and the slice of the endpoints of a service hold the same endpoints, and
-- these are the addresses of the subsets that have the port.
use skylb.Prelude.{
  ◌≡◌, ◌≢◌, refl, ap, sym, ◌∙◌, List, [], ◌∷◌, ◌++◌, Str, ℤ, pos, int_beq, int_beq_iff, str_eq, ◌↔◌,
  arith, Bool-cases, inl, inr, In, In-append_left, In-append_right, In-append_cases,
}
use skylb.Go.Maps.{GoMap, put, HasKeysOnce, HasKeysOnce-put}
use skylb.Api.{Operation, EndpointAddress, EndpointSubset, Endpoints, InstanceEndpoint, ServiceSpec}
use skylb.Hub.Endpoints.{
  ServiceEndpoint, to_string, EndpointsMap, find_port, add_addresses, add_subsets,
  skypb_endpoints_to_map, instance_endpoint, label_weight, slice_addresses, slice_subsets,
  skypb_endpoints_to_slice,
}
use skylb.Hub.Endpoints.Ports.{IsPort, IsWeight, find_port_iff, label_weight_iff}
use skylb.Hub.Endpoints.Diff.{endpoint_of, IsKeyed}

-- The map of a list of endpoints: a later one takes the place of an earlier one with its key.
pub index : List InstanceEndpoint → EndpointsMap → EndpointsMap
index [] m = m
index (ep ∷ eps) m = index eps (put (to_string (endpoint_of ep)) (endpoint_of ep) m)

index-append :
    (xs ys : List InstanceEndpoint) (m : EndpointsMap) → index (xs ++ ys) m ≡ index ys (index xs m)
unfolding index
index-append [] ys m = refl
index-append (x ∷ xs) ys m = index-append xs ys _

module _ (unset : Operation) (labels : GoMap Str Str) where
  index-slice_addresses :
      (port : ℤ) (addrs : List EndpointAddress) (m : EndpointsMap)
      → index (slice_addresses unset labels port addrs) m ≡ add_addresses labels port addrs m
  unfolding index slice_addresses add_addresses
  index-slice_addresses port [] m = refl
  index-slice_addresses port (a ∷ addrs) m = index-slice_addresses port addrs _

  index-slice_subsets :
      (port_name : Str) (subsets : List EndpointSubset) (m : EndpointsMap)
      → index (slice_subsets unset labels port_name subsets) m
        ≡ add_subsets labels port_name subsets m
  unfolding index slice_subsets add_subsets
  index-slice_subsets port_name [] m = refl
  index-slice_subsets port_name (s ∷ subsets) m =
      let port = find_port s.ports port_name in
      elim (Bool-cases (int_beq port (pos 0))) [
        | inl absent ↦ rw absent (index-slice_subsets port_name subsets m)
        | inr there ↦ rw there (
            index-append (slice_addresses unset labels port s.addresses) _ m
            ∙ ap (index (slice_subsets unset labels port_name subsets))
                (index-slice_addresses port s.addresses m)
            ∙ index-slice_subsets port_name subsets _)
      ]

-- The map that AddObserver keeps is the index of the slice that applyEndpoints sends.
pub index-skypb_endpoints_to_slice :
    (unset : Operation) (spec : ServiceSpec) (eps : Endpoints)
    → index (skypb_endpoints_to_slice unset spec eps).inst_endpoints []
      ≡ skypb_endpoints_to_map spec eps
unfolding skypb_endpoints_to_slice skypb_endpoints_to_map
index-skypb_endpoints_to_slice unset spec eps =
    index-slice_subsets unset eps.labels spec.port_name eps.subsets []

-- `ep` is an address of a subset in which the first port of the wanted name is not 0: its host is the
-- address, its port is this port, and its weight is the one of the label.
abbrev pub IsServed : Operation → ServiceSpec → Endpoints → InstanceEndpoint → Type 0
IsServed unset spec eps ep =
    (s : EndpointSubset) × (a : EndpointAddress) × In s eps.subsets
    × In a s.addresses
    × IsPort spec.port_name s.ports ep.port
    × (ep.port ≢ pos 0)
    × (ep.host ≡ a.ip)
    × (ep.op ≡ unset)
    × IsWeight eps.labels a.ip ep.port ep.weight

module _ (unset : Operation) (labels : GoMap Str Str) (ep : InstanceEndpoint) where
  In-slice_addresses :
      (port : ℤ) (a : EndpointAddress) (addrs : List EndpointAddress)
      → In a addrs
      → ep ≡ instance_endpoint unset labels port a
      → In ep (slice_addresses unset labels port addrs)
  unfolding slice_addresses
  In-slice_addresses port a [] m e = absurd m.1
  In-slice_addresses port a (x ∷ addrs) (inl q) e =
      inl (e ∙ ap (instance_endpoint unset labels port) q)
  In-slice_addresses port a (x ∷ addrs) (inr m) e = inr (In-slice_addresses port a addrs m e)

  In-of_slice_addresses :
      (port : ℤ) (addrs : List EndpointAddress)
      → In ep (slice_addresses unset labels port addrs)
      → (a : EndpointAddress) × In a addrs × (ep ≡ instance_endpoint unset labels port a)
  unfolding slice_addresses
  In-of_slice_addresses port [] m = absurd m.1
  In-of_slice_addresses port (x ∷ addrs) (inl q) = (x, inl refl, q)
  In-of_slice_addresses port (x ∷ addrs) (inr m) =
      let (a, m', e) = In-of_slice_addresses port addrs m in (a, inr m', e)

  In-slice_subsets :
      (port_name : Str) (s : EndpointSubset) (a : EndpointAddress) (subsets : List EndpointSubset)
      → In s subsets
      → find_port s.ports port_name ≢ pos 0
      → In a s.addresses
      → ep ≡ instance_endpoint unset labels (find_port s.ports port_name) a
      → In ep (slice_subsets unset labels port_name subsets)
  unfolding slice_subsets
  In-slice_subsets port_name s a [] m n l e = absurd m.1
  In-slice_subsets port_name s a (x ∷ subsets) (inl q) n l e =
      rw (← q) (elim (Bool-cases (int_beq (find_port s.ports port_name) (pos 0))) [
        | inl absent ↦ absurd (n ((int_beq_iff _ _).0 absent))
        | inr there ↦ rw there (
            In-append_left ep _ _
              (In-slice_addresses (find_port s.ports port_name) a s.addresses l e))
      ])
  In-slice_subsets port_name s a (x ∷ subsets) (inr m) n l e =
      let rest = In-slice_subsets port_name s a subsets m n l e in
      elim (Bool-cases (int_beq (find_port x.ports port_name) (pos 0))) [
        | inl absent ↦ rw absent rest
        | inr there ↦ rw there (In-append_right ep _ _ rest)
      ]

  In-of_slice_subsets :
      (port_name : Str) (subsets : List EndpointSubset)
      → In ep (slice_subsets unset labels port_name subsets)
      → (s : EndpointSubset) × (a : EndpointAddress) × In s subsets
        × (find_port s.ports port_name ≢ pos 0)
        × In a s.addresses
        × (ep ≡ instance_endpoint unset labels (find_port s.ports port_name) a)
  unfolding slice_subsets
  In-of_slice_subsets port_name [] m = absurd m.1
  In-of_slice_subsets port_name (x ∷ subsets) m =
      elim (Bool-cases (int_beq (find_port x.ports port_name) (pos 0))) [
        | inl absent ↦
            let (s, a, i, n, l, e) = In-of_slice_subsets port_name subsets (rw absent at m) in
            (s, a, inr i, n, l, e)
        | inr there ↦
            elim (In-append_cases ep (slice_addresses unset labels _ x.addresses) _
              (rw there at m)) [
                | inl here ↦
                    let (a, l, e) = In-of_slice_addresses _ x.addresses here in
                    (
                      x,
                      a,
                      inl refl,
                      (λ z. ground (arith, int_beq_iff (find_port x.ports port_name) (pos 0))),
                      l,
                      e,
                    )
                | inr later ↦
                    let (s, a, i, n, l, e) = In-of_slice_subsets port_name subsets later in
                    (s, a, inr i, n, l, e)
              ]
      ]

In-slice :
    (unset : Operation) (spec : ServiceSpec) (eps : Endpoints) (ep : InstanceEndpoint)
    → In ep (skypb_endpoints_to_slice unset spec eps).inst_endpoints ↔ (
        (s : EndpointSubset) × (a : EndpointAddress) × In s eps.subsets
        × (find_port s.ports spec.port_name ≢ pos 0)
        × In a s.addresses
        × (ep ≡ instance_endpoint unset eps.labels (find_port s.ports spec.port_name) a))
unfolding skypb_endpoints_to_slice
In-slice unset spec eps ep = (
  In-of_slice_subsets unset eps.labels ep spec.port_name eps.subsets,
  λ (s, a, i, n, l, e). In-slice_subsets unset eps.labels ep spec.port_name s a eps.subsets i n l e,
)

instance_endpoint-host :
    (unset : Operation) (labels : GoMap Str Str) (port : ℤ) (a : EndpointAddress)
    (ep : InstanceEndpoint)
    → ep.op ≡ unset
    → ep.host ≡ a.ip
    → ep.port ≡ port
    → ep.weight ≡ label_weight labels a.ip port
    → ep ≡ instance_endpoint unset labels port a
instance_endpoint-host unset labels port a ep o h p w = rw (← w, ← o, ← h, ← p) refl

-- The slice holds exactly the addresses of the subsets that have the port of the spec's name: each with
-- the address as its host, the first port of that name in the subset, which is not 0, and the weight of
-- the label of this address and port.
pub In-skypb_endpoints_to_slice :
    (unset : Operation) (spec : ServiceSpec) (eps : Endpoints) (ep : InstanceEndpoint)
    → In ep (skypb_endpoints_to_slice unset spec eps).inst_endpoints ↔ IsServed unset spec eps ep
In-skypb_endpoints_to_slice unset spec eps ep = (
  λ i.
      let (s, a, i', n, l, e) = (In-slice unset spec eps ep).0 i in
      let same : ep.port ≡ find_port s.ports spec.port_name =
        ap (λ (x : InstanceEndpoint). x.port) e in
      let found = (find_port_iff spec.port_name s.ports ep.port).1 (sym same, n) in
      (
        s,
        a,
        i',
        l,
        found.0,
        found.1,
        ap (λ (x : InstanceEndpoint). x.host) e,
        ap (λ (x : InstanceEndpoint). x.op) e,
        (label_weight_iff eps.labels a.ip ep.port ep.weight).0 (
            ap (λ (x : InstanceEndpoint). x.weight) e
            ∙ ap (label_weight eps.labels a.ip) (sym same)),
      ),
  λ (s, a, i, l, p, n, h, o, w).
      let (q, n') = (find_port_iff spec.port_name s.ports ep.port).0 (p, n) in
      (In-slice unset spec eps ep).1 (
        s,
        a,
        i,
        n',
        l,
        instance_endpoint-host unset eps.labels _ a ep o h (sym q) (
            (label_weight_iff eps.labels a.ip ep.port ep.weight).1 w
            ∙ ap (label_weight eps.labels a.ip) (sym q)),
      ),
)

IsKeyed-put : (v : ServiceEndpoint) (m : EndpointsMap) → IsKeyed m → IsKeyed (put (to_string v) v m)
unfolding put
IsKeyed-put v [] h = (refl, tt)
IsKeyed-put v ((j, w) ∷ m) h = ground (arith, IsKeyed-put v m h.1)

pub index-IsKeyed :
    (eps : List InstanceEndpoint) (m : EndpointsMap) → IsKeyed m → IsKeyed (index eps m)
unfolding index
index-IsKeyed [] m h = h
index-IsKeyed (ep ∷ eps) m h = index-IsKeyed eps _ (IsKeyed-put (endpoint_of ep) m h)

pub index-HasKeysOnce :
    (eps : List InstanceEndpoint) (m : EndpointsMap) → HasKeysOnce m → HasKeysOnce (index eps m)
unfolding index
index-HasKeysOnce [] m h = h
index-HasKeysOnce (ep ∷ eps) m h = index-HasKeysOnce eps _ (HasKeysOnce-put _ _ m h)

pub skypb_endpoints_to_map-IsKeyed :
    (spec : ServiceSpec) (eps : Endpoints) → IsKeyed (skypb_endpoints_to_map spec eps)
skypb_endpoints_to_map-IsKeyed spec eps =
    rw (← index-skypb_endpoints_to_slice Operation.add spec eps) (index-IsKeyed _ [] tt)

pub skypb_endpoints_to_map-HasKeysOnce :
    (spec : ServiceSpec) (eps : Endpoints) → HasKeysOnce (skypb_endpoints_to_map spec eps)
skypb_endpoints_to_map-HasKeysOnce spec eps =
    rw (← index-skypb_endpoints_to_slice Operation.add spec eps) (index-HasKeysOnce _ [] tt)
