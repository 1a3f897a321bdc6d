-- ===== src/Hub/Endpoints.antt =====
-- hub/endpoints.go, and the conversions at the end of hub/hub.go: the port of a service, the map and
-- the slice of its endpoints, and the difference of two maps.
pub mod Ports
pub mod Convert
pub mod Diff
use skylb.Prelude.{
  ◌≡◌, Bool, true, false, not, List, [], ◌∷◌, ◌++◌, Option, none, some, Str, ℤ, pos, int_beq,
  to_int32, if◌then◌else◌, ◌=?◌, str_eq,
}
use skylb.Go.Strconv.{itoa, atoi, Parsed}
use skylb.Go.Maps.{GoMap, GoSet, get, put}
use skylb.Api.{
  EndpointAddress, EndpointPort, EndpointSubset, Endpoints, ServiceSpec, Operation,
  InstanceEndpoint, ServiceEndpoints,
}
use skylb.Hub.Key.{calculate_weight_key}

-- ServiceEndpoint of hub/hub.go.
pub record ServiceEndpoint : Type 0 where
  pub ip : Str
  pub port : ℤ
  pub weight : ℤ

-- ServiceEndpoint.toString: "%s:%d"
unfoldable pub to_string : ServiceEndpoint → Str
to_string se = se.ip ++ (b':' ∷ itoa se.port)

abbrev pub EndpointsMap : Type 0
EndpointsMap = GoMap Str ServiceEndpoint

-- The port of the first entry with the name, or 0.
unfoldable pub find_port : List EndpointPort → Str → ℤ
find_port [] port_name = pos 0
find_port (ep ∷ ports) port_name =
    let rest = find_port ports port_name in if ep.name =? port_name then ep.port else rest

-- The weight of an address: that of its label, where the label is there and is a number.
abbrev pub parsed_weight : Option Str → ℤ
parsed_weight none = pos 0
parsed_weight (some text) = if (atoi text).failed then pos 0 else to_int32 (atoi text).value

unfoldable pub label_weight : GoMap Str Str → Str → ℤ → ℤ
label_weight labels ip port = parsed_weight (get (calculate_weight_key ip port) labels)

abbrev pub service_endpoint : GoMap Str Str → Str → ℤ → ServiceEndpoint
service_endpoint labels ip port = record {
  ip = ip;
  port = port;
  weight = label_weight labels ip port;
}

-- The inner loop of skypbEndpointsToMap.
pub add_addresses : GoMap Str Str → ℤ → List EndpointAddress → EndpointsMap → EndpointsMap
add_addresses labels port [] m = m
add_addresses labels port (addr ∷ addrs) m =
    let se = service_endpoint labels addr.ip port in
    add_addresses labels port addrs (put (to_string se) se m)

pub add_subsets : GoMap Str Str → Str → List EndpointSubset → EndpointsMap → EndpointsMap
unfolding add_addresses
add_subsets labels port_name [] m = m
add_subsets labels port_name (s ∷ subsets) m =
    let port = find_port s.ports port_name in
    add_subsets labels port_name subsets
      (if int_beq port (pos 0) then m else add_addresses labels port s.addresses m)

pub skypb_endpoints_to_map : ServiceSpec → Endpoints → EndpointsMap
unfolding add_subsets find_port
skypb_endpoints_to_map spec eps = add_subsets eps.labels spec.port_name eps.subsets []

-- An element of skypbEndpointsToSlice leaves its operation unset: `unset` is the zero value of
-- pb.Operation.
abbrev pub instance_endpoint : Operation → GoMap Str Str → ℤ → EndpointAddress → InstanceEndpoint
instance_endpoint unset labels port addr = record {
  op = unset;
  host = addr.ip;
  port = port;
  weight = label_weight labels addr.ip port;
}

module _ (unset : Operation) where
  pub slice_addresses : GoMap Str Str → ℤ → List EndpointAddress → List InstanceEndpoint
  slice_addresses labels port [] = []
  slice_addresses labels port (addr ∷ addrs) =
      instance_endpoint unset labels port addr ∷ slice_addresses labels port addrs

  pub slice_subsets : GoMap Str Str → Str → List EndpointSubset → List InstanceEndpoint
  slice_subsets labels port_name [] = []
  slice_subsets labels port_name (s ∷ subsets) =
      let port = find_port s.ports port_name in
      let rest = slice_subsets labels port_name subsets in
      if int_beq port (pos 0) then rest else slice_addresses labels port s.addresses ++ rest

  unfoldable pub skypb_endpoints_to_slice : ServiceSpec → Endpoints → ServiceEndpoints
  unfolding slice_subsets slice_addresses find_port
  skypb_endpoints_to_slice spec eps = record {
    spec = spec;
    inst_endpoints = slice_subsets eps.labels spec.port_name eps.subsets;
  }

-- The keys of `now` that `last` has, in front of those found so far.
pub common_keys : EndpointsMap → EndpointsMap → GoSet Str → GoSet Str
common_keys last [] common = common
common_keys last ((k, v) ∷ now) common =
    common_keys last now (elim (get k last) [ none ↦ common | some _ ↦ put k tt common ])

pub deletions : GoSet Str → EndpointsMap → List InstanceEndpoint
deletions common [] = []
deletions common ((k, v) ∷ m) =
    let rest = deletions common m in
    let ep : InstanceEndpoint = record {
      op = Operation.delete;
      host = v.ip;
      port = v.port;
      weight = pos 0;
    } in
    elim (get k common) [ none ↦ ep ∷ rest | some _ ↦ rest ]

pub additions : GoSet Str → EndpointsMap → List InstanceEndpoint
additions common [] = []
additions common ((k, v) ∷ m) =
    let rest = additions common m in
    let ep : InstanceEndpoint = record {
      op = Operation.add;
      host = v.ip;
      port = v.port;
      weight = v.weight;
    } in
    elim (get k common) [ none ↦ ep ∷ rest | some _ ↦ rest ]

pub diff_endpoints : ServiceSpec → EndpointsMap → EndpointsMap → ServiceEndpoints
unfolding common_keys deletions additions
diff_endpoints spec last now =
    let common = common_keys last now [] in
    record { spec = spec; inst_endpoints = deletions common last ++ additions common now }
