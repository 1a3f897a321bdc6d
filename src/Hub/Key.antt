-- ===== src/Hub/Key.antt =====
-- hub/key.go and hub/util/key.go: the etcd keys of services and endpoints, and the writes of an
-- endpoint's entry.
pub mod Laws
use skylb.Prelude.{
  ◌≡◌, Bool, true, false, List, [], ◌∷◌, ◌++◌, Option, none, some, Str, ℤ, pos, int_beq,
  if◌then◌else◌,
}
use skylb.Go.Strings.{lit}
use skylb.Go.Strconv.{itoa}
use skylb.Go.Path.{join_path}
use skylb.Api.{
  ObjectReference, EndpointAddress, EndpointPort, EndpointSubset, Endpoints, ServiceSpec, EtcdError,
  other,
}
use skylb.Deps.{Deps, refresh_opts, set_opts}

-- "%s_%d_weight"
unfoldable pub calculate_weight_key : Str → ℤ → Str
calculate_weight_key host port = host ++ (b'_' ∷ (itoa port ++ lit "_weight"))

-- "%s_%d"
pub host_port : Str → ℤ → Str
host_port host port = host ++ (b'_' ∷ itoa port)

abbrev pub endpoints_key_prefix : Str
endpoints_key_prefix = lit "/registry/services/endpoints"

-- CalculateKey and CalculateEndpointKey of package hub/util.
unfoldable pub util_calculate_key : Str → Str → Str
util_calculate_key namespace service_name =
    join_path (endpoints_key_prefix ∷ namespace ∷ service_name ∷ [])

unfoldable pub util_calculate_endpoint_key : Str → Str → Str → ℤ → Str
util_calculate_endpoint_key namespace service_name host port =
    join_path (endpoints_key_prefix ∷ namespace ∷ service_name ∷ host_port host port ∷ [])

-- The one subset of the object that `set_key` stores.
abbrev pub endpoint_address : ServiceSpec → Str → EndpointAddress
endpoint_address spec host = record {
  ip = host;
  target_ref = some (record { kind = lit "Pod"; namespace = spec.namespace; name = [] });
}

abbrev pub endpoint_subset : ServiceSpec → Str → ℤ → EndpointSubset
endpoint_subset spec host port = record {
  addresses = endpoint_address spec host ∷ [];
  not_ready_addresses = [];
  ports = record { name = spec.port_name; port = port; protocol = [] } ∷ [];
}

-- The object that `set_key` stores for one endpoint.
unfoldable pub endpoint_object : ServiceSpec → Str → ℤ → ℤ → Endpoints
endpoint_object spec host port weight = record {
  meta = record {
    name = host ++ (b':' ∷ itoa port);
    namespace = spec.namespace;
    labels =
        if int_beq weight (pos 0) then [] else (calculate_weight_key host port, itoa weight) ∷ [];
  };
  subsets = endpoint_subset spec host port ∷ [];
}

module _ (d : Deps) where
  open d use {World, etcd_set, marshal, endpoints_key}

  unfoldable pub calculate_key : Str → Str → Str
  calculate_key namespace service_name = join_path (endpoints_key ∷ namespace ∷ service_name ∷ [])

  pub calculate_endpoint_key : Str → Str → Str → ℤ → Str
  calculate_endpoint_key namespace service_name host port =
      join_path (endpoints_key ∷ namespace ∷ service_name ∷ host_port host port ∷ [])

  unfoldable pub refresh_key : Str → World → Option EtcdError × World
  refresh_key key = etcd_set key [] refresh_opts

  -- A failure to encode is an error that is none of etcd's.
  unfoldable pub set_key : Str → ServiceSpec → Str → ℤ → ℤ → World → Option EtcdError × World
  set_key key spec host port weight w = elim (marshal (endpoint_object spec host port weight)) [
    | none ↦ (some other, w)
    | some text ↦ etcd_set key text set_opts w
  ]
