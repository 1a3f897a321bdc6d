-- ===== src/Cmd/Webserver.antt =====
-- cmd/webserver: the service list of svclist/etcdop.go, and the requests of main.go. The directories
-- of etcd are the nodes that its client returns; the lame duck calls of skylb-api, the splitting of a
-- list by commas, net.SplitHostPort, net.LookupPort and encoding/json are parameters.
pub mod Tree
pub mod Acyclic
use skylb.Prelude.{
  ℕ, zero, suc, Bool, true, false, ◌&&◌, ltb, List, [], ◌∷◌, ◌++◌, map, Option, none, some, Str, ℤ,
  pos, to_int32, if◌then◌else◌, length, get_elem?, ◌=?◌, str_eq,
}
use skylb.Go.Strings.{lit, split, trim_space}
use skylb.Go.Strconv.{atoi, itoa}
use skylb.Go.Path.{base}
use skylb.Api.{
  Endpoints, EndpointSubset, ServiceSpec, InstanceEndpoint, ServiceEndpoints, EtcdError, Response,
  Fetched, ok, err, Node, node_key, node_value, node_nodes,
}
use skylb.Prelude.Results.{Result}
use skylb.Deps.{Deps}
use skylb.Go.Text.{to_lower}

-- eps.Subsets[0].Ports[0].Name, where there is one.
abbrev first_port_name : List EndpointSubset → Option Str
first_port_name [] = none
first_port_name (s ∷ ss) = elim s.ports [ [] ↦ none | p ∷ ps ↦ some p.name ]

module _ (d : Deps) where
  open d use {World, unmarshal, unset_op, etcd_get, endpoints_key}

  -- The port name after an instance: it is read from the value while it is empty.
  abbrev port_name_from : Str → Str → Str
  port_name_from [] value = elim (unmarshal value) [
    | none ↦ []
    | some eps ↦ elim (first_port_name eps.subsets) [ none ↦ [] | some name ↦ name ]
  ]
  port_name_from (c ∷ cs) value = c ∷ cs

  -- The host and the port of a key, or nothing where the port is missing or no number.
  abbrev pub instance_of_key : Str → Option InstanceEndpoint
  instance_of_key key =
      let ss = split b'_' (base key) in
      elim (get_elem? ss 0) [
        | none ↦ none
        | some host ↦ elim (get_elem? ss 1) [
          | none ↦ none
          | some port ↦
              if (atoi port).failed
              then none
              else some (record {
                op = unset_op;
                host = host;
                port = to_int32 (atoi port).value;
                weight = pos 0;
              })
        ]
      ]

  -- The loop over the instances of a service: the endpoints, and the port name.
  pub read_instances : List Node → Str → List InstanceEndpoint × Str
  read_instances [] port_name = ([], port_name)
  read_instances (si ∷ nodes) port_name = elim (instance_of_key (node_key si)) [
    | none ↦ read_instances nodes port_name
    | some iep ↦
        let (ieps, name) = read_instances nodes (port_name_from port_name (node_value si)) in
        (iep ∷ ieps, name)
  ]

  pub list_service : Node → Node → ServiceEndpoints
  unfolding read_instances
  list_service ns svc =
      let (ieps, name) = read_instances (node_nodes svc) [] in
      record {
        spec = record {
          namespace = base (node_key ns);
          service_name = base (node_key svc);
          port_name = name;
        };
        inst_endpoints = ieps;
      }

  pub list_namespaces : List Node → List ServiceEndpoints
  unfolding list_service
  list_namespaces [] = []
  list_namespaces (ns ∷ rest) = map (list_service ns) (node_nodes ns) ++ list_namespaces rest

  -- ListServices; `none` inside stands for the panic on an answer with no node.
  abbrev listed : Fetched Response → Option (Result EtcdError (List ServiceEndpoints))
  unfolding list_namespaces
  listed (err e) = some (Result.err e)
  listed (ok resp) = elim resp.node [
    | none ↦ none
    | some root ↦ some (Result.ok (list_namespaces (node_nodes root)))
  ]

  unfoldable pub list_services : World → Option (Result EtcdError (List ServiceEndpoints)) × World
  unfolding listed
  list_services w = (listed (etcd_get endpoints_key w).0, (etcd_get endpoints_key w).1)

-- What main.go calls and does not implement, over a state of the cluster. The errors of the lame duck
-- calls are only logged.
pub record WebDeps : Type 1 where
  pub deps : Deps
  pub csv_to_slice : Str → List Str
  pub split_host_port : Str → Option (Str × Str)
  pub lookup_port : Str → Option ℤ
  pub host_port : Str → Str → Str
  pub set_lame_duck_mode : Str → Str → deps.World → deps.World
  pub unset_lame_duck_mode : Str → Str → deps.World → deps.World
  pub etcd_error_text : EtcdError → Str
  pub marshal_indent : List ServiceEndpoints → Result Str Str

module _ (d : WebDeps) where
  open d use {
    deps, csv_to_slice, split_host_port, lookup_port, host_port, set_lame_duck_mode,
    unset_lame_duck_mode, etcd_error_text, marshal_indent,
  }
  open deps use {World}

  -- hub.ServiceEndpoint, with the fields that are set here.
  abbrev pub Address : Type 0
  Address = Str × ℤ

  abbrev address_of : Str × Str → Option Address
  address_of (host, port) = elim (lookup_port port) [
    | none ↦ none
    | some portnum ↦ some (host, to_int32 portnum)
  ]

  pub parse_address : Str → Option Address
  parse_address ep = elim (split_host_port (trim_space ep)) [
    | none ↦ none
    | some hp ↦ address_of hp
  ]

  -- The loop of parseEndpoints: an endpoint that is no address is skipped.
  pub parse_addresses : List Str → List Address
  unfolding parse_address
  parse_addresses [] = []
  parse_addresses (ep ∷ eps) =
      let rest = parse_addresses eps in
      elim (parse_address ep) [ none ↦ rest | some addr ↦ addr ∷ rest ]

  abbrev non_empty : List Address → Result Str (List Address)
  non_empty [] = Result.err (lit "No valid endpoints")
  non_empty (a ∷ as_) = Result.ok (a ∷ as_)

  pub parse_endpoints : Str → Result Str (List Address)
  unfolding parse_addresses
  parse_endpoints eps_str = elim (csv_to_slice eps_str) [
    | [] ↦ Result.err (lit "No valid endpoints: " ++ eps_str)
    | ep ∷ eps ↦ non_empty (parse_addresses (ep ∷ eps))
  ]

  -- The loops of offline and online, with the call that each makes.
  abbrev for_each : (Str → Str → World → World) → Str → List Address → World → World
  for_each call svc [] w = w
  for_each call svc ((ip, port) ∷ addrs) w =
      for_each call svc addrs (call svc (host_port ip (itoa port)) w)

  abbrev run_over :
      (Str → Str → World → World) → Str → Result Str (List Address) → World → Option Str × World
  run_over call svc (Result.err e) w = (some e, w)
  run_over call svc (Result.ok addrs) w = (none, for_each call svc addrs w)

  pub offline : Str → Str → World → Option Str × World
  unfolding parse_endpoints
  offline svc eps_str = run_over set_lame_duck_mode svc (parse_endpoints eps_str)

  pub online : Str → Str → World → Option Str × World
  unfolding parse_endpoints
  online svc eps_str = run_over unset_lame_duck_mode svc (parse_endpoints eps_str)

  -- What is written to the response; `none` stands for a panic.
  abbrev Written : Type 0
  Written = Option Str × World

  abbrev outcome : Option Str × World → Written
  outcome (none, w) = (some (lit "OK"), w)
  outcome (some e, w) = (some e, w)

  abbrev listing : Result Str Str → Str
  listing (Result.ok text) = text
  listing (Result.err e) = e

  abbrev list_answer : Option (Result EtcdError (List ServiceEndpoints)) × World → Written
  list_answer (none, w) = (none, w)
  list_answer (some (Result.err e), w) = (some (etcd_error_text e), w)
  list_answer (some (Result.ok list), w) = (some (listing (marshal_indent list)), w)

  pub list_svc : World → Written
  unfolding list_services
  list_svc w = list_answer (list_services deps w)

  -- handleSvcRequest. listDep writes nothing.
  unfoldable pub handle_svc_request : Str → Str → Str → World → Written
  unfolding offline online list_svc
  handle_svc_request act svc eps w =
      let name = if svc =? [] then lit "dummy-service" else svc in
      let action = to_lower act in
      if action =? lit "offline"
      then outcome (offline name eps w)
      else if action =? lit "online"
      then outcome (online name eps w)
      else if action =? lit "list"
      then list_svc w
      else if action =? lit "listdep"
      then (some [], w)
      else (some (lit "Unsupported action " ++ act), w)
