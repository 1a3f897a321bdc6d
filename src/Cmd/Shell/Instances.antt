-- ===== src/Cmd/Shell/Instances.antt =====
-- The commands of the shell on instances: addInstance, deleteInstance and listInstances.
use skylb.Prelude.{
  ℕ, ◌+◌, Bool, true, false, not, ◌&&◌, ◌||◌, leb, List, [], ◌∷◌, ◌++◌, map, Option, none, some,
  Str, ℤ, pos, ltz, to_int32, if◌then◌else◌, length, get_elem?, ◌=?◌, str_eq,
}
use skylb.Go.Strings.{lit, split, trim_space}
use skylb.Go.Strconv.{atoi, itoa}
use skylb.Go.Path.{join_path}
use skylb.Go.Text.{replace_byte, sort}
use skylb.Api.{
  Endpoints, EndpointSubset, EndpointAddress, EndpointPort, Response, Fetched, ok, err, Node,
  node_value, node_ttl, node_nodes,
}
use skylb.Deps.{SetOptions}
use skylb.Cmd.Shell.{
  Service, Shell, ShellDeps, Outcome, goes_on, panics, prefix, current_service, index_in, node_less,
  set_endpoints_at,
}

-- setOpts
abbrev pub new_opts : SetOptions
new_opts = record { refresh = false; prev_no_exist = true }

-- The regular expression "^\d+$".
abbrev pub all_digits : Str → Bool
all_digits [] = true
all_digits (x ∷ xs) = let rest = all_digits xs in leb b'0' x && leb x b'9' && rest

abbrev pub is_port : Str → Bool
is_port s = not (s =? []) && all_digits s

-- The key of an instance, and its value.
unfoldable pub instance_key : Service → Str → Str → Str
instance_key svc host port =
    join_path (prefix ∷ svc.namespace ∷ svc.name ∷ (host ++ b'_' ∷ port) ∷ [])

abbrev pub instance_addresses : Service → Str → List EndpointAddress
instance_addresses svc host =
    record {
      ip = host;
      target_ref = some (record { kind = lit "Pod"; namespace = svc.namespace; name = [] });
    }
    ∷ []

unfoldable pub instance_value : Service → Str → Str → Str → Endpoints
instance_value svc port_name host port = record {
  meta = record { name = host ++ b':' ∷ port; namespace = svc.namespace; labels = [] };
  subsets =
      record {
        addresses = instance_addresses svc host;
        not_ready_addresses = [];
        ports = record { name = port_name; port = to_int32 (atoi port).value; protocol = [] } ∷ [];
      }
      ∷ [];
}

-- The key of an endpoint that the user chooses from the list.
unfoldable pub listed_key : Service → Str → Str
listed_key svc eps =
    join_path (prefix ∷ svc.namespace ∷ svc.name ∷ map (replace_byte b':' b'_') eps ∷ [])

-- The first port with the name, with its place.
abbrev pub port_at : Str → ℕ → List EndpointPort → Option (ℕ × EndpointPort)
port_at name k [] = none
port_at name k (p ∷ ps) =
    let rest = port_at name (k + 1) ps in if p.name =? name then some (k, p) else rest

abbrev shown : ℤ → Option EndpointAddress → Option (List Str)
shown port none = none
shown port (some a) = some ((a.ip ++ b':' ∷ itoa port) ∷ [])

abbrev pub shown_at : List EndpointAddress → Option (ℕ × EndpointPort) → Option (List Str)
shown_at addresses none = some []
shown_at addresses (some (k, p)) = shown p.port (get_elem? addresses k)

-- What a subset adds to the list; `none` stands for the panic on an address that is not there.
unfoldable pub listed_subset : Str → EndpointSubset → Option (List Str)
listed_subset name sub = shown_at sub.addresses (port_at name 0 sub.ports)

abbrev pub and_listed : Option (List Str) → Option (List Str) → Option (List Str)
and_listed none rest = none
and_listed (some eps) none = none
and_listed (some eps) (some rest) = some (eps ++ rest)

unfoldable pub listed_subsets : Str → List EndpointSubset → Option (List Str)
unfolding listed_subset
listed_subsets name [] = some []
listed_subsets name (sub ∷ subs) = and_listed (listed_subset name sub) (listed_subsets name subs)

module _ (d : ShellDeps) where
  open d use {deps, remove, ask}
  open deps use {World, etcd_get, etcd_set, marshal, unmarshal}

  abbrev pub write_marshaled : Shell → Str → Option Str → World → Outcome World
  write_marshaled s key none w = goes_on s w
  write_marshaled s key (some text) w = goes_on s (etcd_set key text new_opts w).1

  -- After the check of the host: the second part, and its check.
  abbrev pub add_port : Shell → Service → Str → List Str → World → Outcome World
  add_port s svc host [] w = panics
  add_port s svc host (second ∷ more) w =
      let port = trim_space second in
      if is_port port
      then write_marshaled s (instance_key svc host port)
          (marshal (instance_value svc s.port_name host port)) w
      else goes_on s w

  -- After strings.Split: a number of parts other than two is only reported.
  abbrev pub add_parts : Shell → Service → List Str → World → Outcome World
  add_parts s svc [] w = panics
  add_parts s svc (part ∷ parts) w =
      if trim_space part =? [] then goes_on s w else add_port s svc (trim_space part) parts w

  abbrev pub add_to : Shell → Option Service → Str → World → Outcome World
  add_to s none param w = goes_on s w
  add_to s (some svc) param w = add_parts s svc (split b':' (trim_space param)) w

  unfoldable pub add_instance : Shell → Str → World → Outcome World
  unfolding current_service
  add_instance s param w = add_to s (current_service s) param w

  abbrev pub confirmed : Shell → Str → Option Str × World → Outcome World
  confirmed s key (none, w) = goes_on s w
  confirmed s key (some input, w) =
      let t = trim_space input in
      if t =? [] || (t =? lit "y" || t =? lit "Y") then goes_on s (remove key w) else goes_on s w

  abbrev pub delete_found : Shell → Str → Str → Option Node → World → Outcome World
  delete_found s eps key none w = panics
  delete_found s eps key (some n) w =
      if ltz (pos 0) (node_ttl n) then goes_on s w else confirmed s key (ask eps w)

  -- After the Get: a response is used also where there is an error and none.
  abbrev pub delete_got : Shell → Str → Str → Fetched Response × World → Outcome World
  delete_got s eps key (err e, w) = panics
  delete_got s eps key (ok resp, w) = delete_found s eps key resp.node w

  abbrev pub delete_chosen : Shell → Service → Option Str → World → Outcome World
  delete_chosen s svc none w = goes_on s w
  delete_chosen s svc (some eps) w =
      delete_got s eps (listed_key svc eps) (etcd_get (listed_key svc eps) w)

  abbrev pub endpoint_at : List Str → Option ℕ → Option Str
  endpoint_at eps none = none
  endpoint_at eps (some i) = get_elem? eps i

  abbrev pub delete_from : Shell → Option Service → Str → World → Outcome World
  delete_from s none param w = goes_on s w
  delete_from s (some svc) param w =
      let num = atoi (trim_space param) in
      if num.failed
      then goes_on s w
      else delete_chosen s svc
          (endpoint_at svc.endpoints (index_in num.value (length svc.endpoints))) w

  unfoldable pub delete_instance : Shell → Str → World → Outcome World
  unfolding current_service
  delete_instance s param w = delete_from s (current_service s) param w

  -- The loop over the nodes: it stops at a value that is no object, and keeps what it has.
  unfoldable pub listed_nodes : Str → List Node → Option (List Str)
  unfolding listed_subsets
  listed_nodes name [] = some []
  listed_nodes name (n ∷ ns) = elim (unmarshal (node_value n)) [
    | none ↦ some []
    | some eps ↦ and_listed (listed_subsets name eps.subsets) (listed_nodes name ns)
  ]

  abbrev pub keep_listed : Shell → ℕ → Option (List Str) → World → Outcome World
  keep_listed s i none w = panics
  keep_listed s i (some eps) w =
      goes_on (record s { services = set_endpoints_at i eps s.services }) w

  abbrev pub list_found : Shell → ℕ → Option Node → World → Outcome World
  list_found s i none w = panics
  list_found s i (some root) w =
      keep_listed s i (listed_nodes s.port_name (sort node_less (node_nodes root))) w

  abbrev pub list_got : Shell → ℕ → Fetched Response × World → Outcome World
  list_got s i (err e, w) = goes_on s w
  list_got s i (ok resp, w) = list_found s i resp.node w

  abbrev pub list_of_service : Shell → ℕ → Option Service → World → Outcome World
  list_of_service s i none w = goes_on s w
  list_of_service s i (some svc) w =
      list_got s i (etcd_get (join_path (prefix ∷ svc.namespace ∷ svc.name ∷ [])) w)

  abbrev pub list_selected : Shell → Option ℕ → World → Outcome World
  list_selected s none w = goes_on s w
  list_selected s (some i) w = list_of_service s i (get_elem? s.services i) w

  unfoldable pub list_instances : Shell → World → Outcome World
  list_instances s w = list_selected s s.current w
