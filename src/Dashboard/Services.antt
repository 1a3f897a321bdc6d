-- ===== src/Dashboard/Services.antt =====
-- dashboard/services.go, the reading part of instance.go, and util/service.go: services, their
-- instances, and who calls them, from the nodes that etcd returns. `none` as a result stands for the
-- panic of a slice beyond the end of a key. sort.Slice is an insertion sort here; it leaves open the
-- order of equal elements.
pub mod Pages
pub mod Calls
pub mod Agree
use skylb.Prelude.{
  ℕ, zero, suc, ◌+◌, ◌-◌, Bool, true, false, not, ◌&&◌, ◌||◌, ◌==◌, ltb, leb, List, [], ◌∷◌, ◌++◌,
  map, Option, none, some, Str, ℤ, if◌then◌else◌, length, drop, ◌=?◌, str_eq, int_eq,
}
use skylb.Go.Strings.{lit, has_suffix}
use skylb.Go.Text.{replace_byte, replace_first, to_lower, str_ltb, insert_sorted, sort}
use skylb.Go.Maps.{GoMap, get, put, delete}
use skylb.Api.{Node, node_key, node_nodes, Response, Fetched, ok, err}
use skylb.Deps.{Deps}

pub record InstanceInfo : Type 0 where
  pub address : Str
  pub lameduck : Bool

-- A message ServiceInfo in a list of callers or callees, where only these fields are set.
pub record ServiceRef : Type 0 where
  pub id : ℤ
  pub name : Str

pub record ServiceInfo : Type 0 where
  pub id : ℤ
  pub name : Str
  pub instances : List InstanceInfo
  pub incomings : List ServiceRef
  pub outgoings : List ServiceRef

-- s[n:]
abbrev pub slice_from : ℕ → Str → Option Str
slice_from n s = if leb n (length s) then some (drop n s) else none

-- normalizedServiceName
pub normalized_service_name : Str → Str
normalized_service_name name = to_lower (map (replace_byte b'_' b'-') name)

-- The tables of util/service.go, from the entries of ServiceId_name.
unfoldable pub service_ids_to_names : GoMap ℤ Str → GoMap ℤ Str → GoMap ℤ Str
unfolding normalized_service_name
service_ids_to_names [] names = names
service_ids_to_names ((id, name) ∷ m) names =
    service_ids_to_names m (put id (normalized_service_name name) names)

unfoldable pub service_names_to_ids : GoMap ℤ Str → GoMap Str ℤ → GoMap Str ℤ
unfolding normalized_service_name
service_names_to_ids [] ids = ids
service_names_to_ids ((id, name) ∷ m) ids =
    service_names_to_ids m (put (normalized_service_name name) id ids)

-- The body of getAllServicesHandler: the entries of ServiceId_name but those named "_", by name.
pub named_services : GoMap ℤ Str → List ServiceRef
unfolding normalized_service_name
named_services [] = []
named_services ((id, name) ∷ m) =
    let rest = named_services m in
    if name =? lit "_" then rest else record { id = id; name = normalized_service_name name } ∷ rest

unfoldable pub get_all_services : GoMap ℤ Str → List ServiceRef
unfolding named_services sort
get_all_services m = sort (λ a b. str_ltb a.name b.name) (named_services m)

-- A loop that appends what each round finds, and panics where a round does.
pub collect : {A B : Type 0} → (A → Option (List B)) → List A → Option (List B)
collect f [] = some []
collect f (n ∷ ns) = elim (f n) [
  | none ↦ none
  | some found ↦ elim (collect f ns) [ none ↦ none | some rest ↦ some (found ++ rest) ]
]

-- The instances that are registered, and the lame ducks that are left over.
pub registered : ℕ → List Node → GoMap Str Str → Option (List InstanceInfo × GoMap Str Str)
unfolding replace_first
registered prefix_len [] lameducks = some ([], lameducks)
registered prefix_len (n ∷ ns) lameducks = elim (slice_from prefix_len (node_key n)) [
  | none ↦ none
  | some host_port ↦
      let host_addr = replace_first b'_' b':' host_port in
      elim (registered prefix_len ns (delete host_addr lameducks)) [
        | none ↦ none
        | some (infos, left) ↦ some (
          record {
            address = host_addr;
            lameduck = elim (get host_addr lameducks) [ none ↦ false | some v ↦ true ];
          }
              ∷ infos,
          left,
        )
      ]
]

abbrev pub lame_instances : GoMap Str Str → List InstanceInfo
lame_instances [] = []
lame_instances ((k, v) ∷ m) = record { address = k; lameduck = true } ∷ lame_instances m

pub extract_instances : List Node → ℕ → GoMap Str Str → Option (List InstanceInfo)
unfolding registered sort
extract_instances nodes prefix_len lameducks = elim (registered prefix_len nodes lameducks) [
  | none ↦ none
  | some (infos, left) ↦
      some (sort (λ a b. str_ltb a.address b.address) (infos ++ lame_instances left))
]

-- The first child whose key ends in "/clients".
unfoldable pub client_node : List Node → Option Node
client_node [] = none
client_node (n ∷ ns) =
    let rest = client_node ns in if has_suffix (node_key n) (lit "/clients") then some n else rest

abbrev pub graph_prefix : Str
graph_prefix = lit "/skylb/graph/default/"

abbrev pub clients_part : Str
clients_part = lit "/clients/"

-- The loops skip a child with no name, and one called "addr".
abbrev pub is_skipped : Str → Bool
is_skipped cli_name = cli_name =? [] || cli_name =? lit "addr"

abbrev pub ref_of : Str → Option ℤ → List ServiceRef
ref_of name none = []
ref_of name (some id) = record { id = id; name = name } ∷ []

module _ (names2ids : GoMap Str ℤ) where
  -- A service that has an id is appended; any other is only logged.
  abbrev pub known_service : Str → List ServiceRef
  known_service name = ref_of name (get name names2ids)

  abbrev pub incoming_named : Str → Option Str → Option (List ServiceRef)
  incoming_named name none = none
  incoming_named name (some cli_name) =
      some (if is_skipped cli_name || cli_name =? name then [] else known_service cli_name)

  abbrev pub incoming_of : Str → Node → Option (List ServiceRef)
  incoming_of name n =
      incoming_named name (slice_from (length (graph_prefix ++ name ++ clients_part)) (node_key n))

  abbrev pub incomings_under : Str → Option Node → Option (List ServiceRef)
  incomings_under name none = some []
  incomings_under name (some cli_node) = collect (incoming_of name) (node_nodes cli_node)

  pub incomings_at : Str → Node → Option (List ServiceRef)
  unfolding collect client_node
  incomings_at name n =
      if node_key n =? (graph_prefix ++ name)
      then incomings_under name (client_node (node_nodes n))
      else some []

  pub extract_incomings : List Node → Str → Option (List ServiceRef)
  unfolding incomings_at collect
  extract_incomings nodes name = collect (incomings_at name) nodes

  abbrev pub outgoing_named : Str → Str → Option Str → Option (List ServiceRef)
  outgoing_named name svc_name none = none
  outgoing_named name svc_name (some cli_name) =
      some (if is_skipped cli_name || not (cli_name =? name) then [] else known_service svc_name)

  abbrev pub outgoing_of : Str → Str → Node → Option (List ServiceRef)
  outgoing_of name svc_name n =
      outgoing_named name svc_name
        (slice_from (length (graph_prefix ++ svc_name ++ clients_part)) (node_key n))

  abbrev pub outgoings_under : Str → Str → Option Node → Option (List ServiceRef)
  outgoings_under name svc_name none = some []
  outgoings_under name svc_name (some cli_node) =
      collect (outgoing_of name svc_name) (node_nodes cli_node)

  abbrev pub outgoings_named : Str → Node → Option Str → Option (List ServiceRef)
  outgoings_named name n none = none
  outgoings_named name n (some svc_name) =
      if svc_name =? name
      then some []
      else outgoings_under name svc_name (client_node (node_nodes n))

  pub outgoings_at : Str → Node → Option (List ServiceRef)
  unfolding collect client_node
  outgoings_at name n = outgoings_named name n (slice_from (length graph_prefix) (node_key n))

  pub extract_outgoings : List Node → Str → Option (List ServiceRef)
  unfolding outgoings_at collect
  extract_outgoings nodes name = collect (outgoings_at name) nodes
