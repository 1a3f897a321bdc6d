-- ===== src/Api.antt =====
-- The messages and objects that the parts of SkyLB hand to each other.
-- proto/types.go: the Kubernetes objects, as far as they are copied there. `Endpoints` is the object
-- of k8s.io/api/core/v1 with the metadata that the hub reads and writes.
-- The protobuf messages of skylb-api and the nodes of the etcd client are declared with the fields
-- that the sources use.
use skylb.Prelude.{◌≡◌, refl, ap, Bool, List, [], ◌∷◌, Option, Str, ℤ}
use skylb.Go.Maps.{GoMap}

-- Kubernetes.
pub record ObjectReference : Type 0 where
  pub kind : Str
  pub namespace : Str
  pub name : Str

pub record EndpointAddress : Type 0 where
  pub ip : Str
  pub target_ref : Option ObjectReference

pub record EndpointPort : Type 0 where
  pub name : Str
  pub port : ℤ
  pub protocol : Str

pub record EndpointSubset : Type 0 where
  pub addresses : List EndpointAddress
  pub not_ready_addresses : List EndpointAddress
  pub ports : List EndpointPort

pub record ObjectMeta : Type 0 where
  pub name : Str
  pub namespace : Str
  pub labels : GoMap Str Str

pub record Endpoints : Type 0 where
  pub meta : ObjectMeta
  pub open meta use *
  pub subsets : List EndpointSubset

-- api.Endpoints{}
abbrev pub no_endpoints : Endpoints
no_endpoints = record { meta = record { name = []; namespace = []; labels = [] }; subsets = [] }

-- skylb-api
pub record ServiceSpec : Type 0 where
  pub namespace : Str
  pub service_name : Str
  pub port_name : Str

pub data Operation : Type 0 where
  add delete : Operation

pub record InstanceEndpoint : Type 0 where
  pub op : Operation
  pub host : Str
  pub port : ℤ
  pub weight : ℤ

pub record ServiceEndpoints : Type 0 where
  pub spec : ServiceSpec
  pub inst_endpoints : List InstanceEndpoint

-- The etcd client. `other` stands for every error without one of the three codes.
pub data EtcdError : Type 0 where
  key_not_found event_index_cleared watcher_cleared other : EtcdError

mutual
  pub data Node : Type 0 where
    node : Str → Bool → Str → ℤ → Nodes → Node

  pub data Nodes : Type 0 where
    nil : Nodes
    cons : Node → Nodes → Nodes

abbrev pub node_key : Node → Str
node_key (node k d v t ns) = k

abbrev pub node_dir : Node → Bool
node_dir (node k d v t ns) = d

abbrev pub node_value : Node → Str
node_value (node k d v t ns) = v

abbrev pub node_ttl : Node → ℤ
node_ttl (node k d v t ns) = t

abbrev pub list_of : Nodes → List Node
list_of nil = []
list_of (cons n ns) = n ∷ list_of ns

abbrev pub nodes_of : List Node → Nodes
nodes_of [] = nil
nodes_of (n ∷ ns) = cons n (nodes_of ns)

-- node.Nodes
abbrev pub node_nodes : Node → List Node
node_nodes (node k d v t ns) = list_of ns

pub list_of-nodes_of : (ns : List Node) → list_of (nodes_of ns) ≡ ns
list_of-nodes_of [] = refl
list_of-nodes_of (n ∷ ns) = ap (◌∷◌ n) (list_of-nodes_of ns)

pub record Response : Type 0 where
  pub action : Str
  pub node : Option Node
  pub prev_node : Option Node

pub data Fetched {ℓ} (A : Type ℓ) : Type ℓ where
  ok : A → Fetched A
  err : EtcdError → Fetched A
