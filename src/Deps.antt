-- ===== src/Deps.antt =====
-- What the hub and the RPC server use and do not implement: the clients of etcd and of Kubernetes
-- over a state of the cluster, the clock, encoding/json on Kubernetes endpoints, the key prefixes, the
-- action names and the lame duck set of skylb-api, the zero
-- value of pb.Operation, and the String method of a protobuf message.
use skylb.Prelude.{
  ◌≡◌, ◌≢◌, Bool, true, false, List, [], ◌∷◌, Option, none, some, Str, ℤ, str_eq, All, In,
}
use skylb.Go.Path.Segments.{IsSegment, render}
use skylb.Api.{
  Endpoints, Operation, ServiceSpec, EtcdError, Response, Fetched, ok, Node, node_key, node_value,
  node_nodes,
}
use skylb.Go.Maps.{HasKeysOnce}
use skylb.Go.Path.{dir}

-- The options of a set: `refresh` renews the time to live and keeps the value.
pub record SetOptions : Type 0 where
  pub refresh : Bool
  pub prev_no_exist : Bool

abbrev pub refresh_opts : SetOptions
refresh_opts = record { refresh = true; prev_no_exist = false }

abbrev pub set_opts : SetOptions
set_opts = record { refresh = false; prev_no_exist = false }

pub record Deps : Type 1 where
  pub World : Type 0
  pub etcd_get : Str → World → Fetched Response × World
  pub etcd_set : Str → Str → SetOptions → World → Option EtcdError × World
  pub unix_now : World → ℤ
  pub within_k8s : Bool
  pub k8s_list : Str → World → Fetched (List Endpoints) × World
  pub marshal : Endpoints → Option Str
  pub unmarshal : Str → Option Endpoints
  pub action_create : Str
  pub action_set : Str
  pub action_delete : Str
  pub action_expire : Str
  pub endpoints_key : Str
  pub graph_key : Str
  pub lameduck_host_port : Str → Str → Str
  pub is_lameduck_mode : Str → World → Bool
  pub unset_op : Operation
  pub spec_string : ServiceSpec → Str

-- The key prefixes are rooted paths of proper segments, such as "/registry/services/endpoints".
pub record HasPaths (d : Deps) : Type 0 where
  pub endpoints_first : Str
  pub endpoints_rest : List Str
  pub endpoints_segments : All IsSegment (endpoints_first ∷ endpoints_rest)
  pub endpoints_path : d.endpoints_key ≡ render (endpoints_first ∷ endpoints_rest)
  pub graph_first : Str
  pub graph_rest : List Str
  pub graph_segments : All IsSegment (graph_first ∷ graph_rest)
  pub graph_path : d.graph_key ≡ render (graph_first ∷ graph_rest)

-- encoding/json: an encoded object is not the empty text and decodes to itself, and a decoded map
-- has each key once.
pub record JsonLaws (d : Deps) : Type 0 where
  pub unmarshal_marshal :
      (e : Endpoints) (text : Str)
      → d.marshal e ≡ some text
      → (text ≢ []) × (d.unmarshal text ≡ some e)
  pub unmarshal_labels :
      (text : Str) (e : Endpoints) → d.unmarshal text ≡ some e → HasKeysOnce e.labels

-- etcd: after a set of a key, the listing of its directory, when it is answered, shows the key with
-- the value; after a refresh it shows the key.
pub record EtcdLaws (d : Deps) : Type 0 where
  pub get_after_set :
      (key value : Str) (w : d.World) (resp : Response)
      → (d.etcd_set key value set_opts w).0 ≡ none
      → (d.etcd_get (dir key) (d.etcd_set key value set_opts w).1).0 ≡ ok resp
      → (nd : Node) × (n : Node) × (resp.node ≡ some nd)
        × In n (node_nodes nd)
        × (node_key n ≡ key)
        × (node_value n ≡ value)
  pub get_after_refresh :
      (key : Str) (w : d.World) (resp : Response)
      → (d.etcd_set key [] refresh_opts w).0 ≡ none
      → (d.etcd_get (dir key) (d.etcd_set key [] refresh_opts w).1).0 ≡ ok resp
      → (nd : Node) × (n : Node) × (resp.node ≡ some nd) × In n (node_nodes nd) × (node_key n ≡ key)
