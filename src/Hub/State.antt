-- ===== src/Hub/State.antt =====
-- hub/hub.go: the state of the endpoints hub. A channel is a number; the map `channels` holds the
-- buffer and the capacity of each notification channel, and `stopped` the stop channels that are
-- closed. `rectified` lists the services for which the rectification ticker runs.
use skylb.Prelude.{
  ℕ, ◌<◌, ◌≡◌, Bool, List, [], ◌∷◌, ◌++◌, Option, none, some, Str, ℤ, pos, ltb, lt→ltb, length,
  if◌then◌else◌, nat_eq,
}
use skylb.Go.Maps.{GoMap, GoSet, get, put}
use skylb.Api.{ServiceSpec, ServiceEndpoints}
use skylb.Hub.Endpoints.{EndpointsMap}

pub record ClientObject : Type 0 where
  pub spec : ServiceSpec
  pub client_addr : Str
  pub resolve_full : Bool
  pub notify_ch : ℕ
  pub stop_ch : ℕ

pub record ServiceObject : Type 0 where
  pub spec : ServiceSpec
  pub endpoints : EndpointsMap
  pub observers : List ClientObject

-- EndpointsUpdate of hub/endpoints.go.
pub record EndpointsUpdate : Type 0 where
  pub id : ℤ
  pub endpoints : ServiceEndpoints

pub record Channel : Type 0 where
  pub capacity : ℕ
  pub buffer : List EndpointsUpdate

-- A goroutine of applyEndpoints, before it has taken its number.
pub record Notification : Type 0 where
  pub observer : ClientObject
  pub endpoints : ServiceEndpoints

pub record EndpointsHub : Type 0 where
  pub services : GoMap Str ServiceObject
  pub graph_keys : GoSet Str
  pub next_update_id : ℤ
  pub channels : GoMap ℕ Channel
  pub stopped : List ℕ
  pub next_channel : ℕ
  pub notifications : List Notification
  pub rectified : List Str

-- The hub as Init makes it.
abbrev pub init : EndpointsHub
init = record {
  services = [];
  graph_keys = [];
  next_update_id = pos 0;
  channels = [];
  stopped = [];
  next_channel = 0;
  notifications = [];
  rectified = [];
}

-- ch <- up, where `none` stands for a send that waits.
unfoldable pub send : ℕ → EndpointsUpdate → EndpointsHub → Option EndpointsHub
send ch up h = elim (get ch h.channels) [
  | none ↦ none
  | some c ↦
      if ltb (length c.buffer) c.capacity
      then some
          (record h { channels = put ch (record c { buffer = c.buffer ++ up ∷ [] }) h.channels })
      else none
]

-- Where the buffer is not full, a send puts the update at its end.
pub send_room :
    (ch : ℕ) (up : EndpointsUpdate) (h : EndpointsHub) (c : Channel)
    → get ch h.channels ≡ some c
    → length c.buffer < c.capacity
    → send ch up h
      ≡ some (record h { channels = put ch (record c { buffer = c.buffer ++ up ∷ [] }) h.channels })
unfolding send
send_room ch up h c e room = rw (e, send) (rw (lt→ltb _ _ room))
