-- ===== src/Hub/Updates/Laws.antt =====
-- hub/hub.go: a write below a service reaches the service object and its observers.
use mathlib.Core.Option.{some-injective}
use skylb.Prelude.{
  ◌≡◌, refl, ap, sym, ◌∙◌, Bool, true, false, List, [], ◌∷◌, ◌++◌, some, Str, ◌=?◌, =?_iff, str_eq,
  ◌||◌, Option-cases, Bool-cases, inl, inr, ◌⊎◌, ◌↔◌, In,
}
use skylb.Go.Maps.{get, get-put}
use skylb.Api.{
  Endpoints, ServiceSpec, ServiceEndpoints, InstanceEndpoint, Operation, Response, Node, node_key,
  Fetched, ok, err, EtcdError,
}
use skylb.Deps.{Deps}
use skylb.Hub.Endpoints.{skypb_endpoints_to_map, skypb_endpoints_to_slice}
use skylb.Hub.Endpoints.Convert.{IsServed}
use skylb.Hub.Register.{fetch_endpoints}
use skylb.Hub.State.{ClientObject, ServiceObject, EndpointsHub, Notification}
use skylb.Hub.Updates.{notifications_for, notify, apply_endpoints, update_endpoints}

notify-empty :
    (stop_wins : Bool) (n : Notification) (h : EndpointsHub)
    → n.endpoints.inst_endpoints ≡ []
    → notify stop_wins n h ≡ some h
unfolding notify
notify-empty stop_wins n h e = rw e

notifications_for-silent :
    (eps : ServiceEndpoints) (obs : List ClientObject) (stop_wins : Bool) (n : Notification)
    (h : EndpointsHub)
    → eps.inst_endpoints ≡ []
    → In n (notifications_for eps obs)
    → notify stop_wins n h ≡ some h
notifications_for-silent eps [] stop_wins n h e i = absurd i.1
notifications_for-silent eps (ob ∷ obs) stop_wins n h e (inl q) =
    notify-empty stop_wins n h (ap (λ (m : Notification). m.endpoints.inst_endpoints) q ∙ e)
notifications_for-silent eps (ob ∷ obs) stop_wins n h e (inr i) =
    notifications_for-silent eps obs stop_wins n h e i

module _ (d : Deps) where
  open d use {World, action_create, action_set, action_delete, action_expire, unset_op}

  -- The event tells of a write of the key, or of its end.
  abbrev pub IsAbout : Str → Response → Type 0
  IsAbout key resp =
      (((resp.action =? action_create || resp.action =? action_set) ≡ true)
        × ((n : Node) × (resp.node ≡ some n) × (node_key n ≡ key)))
      ⊎ (((resp.action =? action_create || resp.action =? action_set) ≡ false)
          × ((resp.action =? action_delete || resp.action =? action_expire) ≡ true)
          × ((n : Node) × (resp.prev_node ≡ some n) × (node_key n ≡ key)))

  update_endpoints-fetched :
      (key : Str) (h : EndpointsHub) (w : World) (so : ServiceObject) (eps : Endpoints)
      → get key h.services ≡ some so
      → (fetch_endpoints d so.spec.namespace so.spec.service_name w).0 ≡ ok eps
      → update_endpoints d key h w ≡ (
        apply_endpoints d key so eps h,
        (fetch_endpoints d so.spec.namespace so.spec.service_name w).1,
      )
  unfolding update_endpoints
  update_endpoints-fetched key h w so eps e q = rw (e, update_endpoints) (rw (q, update_endpoints))

  update_endpoints-failed :
      (key : Str) (h : EndpointsHub) (w : World) (so : ServiceObject) (x : EtcdError)
      → get key h.services ≡ some so
      → (fetch_endpoints d so.spec.namespace so.spec.service_name w).0 ≡ err x
      → (update_endpoints d key h w).0 ≡ h
  unfolding update_endpoints
  update_endpoints-failed key h w so x e q = rw (e, update_endpoints) (rw (q, update_endpoints))

  pub apply_endpoints-observers :
      (key j : Str) (h : EndpointsHub) (so found : ServiceObject) (eps : Endpoints)
      → get key h.services ≡ some found
      → get j h.services ≡ some so
      → (so' : ServiceObject) × (get j (apply_endpoints d key found eps h).services ≡ some so')
        × (so'.spec ≡ so.spec)
        × (so'.observers ≡ so.observers)
  unfolding apply_endpoints
  apply_endpoints-observers key j h so found eps there e =
      let new : ServiceObject = record found {
        endpoints = skypb_endpoints_to_map found.spec eps;
      } in
      elim (Bool-cases (key =? j)) [
        | inl same ↦
            let one : found ≡ so =
              some-injective found so
                (sym there ∙ ap (λ k. get k h.services) ((=?_iff key j).0 same) ∙ e) in
            (
              new,
              get-put key j new h.services ∙ rw same,
              ap (λ (r : ServiceObject). r.spec) one,
              ap (λ (r : ServiceObject). r.observers) one,
            )
        | inr differs ↦ (so, get-put key j new h.services ∙ rw differs e, refl, refl)
      ]

  fetched_cases :
      (r : Fetched Endpoints) → ((x : EtcdError) × (r ≡ err x)) ⊎ ((eps : Endpoints) × (r ≡ ok eps))
  fetched_cases (ok eps) = inr (eps, refl)
  fetched_cases (err x) = inl (x, refl)

  -- An update of a service keeps the spec and the observers of every service object.
  pub update_endpoints-observers :
      (key j : Str) (h : EndpointsHub) (w : World) (so : ServiceObject)
      → get j h.services ≡ some so
      → (so' : ServiceObject) × (get j (update_endpoints d key h w).0.services ≡ some so')
        × (so'.spec ≡ so.spec)
        × (so'.observers ≡ so.observers)
  update_endpoints-observers key j h w so e = elim (Option-cases (get key h.services)) [
    | inl none_there ↦
        (so, unfold update_endpoints in rw (none_there, update_endpoints) e, refl, refl)
    | inr (found, there) ↦
        elim (fetched_cases (fetch_endpoints d found.spec.namespace found.spec.service_name w).0) [
          | inl (x, q) ↦ (so, rw (update_endpoints-failed key h w found x there q) e, refl, refl)
          | inr (eps, q) ↦
              rw (update_endpoints-fetched key h w found eps there q)
                (apply_endpoints-observers key j h so found eps there e)
        ]
  ]

  -- When the endpoints that an update fetches are none, its notifications leave the hub as it is
  -- whenever they run: no observer is told that the last endpoint has gone.
  pub update_endpoints-silent :
      (key : Str) (h : EndpointsHub) (w : World) (so : ServiceObject) (eps : Endpoints)
      → get key h.services ≡ some so
      → (fetch_endpoints d so.spec.namespace so.spec.service_name w).0 ≡ ok eps
      → (skypb_endpoints_to_slice unset_op so.spec eps).inst_endpoints ≡ []
      → (new : List Notification) × ((update_endpoints d key h w).0.notifications
          ≡ h.notifications ++ new)
        × ((n : Notification) (stop_wins : Bool) (later : EndpointsHub)
            → In n new
            → notify stop_wins n later ≡ some later)
  update_endpoints-silent key h w so eps there q none_left =
      let full = skypb_endpoints_to_slice unset_op so.spec eps in
      (
        notifications_for full so.observers,
        ap (λ (r : EndpointsHub × World). r.0.notifications)
              (update_endpoints-fetched key h w so eps there q)
            ∙ (unfold apply_endpoints in refl),
        λ n stop_wins later i.
            notifications_for-silent full so.observers stop_wins n later none_left i,
      )

-- The notifications tell the observers of the endpoints, one after another and each once.
pub data Tell (eps : ServiceEndpoints) : List ClientObject → List Notification → Type 0 where
  nobody : Tell eps [] []
  one_more :
      {ob : ClientObject} {obs : List ClientObject} {n : Notification} {ns : List Notification}
      → n.observer ≡ ob
      → n.endpoints ≡ eps
      → Tell eps obs ns
      → Tell eps (ob ∷ obs) (n ∷ ns)

-- The slice of the endpoints that the object of a service says.
abbrev pub IsSlice : Operation → ServiceSpec → Endpoints → ServiceEndpoints → Type 0
IsSlice unset spec eps slice =
    (slice.spec ≡ spec)
    × ((ep : InstanceEndpoint) → In ep slice.inst_endpoints ↔ IsServed unset spec eps ep)
