-- ===== src/Hub/Endpoints/Diff.antt =====
-- hub/endpoints.go: a client that applies the difference of two maps to the first holds the
-- endpoints of the second.
use skylb.Prelude.{
  ◌≡◌, refl, Bool, true, false, not, ◌&&◌, ◌||◌, List, [], ◌∷◌, ◌++◌, Option, none, some, Str, ℤ,
  pos, arith, if◌then◌else◌, =?_iff, str_eq,
}
use skylb.Go.Maps.{GoSet, get, put, delete, get-put, get-delete, HasKeysOnce}
use skylb.Api.{Operation, InstanceEndpoint, ServiceSpec}
use skylb.Hub.Endpoints.{
  ServiceEndpoint, to_string, EndpointsMap, common_keys, deletions, additions, diff_endpoints,
}

-- The endpoint of an update, without its operation.
abbrev pub endpoint_of : InstanceEndpoint → ServiceEndpoint
endpoint_of ep = record { ip = ep.host; port = ep.port; weight = ep.weight }

-- What an update means for the map of a client.
abbrev pub apply_update : InstanceEndpoint → EndpointsMap → EndpointsMap
apply_update ep m = elim ep.op [
  | Operation.add ↦ put (to_string (endpoint_of ep)) (endpoint_of ep) m
  | Operation.delete ↦ delete (to_string (endpoint_of ep)) m
]

pub apply_updates : List InstanceEndpoint → EndpointsMap → EndpointsMap
apply_updates [] m = m
apply_updates (ep ∷ eps) m = apply_updates eps (apply_update ep m)

-- Each entry stands under the text of its endpoint.
abbrev pub IsKeyed : EndpointsMap → Type 0
IsKeyed [] = Unit
IsKeyed ((k, v) ∷ m) = (k ≡ to_string v) × IsKeyed m

abbrev has {ℓ} : {A : Type ℓ} → Option A → Bool
has none = false
has (some a) = true

apply_updates-append :
    (xs ys : List InstanceEndpoint) (m : EndpointsMap)
    → apply_updates (xs ++ ys) m ≡ apply_updates ys (apply_updates xs m)
unfolding apply_updates
apply_updates-append [] ys m = refl
apply_updates-append (x ∷ xs) ys m = apply_updates-append xs ys (apply_update x m)

get-common_keys :
    (last now : EndpointsMap) (common : GoSet Str) (k : Str)
    → has (get k (common_keys last now common))
      ≡ (has (get k common) || (has (get k now) && has (get k last)))
unfolding common_keys get
get-common_keys last [] common k = ground arith
get-common_keys last ((j, v) ∷ now) common k = ground (
  arith,
  get-common_keys last now common k,
  get-common_keys last now (put j tt common) k,
  get-put j k tt common,
  =?_iff j k,
)

-- The text of an endpoint is that of its address and port.
to_string-endpoint_of :
    (v : ServiceEndpoint) (w : ℤ)
    → to_string (record { ip = v.ip; port = v.port; weight = w }) ≡ to_string v
unfolding to_string
to_string-endpoint_of v w = refl

get-deletions :
    (common : GoSet Str) (l m : EndpointsMap) (k : Str)
    → IsKeyed l
    → get k (apply_updates (deletions common l) m)
      ≡ (if has (get k l) && not (has (get k common)) then none else get k m)
unfolding apply_updates deletions get
get-deletions common [] m k h = refl
get-deletions common ((j, v) ∷ l) m k h = ground (
  arith,
  get-deletions common l m k h.1,
  get-deletions common l (delete j m) k h.1,
  get-delete j k m,
  to_string-endpoint_of v (pos 0),
  =?_iff j k,
)

get-additions :
    (common : GoSet Str) (l m : EndpointsMap) (k : Str)
    → IsKeyed l
    → HasKeysOnce l
    → get k (apply_updates (additions common l) m)
      ≡ (if has (get k l) && not (has (get k common)) then get k l else get k m)
unfolding apply_updates additions get
get-additions common [] m k h u = refl
get-additions common ((j, v) ∷ l) m k h u = ground (
  arith,
  get-additions common l m k h.1 u.1,
  get-additions common l (put j v m) k h.1 u.1,
  get-put j k v m,
  =?_iff j k,
)

-- An endpoint that the client holds keeps its weight; a new one comes as it is.
abbrev pub updated : Option ServiceEndpoint → Option ServiceEndpoint → Option ServiceEndpoint
updated held none = none
updated none (some v) = some v
updated (some w) (some v) = some w

-- A client that holds `last` and applies the updates of diff_endpoints holds exactly the endpoints
-- of `now`: those of `last` that are gone are deleted, those that are new are added as they are in
-- `now`, and those that both have stay as they are in `last`.
pub apply_updates-diff_endpoints :
    (spec : ServiceSpec) (last now : EndpointsMap) (k : Str)
    → IsKeyed last
    → IsKeyed now
    → HasKeysOnce now
    → get k (apply_updates (diff_endpoints spec last now).inst_endpoints last)
      ≡ updated (get k last) (get k now)
unfolding diff_endpoints get
apply_updates-diff_endpoints spec last now k h h' u =
    let common = common_keys last now [] in
    rw (apply_updates-append (deletions common last) (additions common now) last) (
      ground (
        arith,
        get-additions common now (apply_updates (deletions common last) last) k h' u,
        get-deletions common last last k h,
        get-common_keys last now [] k,
      ))
