-- ===== src/Cmd/Shell.antt =====
-- cmd/skylb-command/cmd/main.go: the interactive shell. A command takes the variables of the package and
-- the state of the cluster. What is printed is left out. `current` is the place of the selected service
-- in `services`: main lists services, which replaces them, only while none is selected.
pub mod Instances
pub mod Commands
pub mod Places
pub mod Selection
pub mod Keys
use skylb.Prelude.{
  ℕ, ◌<◌, ◌≡◌, Bool, List, [], ◌∷◌, Option, none, some, Str, ℤ, pos, negsuc, ltb, if◌then◌else◌,
  length, get_elem?,
}
use skylb.Go.Strings.{lit}
use skylb.Go.Text.{str_ltb}
use skylb.Api.{Node, node_key, EtcdError, Response, Fetched}
use skylb.Deps.{Deps}

pub record Service : Type 0 where
  pub name : Str
  pub namespace : Str
  pub endpoints : List Str

pub record Shell : Type 0 where
  pub services : List Service
  pub current : Option ℕ
  pub port_name : Str
  pub prompt : Str

-- The client, and what the shell uses besides: a set of a directory that must not be there, a delete,
-- and the line that the user types to a prompt.
pub record ShellDeps : Type 1 where
  pub deps : Deps
  pub create_dir : Str → deps.World → deps.World
  pub remove : Str → deps.World → deps.World
  pub ask : Str → deps.World → Option Str × deps.World

pub data Outcome {ℓ} (W : Type ℓ) : Type ℓ where
  goes_on : Shell → W → Outcome W
  quits : Outcome W
  panics : Outcome W

abbrev pub prefix : Str
prefix = lit "/registry/services/endpoints"

abbrev pub default_prompt : Str
default_prompt = lit ">> "

-- The variables at the start.
abbrev pub start_shell : Shell
start_shell = record {
  services = [];
  current = none;
  port_name = lit "grpc";
  prompt = default_prompt;
}

abbrev service_at : List Service → Option ℕ → Option Service
service_at services none = none
service_at services (some i) = get_elem? services i

-- nodeSlice.Less of sort.go: nodes are sorted by key.
abbrev pub node_less : Node → Node → Bool
node_less a b = str_ltb (node_key a) (node_key b)

-- currentService
pub current_service : Shell → Option Service
current_service s = service_at s.services s.current

-- A place in a slice, where the number is one.
abbrev pub index_in : ℤ → ℕ → Option ℕ
index_in (pos n) len = if ltb n len then some n else none
index_in (negsuc n) len = none

abbrev pub set_endpoints_at : ℕ → List Str → List Service → List Service
set_endpoints_at i eps [] = []
set_endpoints_at ℕ.zero eps (svc ∷ svcs) =
    record { name = svc.name; namespace = svc.namespace; endpoints = eps } ∷ svcs
set_endpoints_at (ℕ.suc i) eps (svc ∷ svcs) = svc ∷ set_endpoints_at i eps svcs
