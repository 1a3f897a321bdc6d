-- ===== src/Cmd/Shell/Places.antt =====
-- The place of the selected service in the list of the services of the shell.
use skylb.Prelude.{
  ℕ, zero, suc, ◌<◌, ◌≡◌, refl, ap, sym, ◌∙◌, ◌++◌, get_elem?, Bool, true, false, List, [], ◌∷◌,
  Option, none, some, Str, ℤ, pos, negsuc, arith, if◌then◌else◌, length, str_eq,
}
use skylb.Go.Strconv.{atoi}
use skylb.Cmd.Shell.{
  Service, Shell, Outcome, goes_on, panics, quits, index_in, set_endpoints_at, default_prompt,
}
use skylb.Cmd.Shell.Commands.{select_service, selected, get_at}

-- The place of the current service, if any, is in the list.
abbrev pub IsPlace : Option ℕ → List Service → Type 0
IsPlace none services = Unit
IsPlace (some i) services = i < length services

-- The prompt while a service is selected, and while none is.
abbrev pub prompt_of : Option Service → Str
prompt_of none = default_prompt
prompt_of (some svc) = svc.name ++ b' ' ∷ default_prompt

-- That, and the prompt names the current service.
abbrev pub IsSound : Shell → Type 0
IsSound s = IsPlace s.current s.services × (s.prompt ≡ prompt_of (get_at s.services s.current))

prompt-set_endpoints_at :
    (i k : ℕ) (eps : List Str) (services : List Service)
    → prompt_of (get_elem? (set_endpoints_at i eps services) k) ≡ prompt_of (get_elem? services k)
prompt-set_endpoints_at i k eps [] = refl
prompt-set_endpoints_at zero zero eps (svc ∷ svcs) = refl
prompt-set_endpoints_at zero (suc k) eps (svc ∷ svcs) = refl
prompt-set_endpoints_at (suc i) zero eps (svc ∷ svcs) = refl
prompt-set_endpoints_at (suc i) (suc k) eps (svc ∷ svcs) = prompt-set_endpoints_at i k eps svcs

-- While none is selected the services may be replaced.
pub replaced_services :
    (prompt : Str) (place : Option ℕ) (old new : List Service)
    → place ≡ none
    → prompt ≡ prompt_of (get_at old place)
    → IsPlace place new × (prompt ≡ prompt_of (get_at new place))
replaced_services prompt none old new e h = (tt, h)
replaced_services prompt (some i) old new e h = cc

length-set_endpoints_at :
    (i : ℕ) (eps : List Str) (services : List Service)
    → length (set_endpoints_at i eps services) ≡ length services
length-set_endpoints_at i eps [] = refl
length-set_endpoints_at zero eps (svc ∷ svcs) = refl
length-set_endpoints_at (suc i) eps (svc ∷ svcs) = ap suc (length-set_endpoints_at i eps svcs)

-- The outcome of a command that goes on is sound.
abbrev pub StaysSound : {W : Type 0} → Outcome W → Type 0
StaysSound (goes_on s w) = IsSound s
StaysSound quits = Unit
StaysSound panics = Unit

pub if-StaysSound :
    {W : Type 0} (b : Bool) (x y : Outcome W)
    → StaysSound x
    → StaysSound y
    → StaysSound (if b then x else y)
if-StaysSound true x y h k = h
if-StaysSound false x y h k = k

index_in-lt : (z : ℤ) (n i : ℕ) → index_in z n ≡ some i → i < n
index_in-lt (pos k) n i h = ground arith
index_in-lt (negsuc k) n i h = ground arith

-- A selection is of a place in the list.
selected-IsSound :
    (s : Shell) (place : Option ℕ) (svc : Option Service)
    → IsSound s
    → IsPlace place s.services
    → svc ≡ get_at s.services place
    → IsSound (selected s place svc)
selected-IsSound s none svc h k e = h
selected-IsSound s (some i) none h k e = h
selected-IsSound s (some i) (some svc) h k e = (k, ap prompt_of e)

index_in-IsPlace :
    (z : ℤ) (services : List Service) → IsPlace (index_in z (length services)) services
index_in-IsPlace (pos n) services = ground arith
index_in-IsPlace (negsuc n) services = tt

if-IsSound : (b : Bool) (s t : Shell) → IsSound s → IsSound t → IsSound (if b then s else t)
if-IsSound true s t h k = h
if-IsSound false s t h k = k

pub select_service-IsSound : (num : Str) (s : Shell) → IsSound s → IsSound (select_service num s)
unfolding select_service
select_service-IsSound num s h =
    let place = index_in (atoi num).value (length s.services) in
    if-IsSound (atoi num).failed s (selected s place (get_at s.services place)) h (
      selected-IsSound s place (get_at s.services place) h
        (index_in-IsPlace (atoi num).value s.services) refl)

pub set_endpoints_at-IsPlace :
    (prompt : Str) (place : Option ℕ) (i : ℕ) (eps : List Str) (services : List Service)
    → IsPlace place services × (prompt ≡ prompt_of (get_at services place))
    → IsPlace place (set_endpoints_at i eps services)
      × (prompt ≡ prompt_of (get_at (set_endpoints_at i eps services) place))
set_endpoints_at-IsPlace prompt none i eps services h = h
set_endpoints_at-IsPlace prompt (some k) i eps services h = (
  rw (length-set_endpoints_at i eps services) h.0,
  h.1 ∙ sym (prompt-set_endpoints_at i k eps services),
)
