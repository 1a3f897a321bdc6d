-- ===== src/Hub/Endpoints/Ports.antt =====
-- hub/hub.go: findPort and the weight of an address, by what they look for.
use skylb.Prelude.{
  ◌≡◌, ◌≢◌, refl, sym, ap, ◌∙◌, ◌⊎◌, inl, inr, true, false, List, [], ◌∷◌, ◌++◌, none, some, Str, ℤ,
  pos, ◌=?◌, =?_iff, str_eq, to_int32, ◌↔◌, Bool-cases, Option-cases, In,
}
use skylb.Go.Strconv.{atoi}
use skylb.Go.Maps.{GoMap, get}
use skylb.Api.{EndpointPort}
use skylb.Hub.Key.{calculate_weight_key}
use skylb.Hub.Endpoints.{find_port, label_weight}

-- The first entry with the name has the port.
abbrev pub IsPort : Str → List EndpointPort → ℤ → Type 0
IsPort name ports port =
    (before : List EndpointPort) × (p : EndpointPort) × (after : List EndpointPort) × (ports
      ≡ before ++ p ∷ after)
    × ((q : EndpointPort) → In q before → q.name ≢ name)
    × (p.name ≡ name)
    × (p.port ≡ port)

find_port-IsPort :
    (name : Str) (ports : List EndpointPort)
    → find_port ports name ≢ pos 0
    → IsPort name ports (find_port ports name)
unfolding find_port
find_port-IsPort name [] n = absurd (n refl)
find_port-IsPort name (p ∷ ports) n = elim (Bool-cases (p.name =? name)) [
  | inl t ↦ rw t ([], p, ports, refl, λ q i. absurd i.1, (=?_iff p.name name).0 t, refl)
  | inr f ↦
      let (before, p', after, e, others, named, port) = find_port-IsPort name ports (rw f at n) in
      rw f (
        p ∷ before,
        p',
        after,
        ap (λ (ps : List EndpointPort). p ∷ ps) e,
        λ q i same. elim i [
          | inl here ↦
              let t : (p.name =? name) ≡ true =
                (=?_iff p.name name).1 (ap (λ (x : EndpointPort). x.name) (sym here) ∙ same) in
              cc
          | inr later ↦ others q later same
        ],
        named,
        port,
      )
]

found_first :
    (name : Str) (before : List EndpointPort) (p : EndpointPort) (after : List EndpointPort)
    → ((q : EndpointPort) → In q before → q.name ≢ name)
    → p.name ≡ name
    → find_port (before ++ p ∷ after) name ≡ p.port
unfolding find_port
found_first name [] p after others named = rw ((=?_iff p.name name).1 named) refl
found_first name (q ∷ before) p after others named = elim (Bool-cases (q.name =? name)) [
  | inl t ↦ absurd (others q (inl refl) ((=?_iff q.name name).0 t))
  | inr f ↦ rw f (found_first name before p after (λ r i. others r (inr i)) named)
]

find_port-of_IsPort :
    (name : Str) (ports : List EndpointPort) (port : ℤ)
    → IsPort name ports port
    → find_port ports name ≡ port
find_port-of_IsPort name ports port (before, p, after, e, others, named, at_port) =
    rw e (found_first name before p after others named ∙ at_port)

-- A port other than 0 is found where the first entry with the name has it.
pub find_port_iff :
    (name : Str) (ports : List EndpointPort) (port : ℤ)
    → (IsPort name ports port × (port ≢ pos 0))
      ↔ ((find_port ports name ≡ port) × (find_port ports name ≢ pos 0))
find_port_iff name ports port = (
  λ (p, n). let e = find_port-of_IsPort name ports port p in (e, λ z. n (sym e ∙ z)),
  λ (e, n). (rw (← e) (find_port-IsPort name ports n), λ z. n (e ∙ z)),
)

-- The weight is the number in the label of the address and the port, or 0 where there is no label or
-- no number in it.
abbrev pub IsWeight : GoMap Str Str → Str → ℤ → ℤ → Type 0
IsWeight labels ip port weight =
    ((get (calculate_weight_key ip port) labels ≡ none) × (weight ≡ pos 0))
    ⊎ ((text : Str) × (get (calculate_weight_key ip port) labels ≡ some text)
        × ((((atoi text).failed ≡ true) × (weight ≡ pos 0))
            ⊎ (((atoi text).failed ≡ false) × (weight ≡ to_int32 (atoi text).value))))

label_weight-IsWeight :
    (labels : GoMap Str Str) (ip : Str) (port : ℤ)
    → IsWeight labels ip port (label_weight labels ip port)
unfolding label_weight
label_weight-IsWeight labels ip port =
    elim (Option-cases (get (calculate_weight_key ip port) labels)) [
      | inl q ↦ inl (q, rw q refl)
      | inr (text, q) ↦ elim (Bool-cases (atoi text).failed) [
        | inl t ↦ inr (text, q, inl (t, rw (q, t) refl))
        | inr f ↦ inr (text, q, inr (f, rw (q, f) refl))
      ]
    ]

label_weight-of_IsWeight :
    (labels : GoMap Str Str) (ip : Str) (port weight : ℤ)
    → IsWeight labels ip port weight
    → weight ≡ label_weight labels ip port
unfolding label_weight
label_weight-of_IsWeight labels ip port weight (inl (q, e)) = rw (q, e) refl
label_weight-of_IsWeight labels ip port weight (inr (text, q, inl (t, e))) = rw (q, t, e) refl
label_weight-of_IsWeight labels ip port weight (inr (text, q, inr (f, e))) = rw (q, f, e) refl

pub label_weight_iff :
    (labels : GoMap Str Str) (ip : Str) (port weight : ℤ)
    → (weight ≡ label_weight labels ip port) ↔ IsWeight labels ip port weight
label_weight_iff labels ip port weight = (
  λ e. rw e (label_weight-IsWeight labels ip port),
  label_weight-of_IsWeight labels ip port weight,
)
