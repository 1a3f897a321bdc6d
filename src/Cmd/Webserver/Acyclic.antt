-- ===== src/Cmd/Webserver/Acyclic.antt =====
-- When the printing of the tree of calls ends: on a graph without a cycle of two services or more, and
-- on no other.
use skylb.Prelude.{
  ℕ, zero, suc, ◌+◌, ◌<◌, ◌≤◌, ◌≡◌, ◌≢◌, refl, ◌⊎◌, inl, inr, false, [], ◌∷◌, ◌++◌, Option, none,
  some, Str, arith, ◌=?◌, =?_iff, str_eq, In, Bool-cases,
}
use skylb.Go.Maps.{GoMap}
use skylb.Hub.Graph.{CallPair, CallerPairs}
use skylb.Cmd.Webserver.Tree.{tree_line, calls_of, and_text, visit_calls, traverse_calls}

-- Every call of another service leads to one of lower rank.
abbrev pub IsRanked : GoMap Str CallerPairs → (Str → ℕ) → Type 0
IsRanked calling rank =
    (caller : Str) (cp : CallPair)
    → In cp (calls_of calling caller)
    → (cp.callee ≡ caller) ⊎ (rank cp.callee < rank caller)

-- What a visit of each call returns, for every fuel above a bound.
abbrev Settles : (ℕ → Option Str) → ℕ → Type 0
Settles run bound = (text : Str) × ((fuel : ℕ) → bound ≤ fuel → run fuel ≡ some text)

visit_calls-Settles :
    (visit : ℕ → Str → Option Str) (bound : ℕ) (caller : Str) (cps : CallerPairs)
    → ((cp : CallPair)
        → In cp cps
        → (cp.callee ≡ caller) ⊎ Settles (λ fuel. visit fuel cp.callee) bound)
    → Settles (λ fuel. visit_calls (visit fuel) caller cps) bound
unfolding visit_calls
visit_calls-Settles visit bound caller [] h = ([], λ fuel le. refl)
visit_calls-Settles visit bound caller (cp ∷ cps) h =
    let rest = visit_calls-Settles visit bound caller cps (λ c m. h c (inr m)) in
    elim (Bool-cases (cp.callee =? caller)) [
      | inl t ↦ (rest.0, λ fuel le. rw t (rest.1 fuel le))
      | inr f ↦ elim (h cp (inl refl)) [
        | inl e ↦ absurd (ground (arith, =?_iff cp.callee caller))
        | inr s ↦ (s.0 ++ rest.0, λ fuel le. rw (f, s.1 fuel le, rest.1 fuel le) refl)
      ]
    ]

settled :
    (calling : GoMap Str CallerPairs) (caller : Str) (level bound : ℕ)
    (rest : Settles
      (λ fuel.
        visit_calls
          (λ callee. traverse_calls fuel calling callee (level + 1))
          caller
          (calls_of calling caller))
      bound)
    (fuel : ℕ)
    → suc bound ≤ fuel
    → traverse_calls fuel calling caller level ≡ some (tree_line caller level ++ rest.0)
unfolding traverse_calls
settled calling caller level bound rest zero le = absurd (omega arith)
settled calling caller level bound rest (suc fuel) le = rw (rest.1 fuel (omega arith)) refl

traverse-below :
    (calling : GoMap Str CallerPairs) (rank : Str → ℕ)
    → IsRanked calling rank
    → (bound : ℕ) (caller : Str) (level : ℕ) → rank caller < bound
    → Settles (λ fuel. traverse_calls fuel calling caller level) bound
unfolding traverse_calls
traverse-below calling rank h zero caller level lt = absurd (omega arith)
traverse-below calling rank h (suc bound) caller level lt =
    let rest =
      visit_calls-Settles (λ fuel callee. traverse_calls fuel calling callee (level + 1)) bound
        caller (calls_of calling caller)
        (λ cp m. elim (h caller cp m) [
          | inl e ↦ inl e
          | inr l ↦ inr (traverse-below calling rank h bound cp.callee (level + 1) (omega arith))
        ]) in
    (tree_line caller level ++ rest.0, settled calling caller level bound rest)

-- On a graph where every call of another service leads to one of lower rank, the printing from a
-- service ends with a text: fuel above the rank of the service is enough, and more gives the same text.
pub traverse_calls-ends :
    (calling : GoMap Str CallerPairs) (rank : Str → ℕ) (caller : Str) (level fuel extra : ℕ)
    → IsRanked calling rank
    → rank caller < fuel
    → (text : Str) × (traverse_calls fuel calling caller level ≡ some text)
      × (traverse_calls (fuel + extra) calling caller level ≡ some text)
traverse_calls-ends calling rank caller level fuel extra h lt =
    let s = traverse-below calling rank h fuel caller level lt in
    (s.0, s.1 fuel (omega arith), s.1 (fuel + extra) (omega arith))

not-equal : (s t : Str) → s ≢ t → (s =? t) ≡ false
not-equal s t h = ground (arith, =?_iff s t)

and_text-none : (o : Option Str) → and_text o none ≡ none
and_text-none none = refl
and_text-none (some text) = refl

visit_calls-endless :
    (visit : Str → Option Str) (caller : Str) (cp : CallPair) (cps : CallerPairs)
    → In cp cps
    → cp.callee ≢ caller
    → visit cp.callee ≡ none
    → visit_calls visit caller cps ≡ none
unfolding visit_calls
visit_calls-endless visit caller cp [] m d e = absurd m.1
visit_calls-endless visit caller cp (c ∷ cps) (inl q) d e =
    rw (← q) (rw (not-equal cp.callee caller d, e) refl)
visit_calls-endless visit caller cp (c ∷ cps) (inr m) d e =
    let rest = visit_calls-endless visit caller cp cps m d e in
    elim (Bool-cases (c.callee =? caller)) [
      | inl t ↦ rw t rest
      | inr f ↦ rw (f, rest) (and_text-none (visit c.callee))
    ]

-- A set of services each of which calls another of the set.
abbrev pub CallsOnward : GoMap Str CallerPairs → (Str → Type 0) → Type 0
CallsOnward calling set =
    (caller : Str)
    → set caller
    → (cp : CallPair) × In cp (calls_of calling caller) × (cp.callee ≢ caller) × set cp.callee

-- From a service of such a set, as of a cycle of two services, the printing ends with no fuel.
pub traverse_calls-endless :
    (calling : GoMap Str CallerPairs) (set : Str → Type 0) (fuel : ℕ) (caller : Str) (level : ℕ)
    → CallsOnward calling set
    → set caller
    → traverse_calls fuel calling caller level ≡ none
unfolding traverse_calls
traverse_calls-endless calling set zero caller level h s = refl
traverse_calls-endless calling set (suc fuel) caller level h s =
    let (cp, m, d, next) = h caller s in
    rw
      (visit_calls-endless (λ callee. traverse_calls fuel calling callee (level + 1)) caller cp
        (calls_of calling caller) m d
        (traverse_calls-endless calling set fuel cp.callee (level + 1) h next))
      refl
