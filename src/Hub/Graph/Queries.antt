-- ===== src/Hub/Graph/Queries.antt =====
-- hub/svcgraph.go: what FindRoots finds in the graph.
use mathlib.Core.Path.{subst}
use skylb.Prelude.{
  ◌≡◌, refl, ap, ◌∙◌, ◌↔◌, ◌⊎◌, Bool, true, false, [], ◌∷◌, Str, arith, Bool-cases, ◌=?◌, =?_iff,
  =?_refl, str_eq, inl, inr, In,
}
use skylb.Go.Maps.{GoMap, get, get, put, get-put}
use skylb.Hub.Graph.{
  CallPair, CallerPairs, Graph, mark_called, all_called, or_false, roots_of, find_roots,
}

-- Some caller in the map calls c.
pub record IsCalled (m : GoMap Str CallerPairs) (c : Str) : Type 0 where
  pub by : Str
  pub pairs : CallerPairs
  pub pair : CallPair
  pub entry : In (by, pairs) m
  pub call : In pair pairs
  pub names : pair.callee ≡ c

pub record IsCaller (m : GoMap Str CallerPairs) (c : Str) : Type 0 where
  pub pairs : CallerPairs
  pub entry : In (c, pairs) m

abbrev IsMarked : GoMap Str Bool → Str → Type 0
IsMarked called c = or_false (get c called) ≡ true

put-IsMarked :
    (k c : Str) (called : GoMap Str Bool) → IsMarked called c → IsMarked (put k true called) c
put-IsMarked k c called e = elim (Bool-cases (k =? c)) [
  | inl y ↦ rw (get-put k c true called) (rw y)
  | inr n ↦ rw (get-put k c true called) (rw n e)
]

mark_called-keeps :
    (cps : CallerPairs) (called : GoMap Str Bool) (c : Str)
    → IsMarked called c
    → IsMarked (mark_called cps called) c
unfolding mark_called
mark_called-keeps [] called c e = e
mark_called-keeps (cp ∷ cps) called c e =
    mark_called-keeps cps (put cp.callee true called) c (put-IsMarked cp.callee c called e)

mark_called-marks :
    (cps : CallerPairs) (called : GoMap Str Bool) (cp : CallPair)
    → In cp cps
    → IsMarked (mark_called cps called) cp.callee
unfolding mark_called
mark_called-marks [] called cp i = absurd i.1
mark_called-marks (x ∷ cps) called cp (inl e) =
    mark_called-keeps cps (put x.callee true called) cp.callee
      (rw e (rw (get-put x.callee x.callee true called) (rw (=?_refl x.callee))))
mark_called-marks (x ∷ cps) called cp (inr i) =
    mark_called-marks cps (put x.callee true called) cp i

mark_called-cases :
    (cps : CallerPairs) (called : GoMap Str Bool) (c : Str)
    → IsMarked (mark_called cps called) c
    → IsMarked called c ⊎ ((cp : CallPair) × In cp cps × (cp.callee ≡ c))
unfolding mark_called
mark_called-cases [] called c e = inl e
mark_called-cases (x ∷ cps) called c e =
    elim (mark_called-cases cps (put x.callee true called) c e) [
      | inr (cp, i, q) ↦ inr (cp, inr i, q)
      | inl marked ↦ elim (Bool-cases (x.callee =? c)) [
        | inl y ↦ inr (x, inl refl, (=?_iff x.callee c).0 y)
        | inr n ↦ inl (rw (get-put x.callee c true called, n) at marked)
      ]
    ]

all_called-keeps :
    (m : GoMap Str CallerPairs) (called : GoMap Str Bool) (c : Str)
    → IsMarked called c
    → IsMarked (all_called m called) c
unfolding all_called
all_called-keeps [] called c e = e
all_called-keeps ((k, cps) ∷ m) called c e =
    all_called-keeps m (mark_called cps called) c (mark_called-keeps cps called c e)

all_called-marks :
    (m : GoMap Str CallerPairs) (called : GoMap Str Bool) (by : Str) (pairs : CallerPairs)
    (pair : CallPair)
    → In (by, pairs) m
    → In pair pairs
    → IsMarked (all_called m called) pair.callee
unfolding all_called
all_called-marks [] called by pairs pair i j = absurd i.1
all_called-marks ((k, cps) ∷ m) called by pairs pair (inl e) j =
    all_called-keeps m (mark_called cps called) pair.callee
      (mark_called-marks cps called pair (rw (← ap (λ (t : Str × CallerPairs). t.1) e) j))
all_called-marks ((k, cps) ∷ m) called by pairs pair (inr i) j =
    all_called-marks m (mark_called cps called) by pairs pair i j

all_called-cases :
    (m : GoMap Str CallerPairs) (called : GoMap Str Bool) (c : Str)
    → IsMarked (all_called m called) c
    → IsMarked called c ⊎ IsCalled m c
unfolding all_called
all_called-cases [] called c e = inl e
all_called-cases ((k, cps) ∷ m) called c e =
    elim (all_called-cases m (mark_called cps called) c e) [
      | inr h ↦ inr (record {
        by = h.by;
        pairs = h.pairs;
        pair = h.pair;
        entry = inr h.entry;
        call = h.call;
        names = h.names;
      })
      | inl marked ↦ elim (mark_called-cases cps called c marked) [
        | inl before ↦ inl before
        | inr (cp, i, q) ↦
            inr (record { by = k; pairs = cps; pair = cp; entry = inl refl; call = i; names = q })
      ]
    ]

roots_of-In :
    (called : GoMap Str Bool) (m : GoMap Str CallerPairs) (c : Str) (pairs : CallerPairs)
    → In (c, pairs) m
    → or_false (get c called) ≡ false
    → In c (roots_of called m)
unfolding roots_of
roots_of-In called [] c pairs i e = absurd i.1
roots_of-In called ((k, cps) ∷ m) c pairs (inl q) e =
    rw (← ap (λ (t : Str × CallerPairs). t.0) q) (rw e (inl refl))
roots_of-In called ((k, cps) ∷ m) c pairs (inr i) e = elim (Bool-cases (or_false (get k called))) [
  | inl y ↦ rw y (roots_of-In called m c pairs i e)
  | inr n ↦ rw n (inr (roots_of-In called m c pairs i e))
]

roots_of-cases :
    (called : GoMap Str Bool) (m : GoMap Str CallerPairs) (c : Str)
    → In c (roots_of called m)
    → IsCaller m c × (or_false (get c called) ≡ false)
unfolding roots_of
roots_of-cases called [] c i = absurd i.1
roots_of-cases called ((k, cps) ∷ m) c i = elim (Bool-cases (or_false (get k called))) [
  | inl y ↦
      let h = roots_of-cases called m c (rw y at i) in
      (record { pairs = h.0.pairs; entry = inr h.0.entry }, h.1)
  | inr n ↦ elim (rw n at i) [
    | inl e ↦ (
      record { pairs = cps; entry = inl (ap (λ t. (t, cps)) e) },
      ap (λ t. or_false (get t called)) e ∙ n,
    )
    | inr j ↦
        let h = roots_of-cases called m c j in
        (record { pairs = h.0.pairs; entry = inr h.0.entry }, h.1)
  ]
]

-- The roots are the callers in the simple calling map that no caller in it calls.
pub find_roots_lem :
    (g : Graph) (c : Str)
    → In c (find_roots g) ↔ (IsCaller g.simple_calling_map c × ¬ IsCalled g.simple_calling_map c)
unfolding find_roots get
find_roots_lem g c =
    let m = g.simple_calling_map in
    let called = all_called m [] in
    (
      λ i.
          let h = roots_of-cases called m c i in
          (
            h.0,
            λ k. ground (
              arith,
              h.1,
              subst (IsMarked called) k.names
                  (all_called-marks m [] k.by k.pairs k.pair k.entry k.call),
            ),
          ),
      λ (caller, free).
          roots_of-In called m c caller.pairs caller.entry
            (elim (Bool-cases (or_false (get c called))) [
              | inr n ↦ n
              | inl y ↦ elim (all_called-cases m [] c y) [
                | inl e ↦ absurd (ground (arith, e))
                | inr h ↦ absurd (free h)
              ]
            ]),
    )
