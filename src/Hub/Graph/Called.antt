-- ===== src/Hub/Graph/Called.antt =====
-- hub/svcgraph.go: GenCalledMap turns the simple calling map around.
use skylb.Prelude.{
  ◌≡◌, refl, ap, ◌∙◌, ◌↔◌, ◌⊎◌, List, [], ◌∷◌, ◌++◌, Str, if◌then◌else◌, Bool-cases, ◌=?◌, =?_iff,
  =?_refl, str_eq, inl, inr, In, In-append_left, In-append_right, In-append_cases,
}
use skylb.Go.Maps.{GoMap, get, put, get-put}
use skylb.Hub.Graph.{
  CallPair, CallerPairs, Graph, or_no_callers, add_caller, called_map_of, gen_called_map,
}

-- The caller calls the callee.
pub record IsCall (m : GoMap Str CallerPairs) (caller to : Str) : Type 0 where
  pub pairs : CallerPairs
  pub pair : CallPair
  pub entry : In (caller, pairs) m
  pub call : In pair pairs
  pub names : pair.callee ≡ to

abbrev pub callers_of : Str → GoMap Str (List Str) → List Str
callers_of to m = or_no_callers (get to m)

-- The map after one more call.
abbrev noted : Str → Str → GoMap Str (List Str) → GoMap Str (List Str)
noted caller to m = put to (or_no_callers (get to m) ++ caller ∷ []) m

callers_of-noted :
    (caller to k : Str) (m : GoMap Str (List Str))
    → callers_of k (noted caller to m)
      ≡ (if to =? k then callers_of to m ++ caller ∷ [] else callers_of k m)
callers_of-noted caller to k m =
    ap or_no_callers (get-put to k (or_no_callers (get to m) ++ caller ∷ []) m)
    ∙ elim (Bool-cases (to =? k)) [ inl y ↦ rw y | inr n ↦ rw n ]

noted-keeps :
    (caller to k x : Str) (m : GoMap Str (List Str))
    → In x (callers_of k m)
    → In x (callers_of k (noted caller to m))
noted-keeps caller to k x m i = rw (callers_of-noted caller to k m) (elim (Bool-cases (to =? k)) [
  | inl y ↦ rw y (In-append_left x (callers_of to m) (caller ∷ []) (rw (← (=?_iff to k).0 y) at i))
  | inr n ↦ rw n i
])

add_caller-keeps :
    (caller : Str) (cps : CallerPairs) (m : GoMap Str (List Str)) (k x : Str)
    → In x (callers_of k m)
    → In x (callers_of k (add_caller caller cps m))
unfolding add_caller
add_caller-keeps caller [] m k x i = i
add_caller-keeps caller (cp ∷ cps) m k x i =
    add_caller-keeps caller cps (noted caller cp.callee m) k x
      (noted-keeps caller cp.callee k x m i)

add_caller-adds :
    (caller : Str) (cps : CallerPairs) (m : GoMap Str (List Str)) (cp : CallPair)
    → In cp cps
    → In caller (callers_of cp.callee (add_caller caller cps m))
unfolding add_caller
add_caller-adds caller [] m cp i = absurd i.1
add_caller-adds caller (x ∷ cps) m cp (inl e) =
    add_caller-keeps caller cps (noted caller x.callee m) cp.callee caller (
      rw (ap (λ (p : CallPair). p.callee) e) (
        rw (callers_of-noted caller x.callee x.callee m, =?_refl x.callee)
          (In-append_right caller (callers_of x.callee m) (caller ∷ []) (inl refl))))
add_caller-adds caller (x ∷ cps) m cp (inr i) =
    add_caller-adds caller cps (noted caller x.callee m) cp i

add_caller-cases :
    (caller : Str) (cps : CallerPairs) (m : GoMap Str (List Str)) (k x : Str)
    → In x (callers_of k (add_caller caller cps m))
    → In x (callers_of k m) ⊎ ((x ≡ caller) × ((cp : CallPair) × In cp cps × (cp.callee ≡ k)))
unfolding add_caller
add_caller-cases caller [] m k x i = inl i
add_caller-cases caller (cp ∷ cps) m k x i =
    elim (add_caller-cases caller cps (noted caller cp.callee m) k x i) [
      | inr (e, (p, j, q)) ↦ inr (e, (p, inr j, q))
      | inl before ↦ elim (Bool-cases (cp.callee =? k)) [
        | inr n ↦ inl (rw (callers_of-noted caller cp.callee k m, n) at before)
        | inl y ↦
            elim (In-append_cases x (callers_of cp.callee m) (caller ∷ [])
              (rw (callers_of-noted caller cp.callee k m, y) at before)) [
                | inl old ↦ inl (rw ((=?_iff cp.callee k).0 y) at old)
                | inr (inl e) ↦ inr (e, (cp, inl refl, (=?_iff cp.callee k).0 y))
                | inr (inr z) ↦ absurd z.1
              ]
      ]
    ]

called_map_of-keeps :
    (s : GoMap Str CallerPairs) (m : GoMap Str (List Str)) (k x : Str)
    → In x (callers_of k m)
    → In x (callers_of k (called_map_of s m))
unfolding called_map_of
called_map_of-keeps [] m k x i = i
called_map_of-keeps ((c, cps) ∷ s) m k x i =
    called_map_of-keeps s (add_caller c cps m) k x (add_caller-keeps c cps m k x i)

called_map_of-adds :
    (s : GoMap Str CallerPairs) (m : GoMap Str (List Str)) (x : Str) (pairs : CallerPairs)
    (cp : CallPair)
    → In (x, pairs) s
    → In cp pairs
    → In x (callers_of cp.callee (called_map_of s m))
unfolding called_map_of
called_map_of-adds [] m x pairs cp i j = absurd i.1
called_map_of-adds ((c, cps) ∷ s) m x pairs cp (inl e) j =
    called_map_of-keeps s (add_caller c cps m) cp.callee x (
      rw (ap (λ (t : Str × CallerPairs). t.0) e)
        (add_caller-adds c cps m cp (rw (ap (λ (t : Str × CallerPairs). t.1) e) at j)))
called_map_of-adds ((c, cps) ∷ s) m x pairs cp (inr i) j =
    called_map_of-adds s (add_caller c cps m) x pairs cp i j

called_map_of-cases :
    (s : GoMap Str CallerPairs) (m : GoMap Str (List Str)) (k x : Str)
    → In x (callers_of k (called_map_of s m))
    → In x (callers_of k m) ⊎ IsCall s x k
unfolding called_map_of
called_map_of-cases [] m k x i = inl i
called_map_of-cases ((c, cps) ∷ s) m k x i =
    elim (called_map_of-cases s (add_caller c cps m) k x i) [
      | inr h ↦ inr (record {
        pairs = h.pairs;
        pair = h.pair;
        entry = inr h.entry;
        call = h.call;
        names = h.names;
      })
      | inl before ↦ elim (add_caller-cases c cps m k x before) [
        | inl older ↦ inl older
        | inr (e, (cp, j, q)) ↦ inr (record {
          pairs = cps;
          pair = cp;
          entry = inl (ap (λ t. (t, cps)) e);
          call = j;
          names = q;
        })
      ]
    ]

-- The callers that the called map has for a callee are exactly those that call it in the simple
-- calling map.
pub gen_called_map_lem :
    (g : Graph) (caller to : Str)
    → In caller (callers_of to (gen_called_map g)) ↔ IsCall g.simple_calling_map caller to
unfolding gen_called_map get
gen_called_map_lem g caller to = (
  λ i. elim (called_map_of-cases g.simple_calling_map [] to caller i) [
    | inl z ↦ absurd z.1
    | inr h ↦ h
  ],
  λ h.
      rw (← h.names)
        (called_map_of-adds g.simple_calling_map [] caller h.pairs h.pair h.entry h.call),
)
