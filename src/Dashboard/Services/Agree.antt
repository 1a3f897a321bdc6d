-- ===== src/Dashboard/Services/Agree.antt =====
-- Who calls whom on the page of a service: the two lists agree.
use skylb.Prelude.{
  ◌≡◌, ◌≢◌, refl, sym, ap, ◌∙◌, ◌↔◌, inl, inr, false, List, [], ◌∷◌, ◌++◌, Option, none, some, Str,
  ℤ, ◌=?◌, =?_iff, str_eq, All, In, In-append_cases, Bool-cases,
}
use skylb.Go.Maps.{GoMap, get}
use skylb.Api.{Node, node_key, node_nodes}
use skylb.Dashboard.Services.{
  ServiceRef, client_node, graph_prefix, is_skipped, extract_incomings, extract_outgoings,
}
use skylb.Dashboard.Services.Calls.{
  flat, collect-flat, flat_same, IsServiceNode, incoming, outgoing, incoming_iff, outgoing_iff,
  incomings, outgoings, incomings_at-lem, outgoings_at-lem, service_of, service_of-lem, caller,
  over_clients, All-map, not-equal, In-if_empty,
}

flat-elim :
    {A B : Type 0} (Q : Type 0) (h : A → List B) (b : B) (ns : List A)
    → ((n : A) → In b (h n) → Q)
    → In b (flat h ns)
    → Q
unfolding flat
flat-elim Q h b [] f m = absurd m.1
flat-elim Q h b (n ∷ ns) f m = elim (In-append_cases b (h n) (flat h ns) m) [
  | inl l ↦ f n l
  | inr r ↦ flat-elim Q h b ns f r
]

All-of : {A : Type 0} {P : A → Type 0} (ns : List A) → ((n : A) → P n) → All P ns
All-of [] f = tt
All-of (n ∷ ns) f = (f n, All-of ns f)

module _ (ids : GoMap Str ℤ) (name other : Str) (i j : ℤ) (name_id : get name ids ≡ some j)
    (other_id : get other ids ≡ some i) (shown : is_skipped other ≡ false)
    (differs : other ≢ name) where
  abbrev pub caller_ref : ServiceRef
  caller_ref = record { id = i; name = other }

  abbrev pub callee_ref : ServiceRef
  callee_ref = record { id = j; name = name }

  same_calls :
      (o : Option Node)
      → In caller_ref (over_clients ids (λ k. incoming ids name (caller ids name k)) o)
        ↔ In callee_ref (over_clients ids (λ k. outgoing ids other name (caller ids name k)) o)
  same_calls none = (λ m. absurd m.1, λ m. absurd m.1)
  same_calls (some c) = flat_same _ _ caller_ref callee_ref (node_nodes c) (
      All-of (node_nodes c) (λ k. (
        λ m.
            (outgoing_iff ids name other (caller ids name k) name j name_id shown).1 (
              (incoming_iff ids name other (caller ids name k) i other_id shown differs).0 m,
              refl,
            ),
        λ m.
            (incoming_iff ids name other (caller ids name k) i other_id shown differs).1
              ((outgoing_iff ids name other (caller ids name k) name j name_id shown).0 m).0,
      )))

  other_calls :
      (svc : Str) (o : Option Node)
      → In callee_ref (over_clients ids (λ k. outgoing ids other svc (caller ids svc k)) o)
      → svc ≡ name
  other_calls svc none m = absurd m.1
  other_calls svc (some c) m =
      flat-elim (svc ≡ name) (λ k. outgoing ids other svc (caller ids svc k)) callee_ref
        (node_nodes c)
        (λ k l. ((outgoing_iff ids name other (caller ids svc k) svc j name_id shown).0 l).1) m

  other_key :
      (n : Node) (svc : Str)
      → node_key n ≡ graph_prefix ++ svc
      → (node_key n =? (graph_prefix ++ name)) ≡ false
      → service_of ids n ≢ name
  other_key n svc e f q = cc (
    f,
    (=?_iff (node_key n) (graph_prefix ++ name)).1
        (e ∙ ap (◌++◌ graph_prefix) (sym (service_of-lem ids n svc e) ∙ q)),
  )

  same_at :
      (n : Node)
      → IsServiceNode n
      → In caller_ref (incomings ids name n) ↔ In callee_ref (outgoings ids other n)
  same_at n (svc, e, h) = elim (Bool-cases (node_key n =? (graph_prefix ++ name))) [
    | inl t ↦
        let s : service_of ids n ≡ name = service_of-lem ids n name ((=?_iff _ _).0 t) in
        rw (t, s, not-equal name other (λ q. differs (sym q)))
          (same_calls (client_node (node_nodes n)))
    | inr f ↦ rw f (
      λ m. absurd m.1,
      λ m. absurd (
          other_key n svc e f (
            other_calls (service_of ids n) (client_node (node_nodes n))
              ((In-if_empty _ callee_ref _).0 m).1)),
    )
  ]

  -- On a graph whose keys have the form that the hub writes, for two services of different names with
  -- ids, neither called "addr" nor with the empty name: both lists are made without a panic, and the
  -- page of the one names the other as a caller just when the page of the other names the one as
  -- called.
  pub incomings_iff_outgoings :
      (nodes : List Node)
      → All IsServiceNode nodes
      → (ins : List ServiceRef) × (outs : List ServiceRef) × (extract_incomings ids nodes name
          ≡ some ins)
        × (extract_outgoings ids nodes other ≡ some outs)
        × (In caller_ref ins ↔ In callee_ref outs)
  unfolding extract_incomings extract_outgoings
  incomings_iff_outgoings nodes h = (
    flat (incomings ids name) nodes,
    flat (outgoings ids other) nodes,
    collect-flat _ _ nodes (All-map ids nodes (incomings_at-lem ids name) h),
    collect-flat _ _ nodes (All-map ids nodes (outgoings_at-lem ids other) h),
    flat_same _ _ caller_ref callee_ref nodes (All-map ids nodes same_at h),
  )
