-- ===== src/Hub/Register/Merge.antt =====
-- The loop of fetchEndpoints over the nodes of a service: it returns when every value decodes, it
-- keeps the subsets of every node, and a label that the nodes agree on is the label of the whole.
use mathlib.Core.Option.{some-injective}
use mathlib.Core.Path.{subst}
use skylb.Prelude.{
  ◌≡◌, ◌≢◌, refl, sym, ◌∙◌, Bool, true, false, List, [], ◌∷◌, Option, none, some, Str, arith,
  Bool-cases, ◌=?◌, =?_iff, str_eq, inl, inr, ◌⊎◌, In, In-append_left, In-append_right, All,
}
use skylb.Go.Maps.{GoMap, get, put, get-put, HasKeysOnce}
use skylb.Api.{Endpoints, EndpointSubset, Node, node_value}
use skylb.Hub.Register.{put_all, merge_one, merge_nodes}

abbrev or_else {ℓ} : {A : Type ℓ} → Option A → Option A → Option A
or_else none b = b
or_else (some a) b = some a

pub get-put_all :
    (ls m : GoMap Str Str) (k : Str)
    → HasKeysOnce ls
    → get k (put_all ls m) ≡ or_else (get k ls) (get k m)
unfolding put_all get
get-put_all [] m k h = refl
get-put_all ((j, v) ∷ ls) m k h =
    ground (arith, get-put_all ls (put j v m) k h.1, get-put j k v m, =?_iff j k)

module _ (unmarshal : Str → Option Endpoints) where
  -- The node is skipped or decodes.
  abbrev pub Decodes : Node → Type 0
  Decodes n = (node_value n ≡ []) ⊎ ((o : Endpoints) × (unmarshal (node_value n) ≡ some o))

  -- The node has a value, and it decodes to the object.
  abbrev pub HasObject : Node → Endpoints → Type 0
  HasObject n o = (node_value n ≢ []) × (unmarshal (node_value n) ≡ some o)

  merge_nodes-skip :
      (first : Bool) (n : Node) (ns : List Node) (acc : Endpoints)
      → node_value n ≡ []
      → merge_nodes unmarshal first (n ∷ ns) acc ≡ merge_nodes unmarshal false ns acc
  unfolding merge_nodes
  merge_nodes-skip first n ns acc e = rw e

  merge_nodes-object :
      (first : Bool) (n : Node) (ns : List Node) (acc o : Endpoints)
      → HasObject n o
      → merge_nodes unmarshal first (n ∷ ns) acc
        ≡ merge_nodes unmarshal false ns (merge_one first acc o)
  unfolding merge_nodes
  merge_nodes-object first n ns acc o (h, e) = elim (Bool-cases (node_value n =? [])) [
    | inl t ↦ absurd (h ((=?_iff (node_value n) []).0 t))
    | inr f ↦ rw (f, e)
  ]

  abbrev Split : Node → Type 0
  Split n = (node_value n ≡ []) ⊎ ((o : Endpoints) × HasObject n o)

  Decodes-cases : (n : Node) → Decodes n → Split n
  Decodes-cases n (inl e) = inl e
  Decodes-cases n (inr (o, e)) = elim (Bool-cases (node_value n =? [])) [
    | inl t ↦ inl ((=?_iff (node_value n) []).0 t)
    | inr f ↦ inr (o, ((λ z. ground (arith, =?_iff (node_value n) [])), e))
  ]

  -- If every value decodes, the loop returns an object.
  pub merge_nodes_total :
      (first : Bool) (ns : List Node) (acc : Endpoints)
      → All Decodes ns
      → (eps : Endpoints) × (merge_nodes unmarshal first ns acc ≡ some eps)
  unfolding merge_nodes
  merge_nodes_total first [] acc h = (acc, refl)
  merge_nodes_total first (n ∷ ns) acc (hn, h) = elim (Decodes-cases n hn) [
    | inl e ↦
        let (eps, q) = merge_nodes_total false ns acc h in
        (eps, merge_nodes-skip first n ns acc e ∙ q)
    | inr (o, ho) ↦
        let (eps, q) = merge_nodes_total false ns (merge_one first acc o) h in
        (eps, merge_nodes-object first n ns acc o ho ∙ q)
  ]

  merge_nodes-nil :
      (first : Bool) (acc eps : Endpoints)
      → merge_nodes unmarshal first [] acc ≡ some eps
      → acc ≡ eps
  unfolding merge_nodes
  merge_nodes-nil first acc eps q = some-injective acc eps q

  -- Every subset that the loop starts with stays.
  pub subsets_kept :
      (first : Bool) (ns : List Node) (acc eps : Endpoints) (s : EndpointSubset)
      → All Decodes ns
      → merge_nodes unmarshal first ns acc ≡ some eps
      → In s acc.subsets
      → In s eps.subsets
  unfolding merge_one
  subsets_kept first [] acc eps s h q m =
      subst (λ e. In s e.subsets) (merge_nodes-nil first acc eps q) m
  subsets_kept first (n ∷ ns) acc eps s (hn, h) q m = elim (Decodes-cases n hn) [
    | inl e ↦ subsets_kept false ns acc eps s h (sym (merge_nodes-skip first n ns acc e) ∙ q) m
    | inr (o, ho) ↦
        subsets_kept false ns (merge_one first acc o) eps s h
          (sym (merge_nodes-object first n ns acc o ho) ∙ q)
          (In-append_left s acc.subsets o.subsets m)
  ]

  -- Every subset of every node is there.
  pub subsets_of_node :
      (first : Bool) (ns : List Node) (acc eps : Endpoints) (n : Node) (o : Endpoints)
      (s : EndpointSubset)
      → All Decodes ns
      → merge_nodes unmarshal first ns acc ≡ some eps
      → In n ns
      → HasObject n o
      → In s o.subsets
      → In s eps.subsets
  unfolding merge_one
  subsets_of_node first [] acc eps n o s h q i ho m = absurd i.1
  subsets_of_node first (x ∷ ns) acc eps n o s (hn, h) q (inl e) ho m =
      subsets_kept false ns (merge_one first acc o) eps s h
        (sym (merge_nodes-object first x ns acc o (rw (← e) ho)) ∙ q)
        (In-append_right s acc.subsets o.subsets m)
  subsets_of_node first (x ∷ ns) acc eps n o s (hn, h) q (inr i) ho m = elim (Decodes-cases x hn) [
    | inl e ↦
        subsets_of_node false ns acc eps n o s h (sym (merge_nodes-skip first x ns acc e) ∙ q) i ho
          m
    | inr (o', ho') ↦
        subsets_of_node false ns (merge_one first acc o') eps n o s h
          (sym (merge_nodes-object first x ns acc o' ho') ∙ q) i ho m
  ]

  -- The node says nothing of the label `k`, or says `x`.
  abbrev pub Agrees : Str → Option Str → Node → Type 0
  Agrees k x n =
      (o : Endpoints)
      → HasObject n o
      → HasKeysOnce o.labels × ((get k o.labels ≡ none) ⊎ (get k o.labels ≡ x))

  label-merge_one :
      (k : Str) (x : Option Str) (first : Bool) (acc o : Endpoints)
      → HasKeysOnce o.labels
      → (get k o.labels ≡ none) ⊎ (get k o.labels ≡ x)
      → (get k acc.labels ≡ none) ⊎ (get k acc.labels ≡ x)
      → (get k (merge_one first acc o).labels ≡ none) ⊎ (get k (merge_one first acc o).labels ≡ x)
  unfolding merge_one
  label-merge_one k x true acc o u a b = ground (arith, get-put_all o.labels o.labels k u)
  label-merge_one k x false acc o u a b = ground (arith, get-put_all o.labels acc.labels k u)

  -- Where all nodes agree on a label and the loop starts with it, it is the label of the whole.
  pub label_kept :
      (k : Str) (x : Option Str) (ns : List Node) (acc eps : Endpoints)
      → All Decodes ns
      → All (Agrees k x) ns
      → merge_nodes unmarshal false ns acc ≡ some eps
      → get k acc.labels ≡ x
      → get k eps.labels ≡ x
  unfolding merge_one
  label_kept k x [] acc eps h g q e =
      subst (λ (e : Endpoints). get k e.labels ≡ x) (merge_nodes-nil false acc eps q) e
  label_kept k x (n ∷ ns) acc eps (hn, h) (gn, g) q e = elim (Decodes-cases n hn) [
    | inl v ↦ label_kept k x ns acc eps h g (sym (merge_nodes-skip false n ns acc v) ∙ q) e
    | inr (o, ho) ↦
        label_kept k x ns (merge_one false acc o) eps h g
          (sym (merge_nodes-object false n ns acc o ho) ∙ q)
          (ground (arith, get-put_all o.labels acc.labels k (gn o ho).0, (gn o ho).1))
  ]

  -- Where all nodes agree on a label and one of them has it, it is the label of the whole.
  pub label_of_node :
      (k : Str) (x : Option Str) (first : Bool) (ns : List Node) (acc eps : Endpoints) (n : Node)
      (o : Endpoints)
      → All Decodes ns
      → All (Agrees k x) ns
      → (get k acc.labels ≡ none) ⊎ (get k acc.labels ≡ x)
      → merge_nodes unmarshal first ns acc ≡ some eps
      → In n ns
      → HasObject n o
      → get k o.labels ≡ x
      → get k eps.labels ≡ x
  label_of_node k x first [] acc eps n o h g a q i ho e = absurd i.1
  label_of_node k x first (m ∷ ns) acc eps n o (hm, h) (gm, g) a q (inl p) ho e =
      label_kept k x ns (merge_one first acc o) eps h g
        (sym (merge_nodes-object first m ns acc o (rw (← p) ho)) ∙ q)
        (label-merge_one_self first ((gm o (rw (← p) ho)).0))
    where
      label-merge_one_self :
          (first : Bool) → HasKeysOnce o.labels → get k (merge_one first acc o).labels ≡ x
      label-merge_one_self true u =
          unfold merge_one in ground (arith, get-put_all o.labels o.labels k u)
      label-merge_one_self false u =
          unfold merge_one in ground (arith, get-put_all o.labels acc.labels k u)
  label_of_node k x first (m ∷ ns) acc eps n o (hm, h) (gm, g) a q (inr i) ho e =
      elim (Decodes-cases m hm) [
        | inl v ↦
            label_of_node k x false ns acc eps n o h g a
              (sym (merge_nodes-skip first m ns acc v) ∙ q) i ho e
        | inr (o', ho') ↦
            label_of_node k x false ns (merge_one first acc o') eps n o h g
              (label-merge_one k x first acc o' (gm o' ho').0 (gm o' ho').1 a)
              (sym (merge_nodes-object first m ns acc o' ho') ∙ q) i ho e
      ]
