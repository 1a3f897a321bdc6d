-- ===== src/Go/Maps.antt =====
-- Go's maps, as the list of their entries in the order in which a range loop visits them. That order
-- is not specified: a theorem about a range loop is stated for every list of entries.
use skylb.Prelude.{
  ◌≡◌, refl, inl, inr, List, [], ◌∷◌, Option, none, some, arith, if◌then◌else◌, Eq, ◌=?◌, =?_iff,
  =?_refl, In, Bool-cases,
}

abbrev pub GoMap {ℓ κ} : Type ℓ → Type κ → Type (ℓ ⊔ κ)
GoMap K V = List (K × V)

-- map[K]struct{}
abbrev pub GoSet {ℓ} : Type ℓ → Type ℓ
GoSet K = GoMap K (Unit {0})

module _ {ℓ κ} {K : Type ℓ} {V : Type κ} ⦃e : Eq K⦄ where
  -- v, ok := m[k]
  unfoldable pub get : K → GoMap K V → Option V
  get k [] = none
  get k ((j, v) ∷ m) = let rest = get k m in if j =? k then some v else rest

  -- m[k] = v
  unfoldable pub put : K → V → GoMap K V → GoMap K V
  put k v [] = (k, v) ∷ []
  put k v ((j, w) ∷ m) = let rest = put k v m in if j =? k then (k, v) ∷ m else (j, w) ∷ rest

  -- delete(m, k)
  pub delete : K → GoMap K V → GoMap K V
  delete k [] = []
  delete k ((j, v) ∷ m) = let rest = delete k m in if j =? k then rest else (j, v) ∷ rest

  pub get-put :
      (k j : K) (v : V) (m : GoMap K V) → get j (put k v m) ≡ (if k =? j then some v else get j m)
  unfolding get put
  get-put k j v [] = refl
  get-put k j v ((i, w) ∷ m) = ground (arith, =?_iff k j, =?_iff i k, =?_iff i j, get-put k j v m)

  pub get-delete :
      (k j : K) (m : GoMap K V) → get j (delete k m) ≡ (if k =? j then none else get j m)
  unfolding get delete
  get-delete k j [] = ground arith
  get-delete k j ((i, w) ∷ m) = ground (arith, =?_iff k j, =?_iff i k, =?_iff i j, get-delete k j m)

  -- No two entries have one key: the lists that stand for maps.
  abbrev pub HasKeysOnce : GoMap K V → Type (ℓ ⊔ κ)
  HasKeysOnce [] = Unit
  HasKeysOnce ((k, v) ∷ m) = (get k m ≡ none) × HasKeysOnce m

  pub HasKeysOnce-put : (k : K) (v : V) (m : GoMap K V) → HasKeysOnce m → HasKeysOnce (put k v m)
  unfolding put get
  HasKeysOnce-put k v [] h = (refl, tt)
  HasKeysOnce-put k v ((j, w) ∷ m) h = elim (Bool-cases (j =? k)) [
    | inl t ↦ rw t (rw (← (=?_iff j k).0 t) h.0, h.1)
    | inr f ↦
        rw f
          (ground (arith, get-put k j v m, =?_iff k j, =?_iff j k, h.0), HasKeysOnce-put k v m h.1)
  ]

  pub HasKeysOnce-delete : (k : K) (m : GoMap K V) → HasKeysOnce m → HasKeysOnce (delete k m)
  unfolding delete get
  HasKeysOnce-delete k [] h = tt
  HasKeysOnce-delete k ((j, w) ∷ m) h = elim (Bool-cases (j =? k)) [
    | inl t ↦ rw t (HasKeysOnce-delete k m h.1)
    | inr f ↦ rw f (ground (arith, get-delete k j m, =?_iff k j, h.0), HasKeysOnce-delete k m h.1)
  ]

  -- Lookup finds an entry of the list, and every entry where keys stand once.
  pub In-of_get : (k : K) (v : V) (m : GoMap K V) → get k m ≡ some v → In (k, v) m
  unfolding get
  In-of_get k v [] h = cc
  In-of_get k v ((j, w) ∷ m) h = elim (Bool-cases (j =? k)) [
    | inl t ↦ inl (ground (arith, =?_iff j k))
    | inr f ↦ inr (In-of_get k v m (ground arith))
  ]

  pub get-of_In : (k : K) (v : V) (m : GoMap K V) → HasKeysOnce m → In (k, v) m → get k m ≡ some v
  unfolding get
  get-of_In k v [] u h = absurd h.1
  get-of_In k v ((j, w) ∷ m) u (inl q) = ground (arith, =?_refl k)
  get-of_In k v ((j, w) ∷ m) u (inr q) = ground (arith, =?_iff j k, get-of_In k v m u.1 q)
