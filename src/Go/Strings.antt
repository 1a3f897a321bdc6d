-- ===== src/Go/Strings.antt =====
-- Package strings, and the literals: a text is the list of its bytes. Literals are ASCII.
use Prim.Native.Char.{code}
use skylb.Prelude.{
  ℕ, zero, suc, ◌+◌, ◌-◌, ◌≡◌, refl, ◌≢◌, Bool, true, false, ◌&&◌, ◌||◌, List, [], ◌∷◌, ◌++◌,
  String, Option, none, some, arith, ◌==◌, leb, if◌then◌else◌, Str, length, drop, All, ◌=?◌, str_eq,
}

-- The bytes of an ASCII literal.
abbrev pub lit : String → Str
lit String.[] = []
lit (String.◌∷◌ c s) = code c ∷ lit s

-- strings.HasPrefix
unfoldable pub has_prefix : Str → Str → Bool
has_prefix s [] = true
has_prefix [] (y ∷ ys) = false
has_prefix (x ∷ xs) (y ∷ ys) = let rest = has_prefix xs ys in x == y && rest

-- strings.HasSuffix
unfoldable pub has_suffix : Str → Str → Bool
has_suffix s t = leb (length t) (length s) && drop (length s - length t) s =? t

-- The first piece of a split grows by one byte.
abbrev pub push : ℕ → List Str → List Str
push x [] = (x ∷ []) ∷ []
push x (w ∷ ws) = (x ∷ w) ∷ ws

-- strings.Split by a separator of one byte.
unfoldable pub split : ℕ → Str → List Str
split c [] = [] ∷ []
split c (x ∷ xs) = let rest = split c xs in if x == c then [] ∷ rest else push x rest

-- strings.Join by a separator of one byte.
unfoldable pub join : ℕ → List Str → Str
join c [] = []
join c (w ∷ []) = w
join c (w ∷ v ∷ ws) = w ++ c ∷ join c (v ∷ ws)

-- strings.Index of one byte.
unfoldable pub index : ℕ → Str → Option ℕ
index c [] = none
index c (x ∷ xs) =
    let rest = index c xs in
    if x == c then some 0 else elim rest [ none ↦ none | some i ↦ some (i + 1) ]

-- s[:n], for an n within the text.
unfoldable pub take_bytes : ℕ → Str → Str
take_bytes zero s = []
take_bytes (suc n) [] = []
take_bytes (suc n) (x ∷ xs) = x ∷ take_bytes n xs

-- The ASCII white space of strings.TrimSpace.
abbrev pub is_space : ℕ → Bool
is_space c = c == 32 || (leb 9 c && leb c 13)

unfoldable pub trim_left : Str → Str
trim_left [] = []
trim_left (x ∷ xs) = let rest = trim_left xs in if is_space x then rest else x ∷ xs

unfoldable pub trim_right : Str → Str
trim_right [] = []
trim_right (x ∷ xs) = elim (trim_right xs) [
  | [] ↦ if is_space x then [] else x ∷ []
  | y ∷ ys ↦ x ∷ y ∷ ys
]

-- strings.TrimSpace, on ASCII text.
unfoldable pub trim_space : Str → Str
unfolding trim_left trim_right
trim_space s = trim_left (trim_right s)

-- No byte of the text is `c`.
abbrev pub Without : ℕ → Str → Type 0
Without c = All (λ x. x ≢ c)

pub split-ne-nil : (c : ℕ) (s : Str) → split c s ≢ []
unfolding split
split-ne-nil c [] = λ e. cc
split-ne-nil c (x ∷ xs) = λ e. ground (arith, split-ne-nil c xs)

-- A text without the separator is one piece.
pub split-Without : (c : ℕ) (s : Str) → Without c s → split c s ≡ s ∷ []
unfolding split
split-Without c [] h = refl
split-Without c (x ∷ xs) h = ground (arith, split-Without c xs h.1)

-- A separator ends a piece.
pub split-append : (c : ℕ) (s t : Str) → Without c s → split c (s ++ c ∷ t) ≡ s ∷ split c t
unfolding split
split-append c [] t h = ground arith
split-append c (x ∷ xs) t h = ground (arith, split-append c xs t h.1)

pub Without-append : (c : ℕ) (s t : Str) → Without c s → Without c t → Without c (s ++ t)
Without-append c [] t h k = k
Without-append c (x ∷ xs) t h k = (h.0, Without-append c xs t h.1 k)

-- Text cut at the first separator is determined by its two sides.
pub cut_unique :
    (c : ℕ) (s s' t t' : Str)
    → Without c s
    → Without c s'
    → s ++ c ∷ t ≡ s' ++ c ∷ t'
    → (s ≡ s') × (t ≡ t')
cut_unique c [] [] t t' h h' e = ground arith
cut_unique c [] (y ∷ ys) t t' h h' e = ground arith
cut_unique c (x ∷ xs) [] t t' h h' e = ground arith
cut_unique c (x ∷ xs) (y ∷ ys) t t' h h' e =
    let rest : (xs ≡ ys) × (t ≡ t') = cut_unique c xs ys t t' h.1 h'.1 (ground arith) in
    ground arith

push-append : (x : ℕ) (ws vs : List Str) → ws ≢ [] → push x (ws ++ vs) ≡ push x ws ++ vs
push-append x [] vs h = absurd (h refl)
push-append x (w ∷ ws) vs h = refl

-- A split at one separator splits the two sides.
pub split-cut : (c : ℕ) (s t : Str) → split c (s ++ c ∷ t) ≡ split c s ++ split c t
unfolding split
split-cut c [] t = ground arith
split-cut c (x ∷ xs) t =
    ground (arith, split-cut c xs t, push-append x (split c xs) (split c t), split-ne-nil c xs)

not-Without-middle : (c : ℕ) (s t : Str) → ¬ Without c (s ++ c ∷ t)
not-Without-middle c [] t h = h.0 refl
not-Without-middle c (x ∷ xs) t h = not-Without-middle c xs t h.1

-- Text cut at the last separator is determined by its two sides.
pub cut_last_unique :
    (c : ℕ) (s s' t t' : Str)
    → Without c t
    → Without c t'
    → s ++ c ∷ t ≡ s' ++ c ∷ t'
    → (s ≡ s') × (t ≡ t')
cut_last_unique c [] [] t t' h h' e = ground arith
cut_last_unique c [] (y ∷ ys) t t' h h' e =
    let tails : t ≡ ys ++ c ∷ t' = cc in absurd (not-Without-middle c ys t' (rw (← tails) h))
cut_last_unique c (x ∷ xs) [] t t' h h' e =
    let tails : xs ++ c ∷ t ≡ t' = cc in absurd (not-Without-middle c xs t (rw tails h'))
cut_last_unique c (x ∷ xs) (y ∷ ys) t t' h h' e =
    let rest : (xs ≡ ys) × (t ≡ t') = cut_last_unique c xs ys t t' h h' (ground arith) in
    ground arith
