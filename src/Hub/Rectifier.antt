-- ===== src/Hub/Rectifier.antt =====
-- hub/model/service.go: the goroutines of startAutoRectify. The loop reads the field stopCh each time it
-- comes to the select, without the lock of the service object, and then waits for that channel or for
-- the ticker; on a channel that is nil it waits for the ticker only.
use skylb.Prelude.{
  ℕ, zero, suc, ◌≡◌, refl, sym, ◌⊎◌, inl, inr, Bool, true, false, ◌||◌, List, [], ◌∷◌, Option, none,
  some, if◌then◌else◌, ◌==◌, nat_eq, ==_iff, In, Bool-cases,
}

-- A goroutine: before the select, in the select with the channel that was read, or after its return.
pub data Rectifier : Type 0 where
  at_loop : Rectifier
  selecting : Option ℕ → Rectifier
  ended : Rectifier

-- What a goroutine does next: come to the select, take a tick, or take the closing of its channel.
pub data Move : Type 0 where
  reading ticking stopping : Move

pub is_closed : ℕ → List ℕ → Bool
is_closed ch [] = false
is_closed ch (c ∷ cs) = c == ch || is_closed ch cs

-- The move of a goroutine, with the stop channel of the service object and the closed channels; a move
-- that it cannot make leaves it as it is.
pub advance : Move → Option ℕ → List ℕ → Rectifier → Rectifier
unfolding is_closed
advance reading stop_ch closed at_loop = selecting stop_ch
advance ticking stop_ch closed at_loop = at_loop
advance stopping stop_ch closed at_loop = at_loop
advance reading stop_ch closed (selecting c) = selecting c
advance ticking stop_ch closed (selecting c) = at_loop
advance stopping stop_ch closed (selecting none) = selecting none
advance stopping stop_ch closed (selecting (some ch)) =
    if is_closed ch closed then ended else selecting (some ch)
advance move stop_ch closed ended = ended

-- The move of one of the goroutines.
pub advance_at : ℕ → Move → Option ℕ → List ℕ → List Rectifier → List Rectifier
unfolding advance
advance_at n move stop_ch closed [] = []
advance_at zero move stop_ch closed (r ∷ rs) = advance move stop_ch closed r ∷ rs
advance_at (suc n) move stop_ch closed (r ∷ rs) = r ∷ advance_at n move stop_ch closed rs

-- A tick in the select makes the goroutine call the listener.
abbrev rings : Move → Rectifier → Bool
rings ticking (selecting c) = true
rings ticking at_loop = false
rings ticking ended = false
rings reading r = false
rings stopping r = false

pub rings_at : ℕ → Move → List Rectifier → Bool
rings_at n move [] = false
rings_at zero move (r ∷ rs) = rings move r
rings_at (suc n) move (r ∷ rs) = rings_at n move rs

-- The goroutine has not ended, and the channel that it reads or has read is the given one.
abbrev pub IsAlive : ℕ → Rectifier → Type 0
IsAlive ch r = (r ≡ at_loop) ⊎ (r ≡ selecting (some ch))

In-is_closed : (ch : ℕ) (cs : List ℕ) → is_closed ch cs ≡ true → In ch cs
unfolding is_closed
In-is_closed ch [] e = cc
In-is_closed ch (c ∷ cs) e = elim (Bool-cases (c == ch)) [
  | inl t ↦ inl (sym ((==_iff c ch).0 t))
  | inr f ↦ inr (In-is_closed ch cs (rw f at e))
]

advance-IsAlive :
    (ch : ℕ) (move : Move) (closed : List ℕ) (r : Rectifier)
    → (In ch closed → ⊥)
    → IsAlive ch r
    → IsAlive ch (advance move (some ch) closed r)
unfolding advance
advance-IsAlive ch reading closed r o (inl e) = inr (rw e refl)
advance-IsAlive ch ticking closed r o (inl e) = inl (rw e refl)
advance-IsAlive ch stopping closed r o (inl e) = inl (rw e refl)
advance-IsAlive ch reading closed r o (inr e) = inr (rw e refl)
advance-IsAlive ch ticking closed r o (inr e) = inl (rw e refl)
advance-IsAlive ch stopping closed r o (inr e) = elim (Bool-cases (is_closed ch closed)) [
  | inl t ↦ absurd (o (In-is_closed ch closed t))
  | inr f ↦ inr (rw (e, f) refl)
]

-- A goroutine on an open channel stays.
pub advance_at-IsAlive :
    (ch n : ℕ) (move : Move) (closed : List ℕ) (rs : List Rectifier) (r : Rectifier)
    → (In ch closed → ⊥)
    → In r rs
    → IsAlive ch r
    → (r' : Rectifier) × In r' (advance_at n move (some ch) closed rs) × IsAlive ch r'
unfolding advance_at
advance_at-IsAlive ch n move closed [] r o i a = absurd i.1
advance_at-IsAlive ch zero move closed (x ∷ rs) r o (inl e) a =
    (_, inl refl, advance-IsAlive ch move closed x o (rw (← e) a))
advance_at-IsAlive ch zero move closed (x ∷ rs) r o (inr i) a = (r, inr i, a)
advance_at-IsAlive ch (suc n) move closed (x ∷ rs) r o (inl e) a = (r, inl e, a)
advance_at-IsAlive ch (suc n) move closed (x ∷ rs) r o (inr i) a =
    let (r', i', a') = advance_at-IsAlive ch n move closed rs r o i a in (r', inr i', a')

-- A goroutine that has read nil does not end.
pub advance-nil :
    (move : Move) (stop_ch : Option ℕ) (closed : List ℕ)
    → (advance move stop_ch closed (selecting none) ≡ selecting none)
      ⊎ (advance move stop_ch closed (selecting none) ≡ at_loop)
unfolding advance
advance-nil reading stop_ch closed = inl refl
advance-nil ticking stop_ch closed = inr refl
advance-nil stopping stop_ch closed = inl refl
