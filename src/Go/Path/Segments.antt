-- ===== src/Go/Path/Segments.antt =====
-- The paths that are made of proper segments: Clean keeps them, Join and Dir extend and cut them.
use skylb.Prelude.{
  ℕ, ◌≡◌, refl, ap, sym, ◌∙◌, ◌≢◌, Bool, true, List, [], ◌∷◌, ◌++◌, arith, Str, All, All-append,
  str_eq, str_beq_iff,
}
use skylb.Go.Strings.{lit, split, join, split-append, split-Without, split-cut, Without}
use mathlib.Core.List.{reverse, append_assoc, append-nil, reverse-cons}
use skylb.Go.Path.{
  extend_split, slash, clean_step, clean_segments, clean, join_path, split_path, dir,
}

-- A segment that path.Clean keeps.
pub record IsSegment (s : Str) : Type 0 where
  pub whole : Without slash s
  pub not_empty : s ≢ []
  pub not_dot : s ≢ lit "."
  pub not_dots : s ≢ lit ".."

-- The rooted path of the segments.
abbrev pub render : List Str → Str
render [] = []
render (w ∷ ws) = slash ∷ (w ++ render ws)

render-append : (vs ws : List Str) → render (vs ++ ws) ≡ render vs ++ render ws
render-append [] ws = refl
render-append (v ∷ vs) ws =
    ap (λ t. slash ∷ t)
      (ap (◌++◌ v) (render-append vs ws) ∙ sym (append_assoc v (render vs) (render ws)))

join-render : (w : Str) (ws : List Str) → join slash (w ∷ ws) ≡ w ++ render ws
unfolding join
join-render w [] = sym (append-nil w)
join-render w (v ∷ ws) = ap (λ t. w ++ slash ∷ t) (join-render v ws)

-- `tail` is what follows the rendered segments: nothing, or one slash.
split-segments :
    (w : Str) (ws : List Str)
    → IsSegment w
    → All IsSegment ws
    → split slash (w ++ render ws) ≡ w ∷ ws
split-segments w [] v h = rw append-nil (split-Without slash w v.whole)
split-segments w (u ∷ ws) v h =
    split-append slash w (u ++ render ws) v.whole ∙ ap (◌∷◌ w) (split-segments u ws h.0 h.1)

clean_step-IsSegment :
    (rooted : Bool) (out : List Str) (w : Str) → IsSegment w → clean_step rooted out w ≡ w ∷ out
unfolding clean_step
clean_step-IsSegment rooted out w v = ground (
  arith,
  str_beq_iff w [],
  str_beq_iff w (lit "."),
  str_beq_iff w (lit ".."),
  v.not_empty,
  v.not_dot,
  v.not_dots,
)

clean_segments-IsSegment :
    (rooted : Bool) (out ws : List Str)
    → All IsSegment ws
    → clean_segments rooted out ws ≡ reverse out ++ ws
unfolding clean_segments
clean_segments-IsSegment rooted out [] h = sym (append-nil (reverse out))
clean_segments-IsSegment rooted out (w ∷ ws) h =
    ap (λ o. clean_segments rooted o ws) (clean_step-IsSegment rooted out w h.0)
    ∙ clean_segments-IsSegment rooted (w ∷ out) ws h.1
    ∙ rw (reverse-cons w out) (append_assoc (reverse out) (w ∷ []) ws)

-- The pieces of a rooted path: nothing before the first slash, then the segments.
pub split-render :
    (w : Str) (ws : List Str) → All IsSegment (w ∷ ws) → split slash (render (w ∷ ws)) ≡ [] ∷ w ∷ ws
unfolding split
split-render w ws h = rw (split-segments w ws h.0 h.1)

-- Clean leaves a rooted path of proper segments as it is.
pub clean-render :
    (w : Str) (ws : List Str) → All IsSegment (w ∷ ws) → clean (render (w ∷ ws)) ≡ render (w ∷ ws)
unfolding clean clean_segments clean_step
clean-render w ws h = rw (split-render w ws h) (
    ap (λ t. slash ∷ join slash t) (clean_segments-IsSegment true [] (w ∷ ws) h)
    ∙ ap (λ t. slash ∷ t) (join-render w ws))

-- Join appends proper segments to such a path.
pub join_path-render :
    (w : Str) (ws es : List Str)
    → All IsSegment (w ∷ ws)
    → All IsSegment es
    → join_path (render (w ∷ ws) ∷ es) ≡ render (w ∷ ws ++ es)
unfolding join_path
join_path-render w ws es h k =
    ap clean (join-render (render (w ∷ ws)) es ∙ sym (render-append (w ∷ ws) es))
    ∙ clean-render w (ws ++ es) (All-append IsSegment (w ∷ ws) es h k)

split_path-Without : (e : Str) → Without slash e → split_path e ≡ ([], e)
unfolding split_path
split_path-Without [] h = refl
split_path-Without (x ∷ xs) h = rw (split_path-Without xs h.1) (ground arith)

extend_split-slash :
    (x : ℕ) (s e : Str) → extend_split x (s ++ slash ∷ []) e ≡ (x ∷ s ++ slash ∷ [], e)
extend_split-slash x [] e = refl
extend_split-slash x (y ∷ ys) e = refl

split_path-slash :
    (s e : Str) → Without slash e → split_path (s ++ slash ∷ e) ≡ (s ++ slash ∷ [], e)
unfolding split_path
split_path-slash [] e h = rw (split_path-Without e h)
split_path-slash (x ∷ xs) e h = rw (split_path-slash xs e h) (extend_split-slash x xs e)

-- A slash at the end adds an empty segment, which Clean drops.
clean_segments-slash :
    (rooted : Bool) (out ws : List Str)
    → clean_segments rooted out (ws ++ [] ∷ []) ≡ clean_segments rooted out ws
unfolding clean_segments clean_step
clean_segments-slash rooted out [] = refl
clean_segments-slash rooted out (w ∷ ws) = clean_segments-slash rooted (clean_step rooted out w) ws

clean-slash :
    (w : Str) (ws : List Str)
    → All IsSegment (w ∷ ws)
    → clean (render (w ∷ ws) ++ slash ∷ []) ≡ clean (render (w ∷ ws))
unfolding clean
clean-slash w ws h =
    ap (λ t. slash ∷ join slash (clean_segments true [] t)) (split-cut slash (render (w ∷ ws)) [])
    ∙ ap (λ t. slash ∷ join slash t) (clean_segments-slash true [] (split slash (render (w ∷ ws))))

-- Dir drops the last segment.
pub dir-render :
    (w : Str) (ws : List Str) (e : Str)
    → All IsSegment (w ∷ ws)
    → IsSegment e
    → dir (render (w ∷ ws ++ e ∷ [])) ≡ render (w ∷ ws)
unfolding dir
dir-render w ws e h k =
    ap (λ t. clean (split_path t).0)
      (render-append (w ∷ ws) (e ∷ []) ∙ ap (λ t. render (w ∷ ws) ++ slash ∷ t) (append-nil e))
    ∙ ap (λ (t : Str × Str). clean t.0) (split_path-slash (render (w ∷ ws)) e k.whole)
    ∙ clean-slash w ws h
    ∙ clean-render w ws h

-- Different segments make different paths.
pub render_inj :
    (v w : Str) (vs ws : List Str)
    → All IsSegment (v ∷ vs)
    → All IsSegment (w ∷ ws)
    → render (v ∷ vs) ≡ render (w ∷ ws)
    → v ∷ vs ≡ w ∷ ws
render_inj v w vs ws h k e = cc (split-render v vs h, split-render w ws k, ap (split slash) e)
