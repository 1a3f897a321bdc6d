-- ===== src/Go/Path.antt =====
-- Package path: Clean, Join, Base and Dir, by the segments between slashes.
pub mod Segments
use skylb.Prelude.{
  ℕ, ◌≡◌, refl, ap, sym, ◌∙◌, ◌≢◌, Bool, true, false, ◌&&◌, not, List, [], ◌∷◌, ◌++◌, map, Option,
  none, some, arith, ◌==◌, if◌then◌else◌, Str, All, ◌=?◌, str_eq, str_beq_iff, String, Bool-cases,
}
use skylb.Go.Strings.{lit, split, join, split-append, split-Without, Without}
use mathlib.Core.List.{reverse, append_assoc, append-nil, reverse-cons}

abbrev pub slash : ℕ
slash = b'/'

-- One segment of path.Clean: `out` holds the segments kept so far, the last one first.
-- ".." drops the last segment; at the root it is dropped itself, elsewhere it is kept.
clean_step : Bool → List Str → Str → List Str
clean_step rooted out seg =
    if seg =? []
    then out
    else if seg =? lit "."
    then out
    else if seg =? lit ".."
    then elim out [
      | [] ↦ if rooted then [] else seg ∷ []
      | top ∷ below ↦ if top =? lit ".." then seg ∷ top ∷ below else below
    ]
    else seg ∷ out

clean_segments : Bool → List Str → List Str → List Str
unfolding clean_step
clean_segments rooted out [] = reverse out
clean_segments rooted out (seg ∷ segs) = clean_segments rooted (clean_step rooted out seg) segs

abbrev is_rooted : Str → Bool
is_rooted [] = false
is_rooted (x ∷ xs) = x == slash

abbrev or_dot : Str → Str
or_dot [] = lit "."
or_dot (x ∷ xs) = x ∷ xs

-- path.Clean
pub clean : Str → Str
unfolding clean_segments split join
clean s =
    let segs = clean_segments (is_rooted s) [] (split slash s) in
    if is_rooted s then slash ∷ join slash segs else or_dot (join slash segs)

-- path.Join: the text starts at the first element that is not empty.
unfoldable pub join_path : List Str → Str
unfolding clean
join_path [] = []
join_path (e ∷ es) =
    let rest = join_path es in if e =? [] then rest else clean (join slash (e ∷ es))

abbrev pub extend_split : ℕ → Str → Str → Str × Str
extend_split x [] f = if x == slash then (x ∷ [], f) else ([], x ∷ f)
extend_split x (y ∷ ys) f = (x ∷ y ∷ ys, f)

-- path.Split: what stands up to the last slash and with it, and the rest.
split_path : Str → Str × Str
split_path [] = ([], [])
split_path (x ∷ xs) = let (d, f) = split_path xs in extend_split x d f

-- path.Dir
unfoldable pub dir : Str → Str
unfolding split_path clean
dir s = clean (split_path s).0

strip_slashes : Str → Str
strip_slashes [] = []
strip_slashes (x ∷ xs) = elim (strip_slashes xs) [
  | [] ↦ if x == slash then [] else x ∷ []
  | y ∷ ys ↦ x ∷ y ∷ ys
]

abbrev or_slash : Str → Str
or_slash [] = slash ∷ []
or_slash (x ∷ xs) = x ∷ xs

-- path.Base
unfoldable pub base : Str → Str
unfolding split_path strip_slashes
base s = if s =? [] then lit "." else or_slash (split_path (strip_slashes s)).1
