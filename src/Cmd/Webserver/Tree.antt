-- ===== src/Cmd/Webserver/Tree.antt =====
-- cmd/webserver/svclist/etcdop.go: the tree of calls that GetDependencies prints. `none` stands for a
-- run that is out of fuel; the graph is that of hub/svcgraph.go.
use skylb.Prelude.{
  ℕ, zero, suc, ◌+◌, ltb, List, [], ◌∷◌, ◌++◌, Option, none, some, Str, if◌then◌else◌, ◌=?◌, str_eq,
}
use skylb.Go.Strings.{lit}
use skylb.Go.Maps.{GoMap, get}
use skylb.Hub.Graph.{Graph, CallerPairs, or_none, find_roots, build_dependencies}
use skylb.Api.{Node}

abbrev indent : ℕ → Str
indent zero = []
indent (suc n) = lit "&nbsp;&nbsp;&nbsp;&nbsp;" ++ indent n

-- The line of a caller at a level.
abbrev pub tree_line : Str → ℕ → Str
tree_line caller level =
    indent level ++ (if ltb 0 level then lit "|_" else []) ++ caller ++ lit "<br/>" ++ 10 ∷ []

abbrev pub calls_of : GoMap Str CallerPairs → Str → CallerPairs
calls_of calling caller = or_none (get caller calling)

abbrev pub and_text : Option Str → Option Str → Option Str
and_text none rest = none
and_text (some text) none = none
and_text (some text) (some rest) = some (text ++ rest)

-- The loop over the calls: a call of oneself is skipped, any other is visited.
unfoldable pub visit_calls : (Str → Option Str) → Str → CallerPairs → Option Str
visit_calls visit caller [] = some []
visit_calls visit caller (cp ∷ cps) =
    let rest = visit_calls visit caller cps in
    if cp.callee =? caller then rest else and_text (visit cp.callee) rest

unfoldable pub traverse_calls : ℕ → GoMap Str CallerPairs → Str → ℕ → Option Str
unfolding visit_calls
traverse_calls zero calling caller level = none
traverse_calls (suc fuel) calling caller level = and_text (some (tree_line caller level)) (
    visit_calls (λ callee. traverse_calls fuel calling callee (level + 1)) caller
      (calls_of calling caller))

-- hub.SimpleCallingMap[r][0].Caller for each root; `none` stands for the panic on an empty list.
pub root_callers : GoMap Str CallerPairs → List Str → Option (List Str)
root_callers calling [] = some []
root_callers calling (r ∷ rs) = elim (calls_of calling r) [
  | [] ↦ none
  | cp ∷ cps ↦ elim (root_callers calling rs) [ none ↦ none | some cs ↦ some (cp.caller ∷ cs) ]
]

pub traverse_roots : ℕ → GoMap Str CallerPairs → List Str → Option Str
unfolding traverse_calls
traverse_roots fuel calling [] = some []
traverse_roots fuel calling (c ∷ cs) =
    and_text (traverse_calls fuel calling c 0) (traverse_roots fuel calling cs)

abbrev printed : ℕ → Graph → Option (Option Str)
unfolding root_callers traverse_roots
printed fuel g = elim (root_callers g.simple_calling_map (find_roots g)) [
  | none ↦ none
  | some callers ↦ some (traverse_roots fuel g.simple_calling_map callers)
]

-- GetDependencies, on the node that etcd returns for the graph and the graph that was read before.
unfoldable pub get_dependencies : ℕ → Node → Graph → Option (Option Str)
unfolding printed
get_dependencies fuel root g = printed fuel (build_dependencies root g)
