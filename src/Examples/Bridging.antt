-- ===== src/Examples/Bridging.antt =====
-- The copy between two clusters.
use skylb.Prelude.{true, false, [], ◌∷◌, Option, some, Str, str_eq, pos}
use skylb.Go.Strings.{lit}
use skylb.Go.Maps.{get, put, delete, get-put, get-delete}
use skylb.Api.{Node, node, nil, cons, Response}
use skylb.Cmd.Bridge.{initial_copy, apply_change}
use skylb.Cmd.Bridge.Copy.{
  IsStore, IsCopied, IsApplied, initial_copy-IsCopied, apply_change-IsApplied,
}
use skylb.Examples.Cluster.{cluster, Store}

abbrev set_in : Str → Str → Store → Store
set_in key value w = put key value w

abbrev remove_in : Str → Store → Store
remove_in key w = delete key w

abbrev view_of : Str → Store → Option Str
view_of key w = get key w

set_in-IsStore : IsStore set_in remove_in view_of
set_in-IsStore = record {
  view_set = λ key value j w. get-put key j value w;
  view_remove = λ key j w. get-delete key j w;
}

abbrev one : Node
one =
    node (lit "/registry/services/endpoints/default/shop/10.0.0.1_80") false (lit "one") (pos 0) nil

abbrev two : Node
two =
    node (lit "/registry/services/endpoints/default/shop/10.0.0.2_80") false (lit "two") (pos 0) nil

abbrev tree : Node
tree =
    node (lit "/registry/services/endpoints/default/shop") true [] (pos 0) (cons one (cons two nil))

abbrev before : Store
before = (lit "/registry/services/endpoints/default/shop/10.0.0.2_80", lit "old") ∷ []

abbrev key_two : Str
key_two = lit "/registry/services/endpoints/default/shop/10.0.0.2_80"

initial_copy-IsCopied_example :
    IsCopied set_in remove_in view_of set_in-IsStore tree key_two before
      (initial_copy set_in remove_in tree before)
initial_copy-IsCopied_example =
    initial_copy-IsCopied set_in remove_in view_of set_in-IsStore tree key_two before

abbrev event : Str → Response
event action = record { action = action; node = some two; prev_node = some two }

apply_change-IsApplied_example :
    IsApplied set_in remove_in view_of set_in-IsStore cluster
      (lit "compareAndDelete")
      (lit "compareAndSwap")
      (event (lit "compareAndDelete"))
      before
      (apply_change set_in remove_in cluster
        (lit "compareAndDelete")
        (lit "compareAndSwap")
        (event (lit "compareAndDelete"))
        before)
apply_change-IsApplied_example =
    apply_change-IsApplied set_in remove_in view_of set_in-IsStore cluster (lit "compareAndDelete")
      (lit "compareAndSwap") (event (lit "compareAndDelete")) before
