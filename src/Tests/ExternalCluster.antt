-- ===== src/Tests/ExternalCluster.antt =====
-- The theorems on names and on the store at concrete data.
use cluster_api_control_plan.Base.{ne-of_==, ◌≡◌, ◌≢◌, refl, ◌∷◌, [], List, true, false, ◌+◌, Bool}
use cluster_api_control_plan.GoNet.{drop_prefix, trim_prefix, has_prefix}
use cluster_api_control_plan.ExternalCluster.Names.{uid_of_name}
use cluster_api_control_plan.ExternalCluster.Store.{new_store}
use cluster_api_control_plan.ExternalCluster.Store.Laws.{
  Call, get_call, stop_call, add_call, replies, spec_replies, view, replies-refine,
}
use cluster_api_control_plan.ExternalCluster.Store.Conservation.{
  count, live, after, total_accepted, after-conserves,
}

-- A second `Add` is refused, then the manager is replaced.
abbrev calls : List (Call Bool)
calls =
    add_call "k" "1" true 11
    ∷ add_call "k" "2" false 12
    ∷ get_call "k" "2"
    ∷ stop_call "k"
    ∷ add_call "k" "2" false 13
    ∷ []

replies-refine_example : replies calls new_store ≡ spec_replies calls (view new_store)
replies-refine_example = replies-refine calls new_store

after-conserves_example :
    count 11 (after calls new_store).stopped + live 11 (after calls new_store).store
    ≡ 0 + total_accepted 11 calls new_store
after-conserves_example = after-conserves 11 calls new_store tt

uid_found : uid_of_name "kcp-u1" ≢ ""
unfolding uid_of_name has_prefix trim_prefix drop_prefix
uid_found = ne-of_== (uid_of_name "kcp-u1") "" refl
