-- ===== src/NodeHandler/Users/Results.antt =====
-- What the one answer says of the results of the calls.
use remnaplus_alpine_node.Prelude.{
  ◌≡◌, refl, ◌↔◌, true, false, List, [], ◌∷◌, ◌++◌, str_eq, ◌==◌, lit, none, some, arith,
  if◌then◌else◌,
}
use remnaplus_alpine_node.Xtls.Handler.{HandlerResult}
use remnaplus_alpine_node.NodeHandler.{generic}
use remnaplus_alpine_node.NodeHandler.Users.{any_failed, aggregate_results}

success_of_none_failed :
    (rs : List HandlerResult) → any_failed rs ≡ false → aggregate_results rs ≡ generic true none
unfolding any_failed aggregate_results
success_of_none_failed [] h = refl
success_of_none_failed (r ∷ rs) h = ground (arith, success_of_none_failed rs)

pub none_failed_of_success :
    (rs : List HandlerResult) → aggregate_results rs ≡ generic true none → any_failed rs ≡ false
unfolding any_failed aggregate_results
none_failed_of_success [] h = refl
none_failed_of_success (r ∷ rs) h = ground (arith, none_failed_of_success rs)

-- The answer is a success with no message exactly when no call failed.
pub aggregate_results_iff :
    (rs : List HandlerResult) → (aggregate_results rs ≡ generic true none) ↔ (any_failed rs ≡ false)
aggregate_results_iff rs = (none_failed_of_success rs, success_of_none_failed rs)

-- If a call failed and those before it did not, the answer is a failure with the message of that
-- call, or with a fixed text where that message is empty, whatever the calls after it gave.
pub aggregate_results_first :
    (before after : List HandlerResult) (r : HandlerResult)
    → any_failed before ≡ false
    → r.is_ok ≡ false
    → aggregate_results (before ++ r ∷ after)
      ≡ generic false (some (if r.message == [] then lit "handler operation failed" else r.message))
unfolding any_failed aggregate_results
aggregate_results_first [] after r h f = ground arith
aggregate_results_first (b ∷ before) after r h f =
    ground (arith, aggregate_results_first before after r)
