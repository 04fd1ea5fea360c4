-- ===== src/Hand/Finish/Engine.antt =====
-- The engine's evaluator behind the interface that the use case declares.
use holdem.Prelude.{◌≡◌, ◌∙◌, sym, length}
use holdem.Evaluator.{best, compare_results}
use holdem.Evaluator.Order.{compare_results_order, compare_results_trans}
use holdem.Evaluator.Best.{length-best}
use holdem.Hand.Finish.{HandEvaluator}
use holdem.Hand.Finish.Winners.{Laws}

abbrev pub evaluator : HandEvaluator
evaluator = record { best = best; compare = compare_results }

-- It meets the laws: its results have five cards, and between those it compares as a total preorder.
abbrev pub evaluator_laws : Laws evaluator
evaluator_laws = record {
  Valid = λ r. length r.cards ≡ 5;
  best_valid = length-best;
  turn = λ a b va vb. (compare_results_order a b (va ∙ sym vb)).0;
  trans = λ a b c va vb vc. compare_results_trans a b c (va ∙ sym vb) (vb ∙ sym vc);
}
