-- ===== src/Oracle.antt =====
-- `BenchmarkOracle` of embodied_skill_ros/evaluation/oracle.py, which scores the hidden world.
pub mod Judged
use embodied_skill_ros.Prelude.{Bool, [], if◌then◌else◌, is_nil, ◌∷◌}
use embodied_skill_ros.Prelude.Dict.{Dict}
use embodied_skill_ros.Value.Numbers.{Float}
use embodied_skill_ros.Value.{Value, agrees_within}
use embodied_skill_ros.State.{RobotState, raw_value}

pub record OracleResult : Type 0 where
  pub success : Bool
  pub mismatches : Dict (Value × Value)

-- The loop over the expected values; the keys of a dictionary differ.
truth_mismatches : Float → Dict Value → RobotState → Dict (Value × Value)
unfolding agrees_within
truth_mismatches tolerance [] state = []
truth_mismatches tolerance ((key, target) ∷ expected) state =
    let rest = truth_mismatches tolerance expected state in
    if agrees_within tolerance (raw_value state key) target
    then rest
    else (key, (raw_value state key, target)) ∷ rest

-- `evaluate(backend, expected)`, for the state that `oracle_state` returns
unfoldable pub evaluate_truth : Float → RobotState → Dict Value → OracleResult
unfolding truth_mismatches
evaluate_truth tolerance state expected =
    let found = truth_mismatches tolerance expected state in
    record { success = is_nil found; mismatches = found }
