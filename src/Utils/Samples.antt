-- ===== src/Utils/Samples.antt =====
-- The theorem on Retry applied to an action that fails twice.
use lunaship.Base.{ℕ, zero, suc, ◌≤◌, ◌+◌, String, none, some, ◌≡◌, ◌⊎◌}
use lunaship.Utils.{Action, retry}
use lunaship.Utils.Laws.{Runs, retry-Runs}

-- The state is the number of failures left.
abbrev flaky : Action ℕ String
flaky zero = (none, 0)
flaky (suc n) = (some "refused", n)

retry-Runs_example :
    Runs flaky 2 (retry 5 flaky 2).2 (retry 5 flaky 2).0 (retry 5 flaky 2).1
    × ((retry 5 flaky 2).2 ≤ 5 + 1)
    × (((retry 5 flaky 2).0 ≡ none) ⊎ ((retry 5 flaky 2).2 ≡ 5 + 1))
retry-Runs_example = retry-Runs flaky 5 2
