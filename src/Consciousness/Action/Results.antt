-- ===== src/Consciousness/Action/Results.antt =====
-- The results of actions in consciousness/core/action.c: `record_result` and
-- `action_get_results_str`.
pub mod Kept
use aion_os.Prelude.{ℕ, ◌+◌, ◌-◌, List, [], ◌∷◌, ◌++◌, leb, if◌then◌else◌, length, take}
use aion_os.Consciousness.Text.{Text, codes}

abbrev pub max_action_results : ℕ
max_action_results = 32

-- The array `action_results`, oldest first, and the rest of the machine.
pub record Act (W : Type 0) : Type 0 where
  pub results : List Text
  pub world : W

-- The format is stored as it stands, and cut to 255 bytes.
pub record_result : {W : Type 0} → Text → Act W → Act W
record_result fmt a =
    if leb max_action_results (length a.results)
    then a
    else record a { results = a.results ++ (take 255 fmt ∷ []) }

-- The text that `snprintf` would write for the results, and the results cleared. The static buffer
-- `buf` keeps its old text when there is no result.
pub results_text : List Text → Text
results_text [] = []
results_text (r ∷ rs) = codes "[RESULT] " ++ (r ++ (10 ∷ results_text rs))

pub results_or : Text → List Text → Text
results_or buf [] = buf
results_or buf (r ∷ rs) = results_text (r ∷ rs)

pub action_get_results_str : {W : Type 0} → Text → Act W → Text × Act W
unfolding results_or
action_get_results_str buf a = (results_or buf a.results, record a { results = [] })
