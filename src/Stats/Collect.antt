-- ===== src/Stats/Collect.antt =====
-- aderyn_core/src/stats.rs, `get_stats`: the statistics of one source file.
pub mod Total
use aderyn.Prelude.{ℕ, Bool, Option, some, List, [], ◌∷◌, if◌then◌else◌, ◌>>=◌}
use aderyn.Stats.Text.{Text}
use aderyn.Stats.Token.{tokenize}
use aderyn.Stats.Cloc.{count_code_lines}
use aderyn.Stats.Ignore.{IgnoreLine, Capture, get_lines_to_ignore}

pub record Stats : Type 0 where
  pub code : ℕ
  pub ignore_lines : List IgnoreLine

module _ (captures_iter : Text → List Capture) where
  -- `none` is a panic
  unfoldable pub get_stats : Text → Bool → Option Stats
  get_stats [] skip_cloc = some (record { code = 0; ignore_lines = [] })
  get_stats (c ∷ cs) skip_cloc = do
    token_descriptors ← tokenize (c ∷ cs)
    code_lines ← if skip_cloc then some 0 else count_code_lines token_descriptors
    some (record {
      code = code_lines;
      ignore_lines = get_lines_to_ignore captures_iter token_descriptors;
    })
