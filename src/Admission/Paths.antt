-- ===== src/Admission/Paths.antt =====
-- Path coverage in internal/admission/evaluate.go: a prefix covers itself and what lies below it.
use goalrail.Base.{
  String, Bool, List, ◌||◌, ◌==◌, starts_with, concat, trim_prefix, trim_suffix, any, all, contains,
  if◌then◌else◌,
}

-- The test in the inner loop of `pathsCovered`, and in the prefix case of `ruleMatches`.
unfoldable pub prefix_covers : String → String → Bool
prefix_covers prefix path = path == prefix || starts_with path (concat (trim_suffix prefix "/") "/")

unfoldable pub paths_covered : List String → List String → Bool
unfolding any all
paths_covered paths prefixes =
    all (λ path. any (λ prefix. prefix_covers prefix path) prefixes) paths

unfoldable pub subset : List String → List String → Bool
unfolding all
subset values allowed = all (contains allowed) values

-- Empty where the reference does not address the repository.
unfoldable pub repository_path : String → String
repository_path reference =
    let path = trim_prefix reference "repo:root/" in if path == reference then "" else path
