-- ===== src/Graph/Impact/Risk.antt =====
-- `assess_risk`: the score and the level of a change.
use omnicode_mcp.Prelude.{ℕ, ◌+◌, ◌≤◌, arith, ltb, leb, if◌then◌else◌}
use omnicode_mcp.Prelude.Eq.{◌==◌, nat_eq}

pub data Level : Type 0 where
  low medium high : Level

unfoldable pub caller_points : ℕ → ℕ
caller_points callers =
    if ltb 10 callers then 3 else if ltb 3 callers then 2 else if ltb 0 callers then 1 else 0

unfoldable pub file_points : ℕ → ℕ
file_points files = if ltb 5 files then 2 else if ltb 2 files then 1 else 0

unfoldable pub test_points : ℕ → ℕ
test_points tests = if tests == 0 then 2 else if ltb tests 2 then 1 else 0

unfoldable pub risk_score : ℕ → ℕ → ℕ → ℕ
risk_score callers files tests = caller_points callers + file_points files + test_points tests

unfoldable pub risk_level : ℕ → Level
risk_level score = if leb 5 score then high else if leb 3 score then medium else low

abbrev pub rank : Level → ℕ
rank low = 0
rank medium = 1
rank high = 2

caller_points_mono : (a b : ℕ) → a ≤ b → caller_points a ≤ caller_points b
unfolding caller_points
caller_points_mono a b l = ground (arith, l)

file_points_mono : (a b : ℕ) → a ≤ b → file_points a ≤ file_points b
unfolding file_points
file_points_mono a b l = ground (arith, l)

test_points_mono : (a b : ℕ) → a ≤ b → test_points b ≤ test_points a
unfolding test_points
test_points_mono a b l = ground (arith, l)

risk_level_mono : (a b : ℕ) → a ≤ b → rank (risk_level a) ≤ rank (risk_level b)
unfolding risk_level
risk_level_mono a b l = ground (arith, l)

points_bounded : (a b c : ℕ) → (caller_points a ≤ 3) × (file_points b ≤ 2) × (test_points c ≤ 2)
unfolding caller_points file_points test_points
points_bounded a b c = (ground arith, ground arith, ground arith)

-- More callers, more files and fewer tests never lower the score or the level; the score is 7 at
-- most.
pub risk_grows :
    (callers callers' files files' tests tests' : ℕ)
    → callers ≤ callers'
    → files ≤ files'
    → tests' ≤ tests
    → (risk_score callers files tests ≤ risk_score callers' files' tests')
      × (rank (risk_level (risk_score callers files tests))
          ≤ rank (risk_level (risk_score callers' files' tests')))
      × (risk_score callers' files' tests' ≤ 7)
unfolding risk_score
risk_grows callers callers' files files' tests tests' c f t =
    let score : risk_score callers files tests ≤ risk_score callers' files' tests' = omega (
      arith,
      caller_points_mono callers callers' c,
      file_points_mono files files' f,
      test_points_mono tests' tests t,
    ) in
    (score, risk_level_mono _ _ score, omega (arith, points_bounded callers' files' tests'))
