-- ===== src/Scoring/Caps.antt =====
-- oracle/score-caps.js: the most that each factor can contribute.
use sigvara.Prelude.{ℕ}

abbrev pub fee : ℕ
fee = 20

abbrev pub success : ℕ
success = 15

abbrev pub age : ℕ
age = 30

abbrev pub external : ℕ
external = 25

abbrev pub community : ℕ
community = 5

abbrev pub propagation : ℕ
propagation = 5
