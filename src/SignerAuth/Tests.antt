-- ===== src/SignerAuth/Tests.antt =====
-- A request with a signature of 64 digits, and the theorem about its replay.
use sigvara.Prelude.Text.{Text}
use sigvara.SignerAuth.{auth_problem, seen_after, auth_header, parse_header, forget_old}
use sigvara.SignerAuth.Headers.{auth_problem-auth_header}
use sigvara.SignerAuth.Replays.{auth_problem_once}
use sigvara.Prelude.{List, [], arith, none, refl, ℕ, ◌++◌, ◌∈◌, ◌∷◌, ◌≡◌, ◌≢◌, ◌≤◌, some}
use sigvara.Prelude.Decimal.{all_of}
use sigvara.Prelude.Dict.{lookup}

abbrev eight : Text
eight = b'0' ∷ b'1' ∷ b'2' ∷ b'3' ∷ b'c' ∷ b'd' ∷ b'e' ∷ b'f' ∷ []

abbrev signature : Text
signature = eight ++ eight ++ eight ++ eight ++ eight ++ eight ++ eight ++ eight

-- A code that signs everything alike.
abbrev same_mac : Text → ℕ → Text → Text
same_mac secret ts body = signature

abbrev header : Text
header = b'1' ∷ b'0' ∷ b'0' ∷ b'.' ∷ signature

auth_problem_runs : (auth_problem same_mac [] header [] 130 []).0 ≡ none
unfolding auth_problem
auth_problem_runs = refl

abbrev between : List (Text × Text × ℕ)
between = (header, [], 140) ∷ ([], [], 150) ∷ []

between_times : (r : Text × Text × ℕ) → r ∈ between → r.2 ≤ 155
between_times r at = ground arith

auth_problem_once_example :
    (auth_problem same_mac [] header eight 155
      (seen_after same_mac [] between (auth_problem same_mac [] header [] 130 []).1)).0
    ≢ none
auth_problem_once_example =
    auth_problem_once same_mac [] header [] eight 130 155 between [] auth_problem_runs between_times

auth_problem-auth_header_example :
    (parse_header (auth_header same_mac [] eight 100) ≡ some (100, signature))
    × ((auth_problem same_mac [] (auth_header same_mac [] eight 100) eight 130 []).0 ≡ none)
unfolding all_of lookup forget_old
auth_problem-auth_header_example =
    auth_problem-auth_header same_mac [] eight 100 130 [] refl refl (omega arith)
      (omega arith, omega arith) refl
