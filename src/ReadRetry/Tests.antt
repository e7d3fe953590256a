-- ===== src/ReadRetry/Tests.antt =====
-- A read that times out twice and then answers.
use sigvara.ReadRetry.{Try, read_with_backoff, transient, answer}
use sigvara.ReadRetry.Attempts.{read_with_backoff-answer}
use sigvara.Prelude.{arith, length, refl, suc, sum, zero, ℕ, ◌*◌, ◌+◌, ◌<◌, ◌^◌, ◌≡◌}

abbrev third_time : ℕ → Try ℕ
third_time zero = transient
third_time (suc zero) = transient
third_time (suc (suc n)) = answer 7

third_time-transient : (j : ℕ) → j < 2 → third_time j ≡ transient
third_time-transient zero h = refl
third_time-transient (suc zero) h = refl
third_time-transient (suc (suc j)) h = ground (arith, h)

read_with_backoff-answer_example :
    let r = read_with_backoff third_time 4 in
    (r.result ≡ answer 7) × (length r.waits ≡ 2) × (sum r.waits + 500 ≡ 500 * 2 ^ 2)
read_with_backoff-answer_example =
    read_with_backoff-answer third_time 4 2 7 (omega arith) third_time-transient refl
