-- ===== src/ReadRetry/Attempts.antt =====
-- When a read that is retried succeeds, and how long it waits.
use sigvara.ReadRetry.{Try, read_with_backoff, retry, answer, transient}
use sigvara.Prelude.{
  arith, length, suc, sum, zero, ℕ, ◌*◌, ◌+◌, ◌<◌, ◌^◌, ◌≡◌, ◌≤◌, ap, refl, subst, ◌-◌, ◌∙◌, sym,
  ◌∷◌,
}
use native.Mathlib.Nat.{mul_assoc, pow-succ'}

pow_twice : (d k : ℕ) → d * 2 * 2 ^ k ≡ d * 2 ^ suc k
pow_twice d k = mul_assoc d 2 (2 ^ k) ∙ ap (λ t. d * t) (sym (pow-succ' 2 k))

more : (d n m : ℕ) → n + d * 2 ≡ m → d + n + d ≡ m
more d n m e = omega (arith, e)

module _ {A : Type 0} where
  retry-transient :
      (fn : ℕ → Try A) (left i delay : ℕ)
      → fn i ≡ transient
      → retry fn (suc left) i delay ≡ record {
        result = (retry fn left (i + 1) (delay * 2)).result;
        waits = delay ∷ (retry fn left (i + 1) (delay * 2)).waits;
      }
  unfolding retry
  retry-transient fn left i delay first = rw (first, retry) refl

  retry-answer :
      (fn : ℕ → Try A) (left i delay k : ℕ) (a : A)
      → k ≤ left
      → ((j : ℕ) → j < k → fn (i + j) ≡ Try.transient)
      → fn (i + k) ≡ Try.answer a
      → ((retry fn left i delay).result ≡ Try.answer a)
        × (length (retry fn left i delay).waits ≡ k)
        × (sum (retry fn left i delay).waits + delay ≡ delay * 2 ^ k)
  unfolding retry
  retry-answer fn zero i delay zero a le before now =
      (subst (λ n. fn n ≡ answer a) (omega arith) now, refl, ground arith)
  retry-answer fn (suc left) i delay zero a le before now =
      let now : fn i ≡ answer a = subst (λ n. fn n ≡ answer a) (omega arith) now in
      rw (now, retry) (refl, refl, ground arith)
  retry-answer fn zero i delay (suc k) a le before now = ground arith
  retry-answer fn (suc left) i delay (suc k) a le before now =
      let ih =
        retry-answer fn left (i + 1) (delay * 2) k a (omega arith)
          (λ j h. subst (λ n. fn n ≡ transient) (omega arith) (before (j + 1) (omega arith)))
          (subst (λ n. fn n ≡ answer a) (omega arith) now) in
      let first : fn i ≡ transient =
        subst (λ n. fn n ≡ transient) (omega arith) (before 0 (omega arith)) in
      let twice : delay * 2 * 2 ^ k ≡ delay * 2 ^ suc k = pow_twice delay k in
      let sums : sum (retry fn left (i + 1) (delay * 2)).waits + delay * 2 ≡ delay * 2 * 2 ^ k =
        ih.2 in
      rw (retry-transient fn left i delay first) (ih.0, ap suc ih.1, more delay _ _ (sums ∙ twice))

  -- A read whose first `k` tries fail in a way that passes, and whose next try answers, answers
  -- when `k` is below the tries allowed; it waits `k` times, 500 * (2 ^ k - 1) in all.
  pub read_with_backoff-answer :
      (fn : ℕ → Try A) (attempts k : ℕ) (a : A)
      → k < attempts
      → ((j : ℕ) → j < k → fn j ≡ transient)
      → fn k ≡ answer a
      → let r = read_with_backoff fn attempts in
        (r.result ≡ answer a) × (length r.waits ≡ k) × (sum r.waits + 500 ≡ 500 * 2 ^ k)
  unfolding read_with_backoff
  read_with_backoff-answer fn attempts k a le before now =
      retry-answer fn (attempts - 1) 0 500 k a (omega arith)
        (λ j h. subst (λ n. fn n ≡ transient) (omega arith) (before j h))
        (subst (λ n. fn n ≡ answer a) (omega arith) now)
