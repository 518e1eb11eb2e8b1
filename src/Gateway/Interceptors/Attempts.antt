-- ===== src/Gateway/Interceptors/Attempts.antt =====
-- How often a payment is tried.
use distributed_systems_iiit.Common.{
  ℕ, zero, suc, ◌+◌, ◌<◌, ◌≡◌, ◌⊎◌, refl, inl, inr, true, false, string_key, arith, Bool-cases,
}
use distributed_systems_iiit.Gateway.Interceptors.{
  Ending, Handler, is_retryable, attempt, make_payment, retry_interceptor,
}

module _ {R S A : Type 0} where
  -- What is there after `k` runs of the handler and one more.
  unfoldable pub run_again : ℕ → Handler R S A → Handler R S A
  run_again zero handler req s = handler req s
  run_again (suc k) handler req s = run_again k handler req (handler req s).0

  -- The runs that a loop of so many attempts makes: every run before the last one ended with an
  -- error that is retried, and the last one did not or used up the attempts.
  pub record Attempted (attempts : ℕ) (handler : Handler R S A) (req : R) (s : S)
      (end : S × Ending A) : Type 0 where
    pub retries : ℕ
    pub bound : retries < attempts
    pub result : end ≡ run_again retries handler req s
    pub earlier : (j : ℕ) → j < retries → is_retryable (run_again j handler req s).1 ≡ true
    pub last : (is_retryable (run_again retries handler req s).1 ≡ false) ⊎ (retries + 1 ≡ attempts)

  attempt-Attempted :
      (left : ℕ) (handler : Handler R S A) (req : R) (s : S)
      → Attempted (suc left) handler req s (attempt (suc left) handler req s)
  unfolding attempt run_again
  attempt-Attempted zero handler req s = record {
    retries = 0;
    bound = omega arith;
    result = ground arith;
    earlier = λ j h. absurd (omega arith);
    last = inr refl;
  }
  attempt-Attempted (suc n) handler req s = elim (Bool-cases (is_retryable (handler req s).1)) [
    | inr e ↦ record {
      retries = 0;
      bound = omega arith;
      result = ground arith;
      earlier = λ j h. absurd (omega arith);
      last = inl e;
    }
    | inl e ↦
        let a = attempt-Attempted n handler req (handler req s).0 in
        record {
          retries = suc a.retries;
          bound = omega (arith, a.bound);
          result = again e a.retries a.result;
          earlier = λ j. run_before e a.earlier j;
          last = later a.retries a.last;
        }
  ]
    where
      again :
          is_retryable (handler req s).1 ≡ true
          → (k : ℕ)
          → attempt (suc n) handler req (handler req s).0
            ≡ run_again k handler req (handler req s).0
          → attempt (suc (suc n)) handler req s ≡ run_again (suc k) handler req s
      again e k p = ground arith

      run_before :
          is_retryable (handler req s).1 ≡ true
          → {k : ℕ}
          → ((j : ℕ) → j < k → is_retryable (run_again j handler req (handler req s).0).1 ≡ true)
          → (j : ℕ) → j < suc k
          → is_retryable (run_again j handler req s).1 ≡ true
      run_before e f zero h = e
      run_before e f (suc j) h = f j (omega arith)

      later :
          (k : ℕ)
          → (is_retryable (run_again k handler req (handler req s).0).1 ≡ false) ⊎ (k + 1 ≡ suc n)
          → (is_retryable (run_again (suc k) handler req s).1 ≡ false) ⊎ (suc k + 1 ≡ suc (suc n))
      later k (inl p) = inl p
      later k (inr p) = inr (omega (arith, p))

  -- A payment is tried at most three times. Every try before the last one ended with an error that
  -- is retried, the last one did not or was the third, and its state and its ending are what the
  -- interceptor returns.
  pub retry_interceptor-Attempted :
      (handler : Handler R S A) (req : R) (s : S)
      → Attempted 3 handler req s (retry_interceptor make_payment handler req s)
  unfolding retry_interceptor
  retry_interceptor-Attempted handler req s = attempt-Attempted 2 handler req s
