-- ===== src/Retry/Tolerance.antt =====
-- pkg/retry/retry.go: how many errors the loop tolerates, and how it ends.
use fa.Prelude.{
  ℕ, suc, ◌+◌, ◌≤◌, ◌≡◌, Bool, true, false, not, ◌||◌, some, List, [], ◌∷◌, ◌++◌, All, leb,
  if◌then◌else◌, arith,
}
use fa.Prelude.Int.{pos}
use fa.Retry.{
  Reply, satisfied, unsatisfied, failed, Round, round, success, context_done, error, pause, loop,
  wait,
}

-- The rounds that ended with an error.
unfoldable pub failures : List Round → ℕ
failures [] = 0
failures (round (failed e) done ∷ xs) = suc (failures xs)
failures (round satisfied done ∷ xs) = failures xs
failures (round unsatisfied done ∷ xs) = failures xs

module _ (is_retryable : ℕ → Bool) where
  abbrev pub IsTolerable : Reply → Type 0
  IsTolerable satisfied = ⊥
  IsTolerable unsatisfied = Unit
  IsTolerable (failed e) = is_retryable e ≡ true

  -- A round that need not end the loop.
  abbrev pub IsQuiet : Round → Type 0
  IsQuiet (round reply done) = IsTolerable reply × (done ≡ false)

  loop-past :
      (n retries : ℕ) (before rest : List Round)
      → All IsQuiet before
      → retries + failures before ≤ n
      → loop is_retryable n retries (before ++ rest)
        ≡ loop is_retryable n (retries + failures before) rest
  unfolding loop pause failures
  loop-past n retries [] rest q h = let same : retries + 0 ≡ retries = omega arith in rw same
  loop-past n retries (round satisfied d ∷ xs) rest q h = absurd q.0.0
  loop-past n retries (round unsatisfied d ∷ xs) rest q h =
      rw (q.0.1) (loop-past n retries xs rest q.1 h)
  loop-past n retries (round (failed e) d ∷ xs) rest q h =
      let below : leb n retries ≡ false = ground arith in
      let shift : retries + suc (failures xs) ≡ suc retries + failures xs = omega arith in
      rw (q.0.0, below, q.0.1, shift) (loop-past n (suc retries) xs rest q.1 (omega arith))

-- After rounds of which none satisfied the function or met the end of the context, and whose errors,
-- all retryable, are at most as many as the retries: the loop succeeds in a round that satisfies the
-- function, ends with the error of a round when that error is not retryable or the retries are used
-- up, and ends with the context when this is done after a round that does not satisfy it.
pub wait-failures :
    (is_retryable : ℕ → Bool) (n : ℕ) (before after : List Round) (d : Bool) (e : ℕ)
    → All (IsQuiet is_retryable) before
    → failures before ≤ n
    → (wait is_retryable (pos n) (before ++ round satisfied d ∷ after) ≡ some success)
      × (wait is_retryable (pos n) (before ++ round (failed e) d ∷ after) ≡ (
          if not (is_retryable e) || leb n (failures before)
          then some (error e)
          else if d
          then some context_done
          else loop is_retryable n (suc (failures before)) after))
      × (wait is_retryable (pos n) (before ++ round unsatisfied true ∷ after) ≡ some context_done)
unfolding wait loop pause
wait-failures is_retryable n before after d e q h =
    let start : 0 + failures before ≡ failures before = omega arith in
    let past : (rest : List Round)
        → wait is_retryable (pos n) (before ++ rest) ≡ loop is_retryable n (failures before) rest =
      λ rest. rw (← start) (loop-past is_retryable n 0 before rest q (omega arith)) in
    (past _, past _, past _)
