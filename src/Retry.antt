-- ===== src/Retry.antt =====
-- pkg/retry/retry.go: a function that is called until it is satisfied, or an error ends the loop.
-- What each round meets is an argument: the answer of the function, and whether the context is done
-- before the timer fires. The lengths of the pauses are left out. `none` is a loop that goes on.
pub mod Tolerance
mod Examples
use fa.Prelude.{
  ℕ, zero, suc, ◌≡◌, Bool, true, false, not, ◌||◌, Option, none, some, List, [], ◌∷◌, leb,
  if◌then◌else◌,
}
use fa.Prelude.Int.{ℤ, pos, negsuc}

pub data Reply : Type 0 where
  satisfied unsatisfied : Reply
  failed : ℕ → Reply

pub data Round : Type 0 where
  round : Reply → Bool → Round

pub data End : Type 0 where
  success negative_retries context_done : End
  error : ℕ → End

module _ (is_retryable : ℕ → Bool) where
  -- The select after a round: what follows is the rest of the loop.
  pub pause : Bool → Option End → Option End
  pause done rest = if done then some context_done else rest

  -- The loop of WaitWithBackoffAndRetries, with `retries` errors tolerated so far.
  pub loop : ℕ → ℕ → List Round → Option End
  unfolding pause
  loop num_retries retries [] = none
  loop num_retries retries (round satisfied done ∷ xs) = some success
  loop num_retries retries (round unsatisfied done ∷ xs) = pause done (loop num_retries retries xs)
  loop num_retries retries (round (failed e) done ∷ xs) =
      let rest = loop num_retries (suc retries) xs in
      if not (is_retryable e) || leb num_retries retries then some (error e) else pause done rest

  -- WaitWithBackoffAndRetries
  pub wait : ℤ → List Round → Option End
  unfolding loop
  wait (negsuc n) xs = some negative_retries
  wait (pos n) xs = loop n 0 xs

-- WaitWithBackoff gives no retries.
pub is_never_retryable : ℕ → Bool
is_never_retryable e = false

pub wait_with_backoff : List Round → Option End
unfolding wait is_never_retryable
wait_with_backoff xs = wait is_never_retryable (pos 0) xs
