-- ===== src/Retry/Examples.antt =====
-- pkg/retry/retry.go: two retries, and errors of which 7 is not retryable.
use fa.Prelude.{
  ℕ, suc, ◌≡◌, refl, Bool, true, false, not, ◌||◌, some, List, [], ◌∷◌, ◌++◌, ◌==◌, leb,
  if◌then◌else◌, arith,
}
use fa.Prelude.Int.{pos, negsuc}
use fa.Retry.{
  satisfied, unsatisfied, failed, Round, round, success, context_done, negative_retries, error,
  loop, wait, wait_with_backoff,
}
use fa.Retry.Tolerance.{failures, wait-failures}

abbrev usual : ℕ → Bool
usual e = not (e == 7)

abbrev trouble : List Round
trouble = round (failed 1) false ∷ round unsatisfied false ∷ round (failed 2) false ∷ []

recovers : wait usual (pos 2) (trouble ++ round satisfied true ∷ []) ≡ some success
unfolding wait
recovers = refl

third_error : wait usual (pos 2) (trouble ++ round (failed 3) false ∷ []) ≡ some (error 3)
unfolding wait
third_error = refl

no_retries :
    wait_with_backoff (round unsatisfied false ∷ round (failed 1) false ∷ []) ≡ some (error 1)
unfolding wait_with_backoff
no_retries = refl

below_zero : wait usual (negsuc 0) trouble ≡ some negative_retries
unfolding wait
below_zero = refl

wait-failures_example :
    (wait usual (pos 2) (trouble ++ round satisfied false ∷ []) ≡ some success)
    × (wait usual (pos 2) (trouble ++ round (failed 3) false ∷ []) ≡ (
        if not (usual 3) || leb 2 (failures trouble)
        then some (error 3)
        else if false
        then some context_done
        else loop usual 2 (suc (failures trouble)) []))
    × (wait usual (pos 2) (trouble ++ round unsatisfied true ∷ []) ≡ some context_done)
unfolding failures
wait-failures_example =
    wait-failures usual 2 trouble [] false 3 ((refl, refl), ((tt, refl), ((refl, refl), tt)))
      (omega arith)
