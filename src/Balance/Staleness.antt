-- ===== src/Balance/Staleness.antt =====
-- internal/billing/balance.go: when the cache is stale, and what a stale cache does.
use fa.Prelude.{
  ◌≡◌, refl, ap, ◌∙◌, ◌⊎◌, inl, inr, ◌↔◌, true, false, List, [], ◌∷◌, ◌++◌, All, arith,
}
use fa.Balance.{
  is_staled, is_gone, Reply, no_request, no_answer, no_json, response, BalanceCache, Session, Event,
  beat, timeout, tick, answer, fetched, login, iam_alive, iam_gone, is_alive, do_query_balance,
  clear_on_error, query, step, run,
}
use fa.Balance.Landed.{succeeds}

-- Nobody beats, and no request succeeds.
abbrev pub Silent : {Amount : Type 0} → Event Amount → Type 0
Silent beat = ⊥
Silent (answer r) = succeeds r ≡ false
Silent (fetched r) = succeeds r ≡ false
Silent timeout = Unit
Silent tick = Unit
Silent (login token) = Unit

-- The beat's goroutine and the loop run.
abbrev pub IsOpen : {Amount : Type 0} → Session Amount → Type 0
IsOpen s = s.closed ≡ false

abbrev pub IsGone : {Amount : Type 0} → Session Amount → Type 0
IsGone s = is_gone s.cache ≡ true

module _ {Amount : Type 0} (nothing : Amount) where
  query-is_gone :
      (r : Reply Amount) (c : BalanceCache Amount)
      → (is_gone (query nothing r c) ≡ true) ↔ ((is_gone c ≡ true) × (succeeds r ≡ false))
  unfolding query do_query_balance clear_on_error succeeds is_gone is_staled
  query-is_gone no_request c = ground arith
  query-is_gone no_answer c = ground arith
  query-is_gone no_json c = ground arith
  query-is_gone (response r) c = ground arith

  pub step-closed : (e : Event Amount) (s : Session Amount) → (step nothing e s).closed ≡ s.closed
  unfolding step
  step-closed beat s = ground arith
  step-closed timeout s = ground arith
  step-closed tick s = ground arith
  step-closed (answer r) s = refl
  step-closed (fetched r) s = refl
  step-closed (login token) s = refl

  pub step-IsGone :
      (e : Event Amount) (s : Session Amount)
      → IsOpen s
      → IsGone (step nothing e s)
      → (e ≡ timeout) ⊎ (IsGone s × Silent e)
  unfolding step is_gone is_staled iam_alive is_alive
  step-IsGone beat s o h = absurd (ground arith)
  step-IsGone timeout s o h = inl refl
  step-IsGone tick s o h = inr (ground arith, tt)
  step-IsGone (answer r) s o h = inr ((query-is_gone r s.cache).0 h)
  step-IsGone (fetched r) s o h = inr ((query-is_gone r s.cache).0 h)
  step-IsGone (login token) s o h = inr (h, tt)

  pub step-Silent :
      (e : Event Amount) (s : Session Amount) → Silent e → IsGone s → IsGone (step nothing e s)
  unfolding step is_gone is_staled iam_gone is_alive
  step-Silent beat s q h = absurd q
  step-Silent timeout s q h = ground arith
  step-Silent tick s q h = ground arith
  step-Silent (answer r) s q h = (query-is_gone r s.cache).1 (h, q)
  step-Silent (fetched r) s q h = (query-is_gone r s.cache).1 (h, q)
  step-Silent (login token) s q h = h

  pub run-Silent :
      (es : List (Event Amount)) (s : Session Amount)
      → All Silent es
      → IsGone s
      → IsGone (run nothing es s)
  unfolding run
  run-Silent [] s q h = h
  run-Silent (e ∷ es) s q h = run-Silent es (step nothing e s) q.1 (step-Silent e s q.0 h)

  step_timeout-IsGone : (s : Session Amount) → IsOpen s → IsGone (step nothing timeout s)
  unfolding step is_gone is_staled iam_gone
  step_timeout-IsGone s o = ground arith

  run-timeout :
      (pre post : List (Event Amount)) (s : Session Amount)
      → IsOpen s
      → All Silent post
      → IsGone (run nothing (pre ++ (timeout ∷ post)) s)
  unfolding run
  run-timeout [] post s o q = run-Silent post (step nothing timeout s) q (step_timeout-IsGone s o)
  run-timeout (e ∷ pre) post s o q = run-timeout pre post (step nothing e s) (step-closed e s ∙ o) q

  last_timeout :
      (es : List (Event Amount)) (s : Session Amount)
      → IsOpen s
      → IsGone (run nothing es s)
      → (All Silent es × IsGone s)
        ⊎ ((pre : List (Event Amount)) × (post : List (Event Amount)) × (es
              ≡ pre ++ (timeout ∷ post))
            × All Silent post)
  unfolding run
  last_timeout [] s o h = inl (tt, h)
  last_timeout (e ∷ es) s o h = elim (last_timeout es (step nothing e s) (step-closed e s ∙ o) h) [
    | inr (pre, post, split, quiet) ↦ inr (e ∷ pre, post, ap (◌∷◌ e) split, quiet)
    | inl (quiet, gone) ↦ elim (step-IsGone e s o gone) [
      | inl fired ↦ inr ([], es, ap (λ k. k ∷ es) fired, quiet)
      | inr (before, still) ↦ inl ((still, quiet), before)
    ]
  ]

  -- In a session that is not closed, the cache is stale after any events exactly when their last
  -- timeout of the heartbeat was followed by no beat and by no successful request, or there was none
  -- of the three and it was stale before.
  pub run-IsGone :
      (es : List (Event Amount)) (s : Session Amount)
      → s.closed ≡ false
      → (is_gone (run nothing es s).cache ≡ true) ↔ (
          (All Silent es × (is_gone s.cache ≡ true))
          ⊎ ((pre : List (Event Amount)) × (post : List (Event Amount)) × (es
                ≡ pre ++ (timeout ∷ post))
              × All Silent post))
  run-IsGone es s o = (last_timeout es s o, back)
    where
      back :
          (All Silent es × IsGone s)
            ⊎ ((pre : List (Event Amount)) × (post : List (Event Amount)) × (es
                  ≡ pre ++ (timeout ∷ post))
                × All Silent post)
          → IsGone (run nothing es s)
      back (inl (quiet, gone)) = run-Silent es s quiet gone
      back (inr (pre, post, split, quiet)) = rw split (run-timeout pre post s o quiet)

  step-requests :
      (e : Event Amount) (s : Session Amount)
      → Silent e
      → IsGone s
      → (step nothing e s).requests ≡ s.requests
  unfolding step is_gone is_staled is_alive
  step-requests beat s q h = absurd q
  step-requests timeout s q h = ground arith
  step-requests tick s q h = ground arith
  step-requests (answer r) s q h = refl
  step-requests (fetched r) s q h = refl
  step-requests (login token) s q h = refl

  -- A stale cache asks nothing: while nobody beats and no request succeeds, the ticker makes no
  -- request, whatever else happens.
  pub run-requests :
      (es : List (Event Amount)) (s : Session Amount)
      → is_gone s.cache ≡ true
      → All Silent es
      → (run nothing es s).requests ≡ s.requests
  unfolding run
  run-requests [] s h q = refl
  run-requests (e ∷ es) s h q =
      run-requests es (step nothing e s) (step-Silent e s q.0 h) q.1 ∙ step-requests e s q.0 h
