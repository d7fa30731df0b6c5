-- ===== src/Balance/Landed.antt =====
-- internal/billing/balance.go: which request a cached balance comes from.
use fa.Prelude.{
  ◌≡◌, refl, ap, ◌∙◌, ◌⊎◌, inl, inr, Bool, false, List, [], ◌∷◌, ◌++◌, All, if◌then◌else◌, arith,
}
use fa.Prelude.Int.{pos, eq_ℤ}
use fa.Balance.{
  Reply, no_request, no_answer, no_json, response, Session, Event, beat, timeout, tick, answer,
  fetched, login, iam_alive, iam_gone, is_alive, do_query_balance, clear_on_error, query, step, run,
}

-- The service has answered with the code of success.
unfoldable pub succeeds : {Amount : Type 0} → Reply Amount → Bool
succeeds no_request = false
succeeds no_answer = false
succeeds no_json = false
succeeds (response r) = eq_ℤ r.code (pos 200)

module _ {Amount : Type 0} (nothing : Amount) where
  -- What a balance becomes when a request ends.
  unfoldable pub amount_of : Reply Amount → Amount
  amount_of no_request = nothing
  amount_of no_answer = nothing
  amount_of no_json = nothing
  amount_of (response r) = if eq_ℤ r.code (pos 200) then r.data_of.balance else nothing

-- No request ends in the event.
abbrev pub Unanswered : {Amount : Type 0} → Event Amount → Type 0
Unanswered (answer r) = ⊥
Unanswered (fetched r) = ⊥
Unanswered beat = Unit
Unanswered timeout = Unit
Unanswered tick = Unit
Unanswered (login token) = Unit

-- The request of the event ends with the reply.
abbrev pub Answers : {Amount : Type 0} → Reply Amount → Event Amount → Type 0
Answers r e = (e ≡ answer r) ⊎ (e ≡ fetched r)

module _ {Amount : Type 0} (nothing : Amount) where
  pub query-balance :
      (r : Reply Amount) (s : Session Amount)
      → (query nothing r s.cache).balance ≡ amount_of nothing r
  unfolding query do_query_balance clear_on_error amount_of
  query-balance no_request s = refl
  query-balance no_answer s = refl
  query-balance no_json s = refl
  query-balance (response r) s = ground arith

  pub step-balance :
      (e : Event Amount) (s : Session Amount)
      → Unanswered e
      → (step nothing e s).cache.balance ≡ s.cache.balance
  unfolding step iam_alive iam_gone is_alive
  step-balance beat s h = ground arith
  step-balance timeout s h = ground arith
  step-balance tick s h = ground arith
  step-balance (answer r) s h = absurd h
  step-balance (fetched r) s h = absurd h
  step-balance (login token) s h = refl

  pub run-balance :
      (es : List (Event Amount)) (s : Session Amount)
      → All Unanswered es
      → (run nothing es s).cache.balance ≡ s.cache.balance
  unfolding run
  run-balance [] s h = refl
  run-balance (e ∷ es) s h = rw (run-balance es (step nothing e s) h.1, step-balance e s h.0) refl

  step-landed :
      (e : Event Amount) (s : Session Amount)
      → (Unanswered e)
        ⊎ ((r : Reply Amount) × Answers r e
            × ((step nothing e s).cache.balance ≡ amount_of nothing r))
  unfolding step
  step-landed beat s = inl tt
  step-landed timeout s = inl tt
  step-landed tick s = inl tt
  step-landed (answer r) s = inr (r, inl refl, query-balance r s)
  step-landed (fetched r) s = inr (r, inr refl, query-balance r s)
  step-landed (login token) s = inl tt

  -- The cached balance is the one before the events, if no request ended in them, and otherwise it is
  -- what the last request to end brought: the balance of a response with code 200, or nothing.
  pub run-landed :
      (es : List (Event Amount)) (s : Session Amount)
      → (All Unanswered es × ((run nothing es s).cache.balance ≡ s.cache.balance))
        ⊎ ((pre : List (Event Amount)) × (e : Event Amount) × (post : List (Event Amount))
            × (r : Reply Amount) × (es ≡ pre ++ (e ∷ post))
            × Answers r e
            × All Unanswered post
            × ((run nothing es s).cache.balance ≡ amount_of nothing r))
  unfolding run
  run-landed [] s = inl (tt, refl)
  run-landed (e ∷ es) s = elim (run-landed es (step nothing e s)) [
    | inr (pre, last, post, r, split, ends, rest, same) ↦
        inr (e ∷ pre, last, post, r, ap (◌∷◌ e) split, ends, rest, same)
    | inl (quiet, same) ↦ elim (step-landed e s) [
      | inl still ↦ inl ((still, quiet), same ∙ step-balance e s still)
      | inr (r, ends, here) ↦ inr ([], e, es, r, refl, ends, quiet, same ∙ here)
    ]
  ]
