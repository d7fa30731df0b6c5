-- ===== src/Balance/Callers.antt =====
-- internal/billing/balance.go: what QueryBalance answers.
use fa.Prelude.{
  ◌≡◌, ◌≢◌, refl, ◌∙◌, true, false, Option, some, List, [], ◌∷◌, All, Bool-cases, inl, inr, arith,
}
use fa.Prelude.Text.{Text}
use fa.Balance.{
  is_gone, Reply, Session, Event, beat, timeout, fetched, login, step, iam_alive, is_staled, run,
  await, query_balance,
}
use fa.Balance.Landed.{amount_of, Unanswered, query-balance, step-balance, run-balance}
use fa.Balance.Staleness.{Silent, step-Silent, step-IsGone, step-closed, run-Silent}

-- The heartbeat's timer does not fire.
abbrev pub Untimed : {Amount : Type 0} → Event Amount → Type 0
Untimed e = e ≢ timeout

module _ {Amount : Type 0} (nothing : Amount) where
  query_balance-asks :
      (token : Text) (before during after : List (Event Amount)) (reply : Option (Reply Amount))
      (s : Session Amount)
      → is_gone (run nothing before (step nothing (login token) s)).cache ≡ true
      → (query_balance nothing token before during reply after s).0
        ≡ (run nothing after (
            await nothing reply (
              run nothing during
                (run nothing before (step nothing (login token) s))))).cache.balance
  unfolding query_balance
  query_balance-asks token before during after reply s gone = rw (query_balance, gone) refl

  query_balance-reads :
      (token : Text) (before during after : List (Event Amount)) (reply : Option (Reply Amount))
      (s : Session Amount)
      → is_gone (run nothing before (step nothing (login token) s)).cache ≡ false
      → (query_balance nothing token before during reply after s).0
        ≡ (run nothing after (run nothing before (step nothing (login token) s))).cache.balance
  unfolding query_balance
  query_balance-reads token before during after reply s there = rw (query_balance, there) refl

  -- QueryBalance on a stale cache, when nobody beats before it looks, waits for its own request and
  -- answers what that brings: the balance of a response with code 200, and otherwise nothing, without
  -- an error. No other request ends after it.
  pub query_balance-fresh :
      (token : Text) (before during after : List (Event Amount)) (r : Reply Amount)
      (s : Session Amount)
      → is_gone s.cache ≡ true
      → All Silent before
      → All Unanswered after
      → (query_balance nothing token before during (some r) after s).0 ≡ amount_of nothing r
  unfolding await step
  query_balance-fresh token before during after r s h q u =
      let start = step nothing (login token) s in
      let waited = run nothing during (run nothing before start) in
      query_balance-asks token before during after (some r) s
        (run-Silent nothing before start q (step-Silent nothing (login token) s tt h))
      ∙ run-balance nothing after (step nothing (fetched r) waited) u
      ∙ query-balance nothing r waited

  step-awake :
      (e : Event Amount) (s : Session Amount)
      → s.closed ≡ false
      → is_gone s.cache ≡ false
      → Untimed e
      → is_gone (step nothing e s).cache ≡ false
  step-awake e s o h u = elim (Bool-cases (is_gone (step nothing e s).cache)) [
    | inr there ↦ there
    | inl gone ↦ elim (step-IsGone nothing e s o gone) [
      | inl fired ↦ absurd (u fired)
      | inr (before, _) ↦ cc
    ]
  ]

  run-awake :
      (es : List (Event Amount)) (s : Session Amount)
      → s.closed ≡ false
      → is_gone s.cache ≡ false
      → All Untimed es
      → is_gone (run nothing es s).cache ≡ false
  unfolding run
  run-awake [] s o h u = h
  run-awake (e ∷ es) s o h u =
      run-awake es (step nothing e s) (step-closed nothing e s ∙ o) (step-awake e s o h u.0) u.1

  beat-awake :
      (token : Text) (s : Session Amount)
      → s.closed ≡ false
      → is_gone (step nothing beat (step nothing (login token) s)).cache ≡ false
  unfolding step iam_alive is_gone is_staled
  beat-awake token s o = ground arith

  -- When a beat, such as the call's own, is handled before QueryBalance looks at the status, and no
  -- timeout of the heartbeat comes between, it answers the balance that was cached before, however
  -- stale that was, and the reply to a request of its own plays no part. No other request ends
  -- meanwhile.
  pub query_balance-old :
      (token : Text) (before during after : List (Event Amount)) (reply : Option (Reply Amount))
      (s : Session Amount)
      → s.closed ≡ false
      → All Unanswered before
      → All Untimed before
      → All Unanswered after
      → (query_balance nothing token (beat ∷ before) during reply after s).0 ≡ s.cache.balance
  unfolding step run
  query_balance-old token before during after reply s o q u w =
      let start = step nothing (login token) s in
      let beaten = step nothing beat start in
      query_balance-reads token (beat ∷ before) during after reply s (
        run-awake before beaten
          (step-closed nothing beat start ∙ (step-closed nothing (login token) s ∙ o))
          (beat-awake token s o) u)
      ∙ run-balance nothing after (run nothing (beat ∷ before) start) w
      ∙ run-balance nothing (beat ∷ before) start (tt, q)
      ∙ step-balance nothing (login token) s tt
