-- ===== src/Balance/Examples.antt =====
-- internal/billing/balance.go: a session that goes stale and is asked again, in cents.
use fa.Prelude.{◌≡◌, refl, ◌⊎◌, ◌↔◌, true, false, none, some, List, [], ◌∷◌, ◌++◌, All}
use fa.Prelude.Int.{ℤ, pos, negsuc}
use fa.Balance.{
  is_gone, staled, Reply, no_answer, response, Session, Event, beat, timeout, tick, answer,
  new_balance_cache, close, query_cached, idle_too_long, run,
}
use fa.Balance.Landed.{amount_of}
use fa.Balance.Staleness.{Silent, run-IsGone}

-- A response with code 200.
abbrev worth : ℤ → Reply ℤ
worth n = response (record {
  code = pos 200;
  message = [];
  data_of = record {
    balance = n;
    consume_amount = pos 0;
    expire_amount = pos 0;
    valid_period_time = [];
  };
})

abbrev opened : Session ℤ
opened = record {
  cache = record { balance = pos 700; tenant_id = pos 4; token = b't' ∷ []; status = staled };
  asking = false;
  requests = 1;
  closed = false;
}

first_answer : (new_balance_cache (negsuc 0) [] (pos 4) (worth (pos 5))).balance ≡ pos 5
unfolding new_balance_cache
first_answer = refl

first_failure : (new_balance_cache (negsuc 0) [] (pos 4) no_answer).balance ≡ negsuc 0
unfolding new_balance_cache
first_failure = refl

idle_query : query_cached opened.cache ≡ (pos 700, some idle_too_long)
unfolding query_cached
idle_query = refl

closed_twice : close (record opened { closed = true }) ≡ none
unfolding close
closed_twice = refl

-- The answer of the ticker's request replaces the balance, and the session goes stale.
abbrev hour : List (Event ℤ)
hour = beat ∷ tick ∷ answer (worth (pos 650)) ∷ timeout ∷ tick ∷ []

hour_requests : (run (pos 0) hour opened).requests ≡ 2
unfolding run
hour_requests = refl

run-IsGone_example : (is_gone (run (pos 0) hour opened).cache ≡ true) ↔ (
    (All Silent hour × (is_gone opened.cache ≡ true))
    ⊎ ((pre : List (Event ℤ)) × (post : List (Event ℤ)) × (hour ≡ pre ++ (timeout ∷ post))
        × All Silent post))
run-IsGone_example = run-IsGone (pos 0) hour opened refl

fresh_amount : amount_of (pos 0) (worth (pos 650)) ≡ pos 650
unfolding amount_of
fresh_amount = refl
