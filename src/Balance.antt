-- ===== src/Balance.antt =====
-- internal/billing/balance.go: the cache of a tenant's balance, the goroutine of its heartbeat, the
-- ticker's loop and QueryBalance. A float32 is only stored, so `Amount` is a parameter with the two
-- constants that the code writes. The answers of the balance service are arguments.
pub mod Landed
pub mod Staleness
pub mod Callers
mod Examples
use fa.Prelude.{
  ℕ, suc, Bool, true, false, not, ◌&&◌, ◌||◌, Option, none, some, List, [], ◌∷◌, if◌then◌else◌,
}
use fa.Prelude.Int.{ℤ, pos, eq_ℤ}
use fa.Prelude.Text.{Text}

pub record TenantBalance (Amount : Type 0) : Type 0 where
  pub balance : Amount
  pub consume_amount : Amount
  pub expire_amount : Amount
  pub valid_period_time : Text

pub record BalanceResponse (Amount : Type 0) : Type 0 where
  pub code : ℤ
  pub message : Text
  pub data_of : TenantBalance Amount

-- PENDING, LIVE and STALED
pub data CacheStatus : Type 0 where
  pending live staled : CacheStatus

pub record BalanceCache (Amount : Type 0) : Type 0 where
  pub balance : Amount
  pub tenant_id : ℤ
  pub token : Text
  pub status : CacheStatus

-- What a request ends with: no request could be made, the service did not answer, its answer is no
-- JSON, or it is a response.
pub data Reply (Amount : Type 0) : Type 0 where
  no_request no_answer no_json : Reply Amount
  response : BalanceResponse Amount → Reply Amount

pub data QueryError : Type 0 where
  new_request do_request : QueryError
  unmarshal : ℤ → QueryError
  balance_query idle_too_long : QueryError

unfoldable pub is_staled : CacheStatus → Bool
is_staled staled = true
is_staled pending = false
is_staled live = false

module _ {Amount : Type 0} where
  unfoldable pub iam_alive : BalanceCache Amount → BalanceCache Amount
  unfolding is_staled
  iam_alive c = if is_staled c.status then record c { status = pending } else c

  unfoldable pub iam_gone : BalanceCache Amount → BalanceCache Amount
  iam_gone c = record c { status = staled }

  unfoldable pub is_alive : BalanceCache Amount → Bool
  unfolding is_staled
  is_alive c = not (is_staled c.status)

  unfoldable pub is_gone : BalanceCache Amount → Bool
  unfolding is_staled
  is_gone c = is_staled c.status

  unfoldable pub do_query_balance :
      Reply Amount → BalanceCache Amount → BalanceCache Amount × Option QueryError
  do_query_balance no_request c = (c, some new_request)
  do_query_balance no_answer c = (c, some do_request)
  do_query_balance no_json c = (c, some (unmarshal c.tenant_id))
  do_query_balance (response r) c =
      if eq_ℤ r.code (pos 200)
      then (record c { balance = r.data_of.balance; status = live }, none)
      else (c, some balance_query)

  -- BalanceCache.Query
  unfoldable pub query_cached : BalanceCache Amount → Amount × Option QueryError
  unfolding is_staled
  query_cached c = (c.balance, if is_staled c.status then some idle_too_long else none)

-- `nothing` is the float 0, and below `unknown` is -1.
module _ {Amount : Type 0} (nothing : Amount) where
  unfoldable pub clear_on_error : BalanceCache Amount × Option QueryError → BalanceCache Amount
  clear_on_error (c, none) = c
  clear_on_error (c, some e) = record c { balance = nothing }

  unfoldable pub query : Reply Amount → BalanceCache Amount → BalanceCache Amount
  unfolding do_query_balance clear_on_error
  query r c = clear_on_error (do_query_balance r c)

module _ {Amount : Type 0} (unknown : Amount) where
  -- newBalanceCache up to its goroutines, and its own query, whose error is only logged.
  unfoldable pub new_cache : Text → ℤ → BalanceCache Amount
  new_cache token tenant_id = record {
    balance = unknown;
    tenant_id = tenant_id;
    token = token;
    status = pending;
  }

  unfoldable pub new_balance_cache : Text → ℤ → Reply Amount → BalanceCache Amount
  unfolding new_cache do_query_balance
  new_balance_cache token tenant_id r = (do_query_balance r (new_cache token tenant_id)).0

  -- getBalanceCache: the first call alone makes a cache.
  unfoldable pub get_balance_cache :
      Text → ℤ → Reply Amount → Option (BalanceCache Amount) → BalanceCache Amount
  unfolding new_balance_cache
  get_balance_cache token tenant_id r (some c) = c
  get_balance_cache token tenant_id r none = new_balance_cache token tenant_id r

-- The cache with its goroutines: whether the loop waits for an answer, how many requests it has made,
-- and whether the channel `done` is closed.
pub record Session (Amount : Type 0) : Type 0 where
  pub cache : BalanceCache Amount
  pub asking : Bool
  pub requests : ℕ
  pub closed : Bool

-- Close: `none` is the panic of closing a closed channel.
unfoldable pub close : {Amount : Type 0} → Session Amount → Option (Session Amount)
close s = if s.closed then none else some (record s { closed = true })

-- What the goroutines do, one critical section each: the beat's goroutine takes a beat or its timer
-- fires; the ticker fires in the loop, and the loop's request ends; a QueryBalance stores its token,
-- and the request of one ends. A list of
-- events need not have a tick for each answer.
pub data Event (Amount : Type 0) : Type 0 where
  beat timeout tick : Event Amount
  answer fetched : Reply Amount → Event Amount
  login : Text → Event Amount

module _ {Amount : Type 0} (nothing : Amount) where
  unfoldable pub step : Event Amount → Session Amount → Session Amount
  unfolding iam_alive iam_gone is_alive query
  step beat s = if s.closed then s else record s { cache = iam_alive s.cache }
  step timeout s = if s.closed then s else record s { cache = iam_gone s.cache }
  step tick s =
      if not (s.closed || s.asking) && is_alive s.cache
      then record s { asking = true; requests = suc s.requests }
      else s
  step (answer r) s = record s { cache = query nothing r s.cache; asking = false }
  step (fetched r) s = record s { cache = query nothing r s.cache }
  step (login token) s = record s { cache = record s.cache { token = token } }

  unfoldable pub run : List (Event Amount) → Session Amount → Session Amount
  unfolding step
  run [] s = s
  run (e ∷ es) s = run es (step e s)

  -- `<-ctx.Done()` of QueryBalance: its request ended with a reply, or the five seconds passed first.
  unfoldable pub await : Option (Reply Amount) → Session Amount → Session Amount
  unfolding step
  await none s = s
  await (some r) s = step (fetched r) s

  -- QueryBalance after getBalanceCache, with what the other goroutines do before it looks at the
  -- status, while it waits for its reply, and before it reads the balance. Its own beat is one of
  -- these events.
  unfoldable pub query_balance :
      Text
      → List (Event Amount)
      → List (Event Amount)
      → Option (Reply Amount)
      → List (Event Amount)
      → Session Amount
      → Amount × Session Amount
  unfolding run is_gone await
  query_balance token before during reply after s =
      let looked = run before (step (login token) s) in
      let t =
        if is_gone looked.cache
        then run after (await reply (run during looked))
        else run after looked in
      (t.cache.balance, t)
