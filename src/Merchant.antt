-- ===== src/Merchant.antt =====
-- internal/service/merchant/service.go: GetMerchant, which reads a merchant from the cache, the
-- database, or, under a lock in the cache, the legacy system. Statistics and spans are left out.
pub mod Waiting
pub mod Lookup
pub mod Remote
mod Tests
use dante_api_systems.Base.{ℕ, zero, suc, ◌∷◌, Option, none, some, String, if◌then◌else◌}
use dante_api_systems.Base.Int.{ℤ, pos}
use dante_api_systems.Go.Errors.{
  Error, sentinel, is, wrap, no_rows, redis_nil, lookup_in_progress, legacy_not_found,
  deadline_exceeded, failure,
}
use dante_api_systems.Go.Exec.{
  Reply, answer, error, Result, ok, err, panic, Exec, ask, pure, fail, crash, ◌>>=◌, ◌>>◌,
}
use dante_api_systems.Models.{Uuid, Merchant}
use dante_api_systems.Cache.Policy.{merchant_ttl, merchant_negative_ttl, merchant_lock_ttl}

-- The `select` of the waiting loop: a tick, or the context is done.
pub data ContextError : Type 0 where
  timed_out : ContextError
  canceled : ContextError

pub data Selected : Type 0 where
  ticked : Selected
  done : ContextError → Selected

-- `waitCtx.Err()`
abbrev context_error : ContextError → Error
context_error timed_out = sentinel deadline_exceeded
context_error canceled = failure "context canceled"

-- A lock that another request holds is answered by `none`. Those that `start` run as goroutines,
-- whose errors are dropped.
pub data Call : Type 0 where
  get_cached_merchant : Uuid → Call
  get_merchant_by_id : Uuid → Call
  acquire_merchant_lock : Uuid → ℤ → Call
  release_merchant_lock : Uuid → String → Call
  legacy_get_merchant : Uuid → Call
  start_set_merchant : Merchant → ℤ → Call
  start_set_merchant_not_found : Uuid → ℤ → Call
  select_wait : ℤ → ℤ → Call

abbrev pub Response : Call → Type 0
Response (get_cached_merchant id) = Reply Merchant
Response (get_merchant_by_id id) = Reply Merchant
Response (acquire_merchant_lock id ttl) = Reply (Option String)
Response (legacy_get_merchant id) = Reply Merchant
Response (select_wait timeout interval) = Selected
Response _ = Reply (Unit {0})

abbrev pub Action : Type 0 → Type 0
Action A = Exec Response A

abbrev pub merchant_lock_wait_timeout : ℤ
merchant_lock_wait_timeout = pos 750000000

abbrev pub merchant_lock_poll_interval : ℤ
merchant_lock_poll_interval = pos 50000000

abbrev pub cache_merchant_async : Merchant → Action (Reply (Unit {0}))
cache_merchant_async merchant = ask (start_set_merchant merchant merchant_ttl)

abbrev pub cache_merchant_not_found_async : Uuid → Action (Reply (Unit {0}))
cache_merchant_not_found_async id = ask (start_set_merchant_not_found id merchant_negative_ttl)

-- `select` after a poll of the cache that found nothing
abbrev selected : Action Merchant → Selected → Action Merchant
selected again ticked = again
selected again (done e) = fail (context_error e)

abbrev polled : Action Merchant → Reply Merchant → Action Merchant
polled again (answer merchant) = pure merchant
polled again (error e) =
    if is e no_rows
    then fail e
    else (if is e redis_nil
        then (do
          next ← ask (select_wait merchant_lock_wait_timeout merchant_lock_poll_interval)
          selected again next)
        else fail (wrap "wait for merchant cache fill" e))

-- `waitForMerchantFill`, on fuel: as many polls of the cache at most, and then a crash, which a
-- deadline that comes in time excludes.
unfoldable pub wait_for_merchant_fill : ℕ → Uuid → Action Merchant
wait_for_merchant_fill zero id = crash
wait_for_merchant_fill (suc fuel) id =
    ask (get_cached_merchant id) >>= polled (wait_for_merchant_fill fuel id)

-- What a request whose merchant another one is fetching returns, after it has waited.
abbrev pub contended : Result Merchant → Result Merchant
contended (ok merchant) = ok merchant
contended (err e) = if is e no_rows then err e else err (sentinel lookup_in_progress)
contended panic = panic

abbrev wait_contended : ℕ → Uuid → Action Merchant
wait_contended fuel id env h = let (r, t) = wait_for_merchant_fill fuel id env h in (contended r, t)

-- A deferred call, made however the action ends; its error is dropped.
abbrev deferring : {A : Type 0} → Call → Action A → Action A
deferring c m env h = let (r, t) = m env h in (r, c ∷ t)

module _ (id : Uuid) where
  abbrev legacy_answered : Reply Merchant → Action Merchant
  legacy_answered (answer merchant) = do cache_merchant_async merchant; pure merchant
  legacy_answered (error e) =
      if is e legacy_not_found
      then (do cache_merchant_not_found_async id; fail (sentinel no_rows))
      else fail (wrap "read merchant from legacy" e)

  abbrev read_legacy : Action Merchant
  read_legacy = do found ← ask (legacy_get_merchant id); legacy_answered found

  abbrev lock_answered : ℕ → Reply (Option String) → Action Merchant
  lock_answered fuel (error e) = fail (wrap "acquire merchant cache lock" e)
  lock_answered fuel (answer none) = wait_contended fuel id
  lock_answered fuel (answer (some token)) = deferring (release_merchant_lock id token) read_legacy

  abbrev database_answered : ℕ → Reply Merchant → Action Merchant
  database_answered fuel (answer merchant) = do cache_merchant_async merchant; pure merchant
  database_answered fuel (error e) =
      if is e no_rows
      then (do lock ← ask (acquire_merchant_lock id merchant_lock_ttl); lock_answered fuel lock)
      else fail (wrap "read merchant from database" e)

  abbrev cache_answered : ℕ → Reply Merchant → Action Merchant
  cache_answered fuel (answer merchant) = pure merchant
  cache_answered fuel (error e) =
      if is e no_rows
      then fail e
      else (if is e redis_nil
          then (do row ← ask (get_merchant_by_id id); database_answered fuel row)
          else fail (wrap "read merchant from cache" e))

  -- `GetMerchant`, with the fuel of its waiting loop
  unfoldable pub get_merchant : ℕ → Action Merchant
  get_merchant fuel = do found ← ask (get_cached_merchant id); cache_answered fuel found
