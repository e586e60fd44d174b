-- ===== src/Merchant/Waiting.antt =====
-- The waiting loop of a request whose merchant another one is fetching.
use dante_api_systems.Base.{ℕ, zero, suc, ◌+◌, ◌≤◌, ◌<◌, ◌≡◌, ◌≢◌, List, [], ◌∷◌, arith, dec_lt}
use dante_api_systems.Base.Int.{ℤ}
use dante_api_systems.Go.Errors.{sentinel, redis_nil}
use dante_api_systems.Go.Exec.{answer, error, ok, panic, Env}
use dante_api_systems.Go.Trace.{total}
use dante_api_systems.Models.{Uuid, Merchant}
use dante_api_systems.Merchant.{
  Call, Response, ContextError, ticked, done, get_cached_merchant, select_wait,
  merchant_lock_wait_timeout, merchant_lock_poll_interval, wait_for_merchant_fill,
}

abbrev pub polls : (c : Call) → Response c → ℕ
polls (get_cached_merchant id) r = 1
polls _ _ = 0

abbrev pub ticks : (c : Call) → Response c → ℕ
ticks (select_wait timeout interval) ticked = 1
ticks _ _ = 0

-- The context is done once `limit` ticks have come.
abbrev pub Deadline : Env Response → ℕ → Type 0
Deadline env limit =
    (h : List Call) (timeout interval : ℤ)
    → limit ≤ total ticks env h
    → (e : ContextError) × (env h (select_wait timeout interval) ≡ done e)

module _ (id : Uuid) (env : Env Response) where
  -- The loop ends within as many polls as there are ticks to come, and one.
  pub wait_for_merchant_fill_ends :
      (limit : ℕ)
      → Deadline env limit
      → (fuel : ℕ) (h : List Call) → total ticks env h ≤ limit
      → limit < fuel + total ticks env h
      → let (r, t) = wait_for_merchant_fill fuel id env h in
        (r ≢ panic)
        × (total polls env t + total ticks env h ≤ total polls env h + 1 + limit)
        × (total polls env h ≤ total polls env t)
  unfolding wait_for_merchant_fill
  wait_for_merchant_fill_ends limit deadline zero h low enough = ground arith
  wait_for_merchant_fill_ends limit deadline (suc fuel) h low enough =
      let c = get_cached_merchant id in
      let at = select_wait merchant_lock_wait_timeout merchant_lock_poll_interval in
      let due = deadline (c ∷ h) merchant_lock_wait_timeout merchant_lock_poll_interval in
      let rest = wait_for_merchant_fill_ends limit deadline fuel (at ∷ c ∷ h) in
      elim (dec_lt (total ticks env h) limit) [
        | yes before ↦ ground (arith, rest)
        | no after ↦ let (e, over) = due (ground arith) in ground (arith, over)
      ]

  -- The cache misses until the poll after `count` ticks, and has the merchant then.
  pub record FilledAfter (count : ℕ) (merchant : Merchant) : Type 0 where
    pub misses :
        (h : List Call)
        → total ticks env h < count
        → env h (get_cached_merchant id) ≡ error (sentinel redis_nil)
    pub hit :
        (h : List Call)
        → total ticks env h ≡ count
        → env h (get_cached_merchant id) ≡ answer merchant
    pub waits :
        (h : List Call) (timeout interval : ℤ)
        → total ticks env h < count
        → env h (select_wait timeout interval) ≡ ticked

  wait_for_merchant_fill_filled :
      (count : ℕ) (merchant : Merchant)
      → FilledAfter count merchant
      → (fuel : ℕ) (h : List Call) → total ticks env h ≤ count
      → count < fuel + total ticks env h
      → let (r, t) = wait_for_merchant_fill fuel id env h in
        (r ≡ ok merchant) × (total polls env t + total ticks env h ≡ total polls env h + 1 + count)
  unfolding wait_for_merchant_fill
  wait_for_merchant_fill_filled count merchant filled zero h low enough = ground arith
  wait_for_merchant_fill_filled count merchant filled (suc fuel) h low enough =
      let c = get_cached_merchant id in
      let at = select_wait merchant_lock_wait_timeout merchant_lock_poll_interval in
      let rest = wait_for_merchant_fill_filled count merchant filled fuel (at ∷ c ∷ h) in
      elim (dec_lt (total ticks env h) count) [
        | yes before ↦
            let missed = filled.misses h before in
            let waited =
              filled.waits (c ∷ h) merchant_lock_wait_timeout merchant_lock_poll_interval
                (omega arith) in
            rw missed (rw waited (ground (arith, rest, waited)))
        | no after ↦ let found = filled.hit h (omega arith) in rw found (ground (arith, found))
      ]

-- A request that waits for another one's fill comes to an end by its deadline: where the context is
-- done once `limit` ticks have come, it polls the cache at most once more than that and returns.
pub wait_ends :
    (id : Uuid) (env : Env Response) (limit : ℕ)
    → Deadline env limit
    → let (r, t) = wait_for_merchant_fill (suc limit) id env [] in
      (r ≢ panic) × (total polls env t ≤ suc limit)
wait_ends id env limit deadline =
    let (no_panic, bound, _) =
      wait_for_merchant_fill_ends id env limit deadline (suc limit) [] (omega arith)
        (omega arith) in
    (no_panic, omega arith)

-- A request that waits sees the fill: if the cache misses until the poll after `count` ticks and
-- has the merchant then, before the deadline, the request returns that merchant, at that poll.
pub wait_filled :
    (id : Uuid) (env : Env Response) (limit count : ℕ) (merchant : Merchant)
    → FilledAfter id env count merchant
    → count ≤ limit
    → let (r, t) = wait_for_merchant_fill (suc limit) id env [] in
      (r ≡ ok merchant) × (total polls env t ≡ suc count)
wait_filled id env limit count merchant filled in_time =
    let (same, exact) =
      wait_for_merchant_fill_filled id env count merchant filled (suc limit) [] (omega arith)
        (omega arith) in
    (same, omega arith)
