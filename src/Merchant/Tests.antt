-- ===== src/Merchant/Tests.antt =====
-- Concrete instances for merchant lookups.
use dante_api_systems.Base.{
  ℕ, suc, ◌≤◌, ◌≡◌, ◌≢◌, refl, List, [], ◌∷◌, none, some, ltb, arith, if◌then◌else◌,
}
use dante_api_systems.Go.Errors.{sentinel, no_rows, redis_nil, legacy_not_found, lookup_in_progress}
use dante_api_systems.Go.Exec.{answer, error, ok, err, panic, Env}
use dante_api_systems.Go.Trace.{total}
use dante_api_systems.Models.{Merchant}
use dante_api_systems.Merchant.{
  Call, Response, ticked, done, timed_out, get_cached_merchant, get_merchant_by_id,
  acquire_merchant_lock, release_merchant_lock, legacy_get_merchant, start_set_merchant,
  start_set_merchant_not_found, select_wait, wait_for_merchant_fill, get_merchant,
}
use dante_api_systems.Merchant.Waiting.{Deadline, FilledAfter, polls, ticks, wait_ends, wait_filled}
use dante_api_systems.Merchant.Lookup.{get_merchant_ends}

abbrev shop : Merchant
shop = record { id = 5; name = "Shop"; qris_code = "QR5"; category = none; created_at = 1 }

-- How often the request has waited.
abbrev rounds : List Call → ℕ
rounds [] = 0
rounds (select_wait timeout interval ∷ h) = suc (rounds h)
rounds (_ ∷ h) = rounds h

-- Another request has the lock, and fills the cache after two ticks.
abbrev filling : Env Response
filling h (get_cached_merchant id) =
    if ltb (rounds h) 2 then error (sentinel redis_nil) else answer shop
filling h (get_merchant_by_id id) = error (sentinel no_rows)
filling h (acquire_merchant_lock id ttl) = answer none
filling h (select_wait timeout interval) = ticked
filling h (legacy_get_merchant id) = answer shop
filling h (release_merchant_lock id token) = answer tt
filling h (start_set_merchant merchant ttl) = answer tt
filling h (start_set_merchant_not_found id ttl) = answer tt

-- It fills nothing, and the deadline comes after three ticks.
abbrev stalled : Env Response
stalled h (get_cached_merchant id) = error (sentinel redis_nil)
stalled h (select_wait timeout interval) = if ltb (rounds h) 3 then ticked else done timed_out
stalled h c = filling h c

-- The request has the lock, and the legacy system does not know the merchant.
abbrev alone : Env Response
alone h (acquire_merchant_lock id ttl) = answer (some "t1")
alone h (legacy_get_merchant id) = error (sentinel legacy_not_found)
alone h c = stalled h c

ticks-filling : (h : List Call) → total ticks filling h ≡ rounds h
ticks-filling [] = refl
ticks-filling (c ∷ h) = ground (arith, ticks-filling h)

ticks-stalled : (h : List Call) → total ticks stalled h ≤ rounds h
ticks-stalled [] = omega arith
ticks-stalled (c ∷ h) = ground (arith, ticks-stalled h)

stalled-Deadline : Deadline stalled 3
stalled-Deadline h timeout interval late = (timed_out, ground (arith, ticks-stalled h))

filling-FilledAfter : FilledAfter 5 filling 2 shop
filling-FilledAfter = record {
  misses = λ h low. ground (arith, ticks-filling h);
  hit = λ h same. ground (arith, ticks-filling h);
  waits = λ h timeout interval low. refl;
}

stalled_lookup : (get_merchant 5 4 stalled []).0 ≡ err (sentinel lookup_in_progress)
unfolding get_merchant wait_for_merchant_fill
stalled_lookup = refl

wait_ends_example :
    let (r, t) = wait_for_merchant_fill 4 5 stalled [] in (r ≢ panic) × (total polls stalled t ≤ 4)
wait_ends_example = wait_ends 5 stalled 3 stalled-Deadline

wait_filled_example :
    let (r, t) = wait_for_merchant_fill 4 5 filling [] in
    (r ≡ ok shop) × (total polls filling t ≡ 3)
wait_filled_example = wait_filled 5 filling 3 2 shop filling-FilledAfter (omega arith)

get_merchant_ends_example :
    let (r, t) = get_merchant 5 4 stalled [] in (r ≢ panic) × (total polls stalled t ≤ 5)
get_merchant_ends_example = get_merchant_ends 5 stalled 3 stalled-Deadline
