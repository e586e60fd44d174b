-- ===== src/Merchant/Lookup.antt =====
-- The lock, the sources and the fills of a lookup.
use dante_api_systems.Base.{
  ℕ, zero, suc, ◌+◌, ◌≤◌, ◌≡◌, ◌≢◌, List, [], ◌∷◌, ◌++◌, Option, some, none, String, str_eq, arith,
  if◌then◌else◌,
}
use dante_api_systems.Go.Errors.{is, no_rows, legacy_not_found}
use dante_api_systems.Go.Exec.{Reply, answer, error, Result, err, panic, Env}
use dante_api_systems.Go.Trace.{total}
use dante_api_systems.Cache.Policy.{merchant_lock_ttl}
use dante_api_systems.Models.{Uuid, Merchant}
use dante_api_systems.Merchant.{
  Call, Response, get_cached_merchant, get_merchant_by_id, acquire_merchant_lock,
  release_merchant_lock, legacy_get_merchant, start_set_merchant, start_set_merchant_not_found,
  select_wait, wait_for_merchant_fill, merchant_lock_wait_timeout, merchant_lock_poll_interval,
  get_merchant,
}
use dante_api_systems.Merchant.Waiting.{Deadline, polls, wait_for_merchant_fill_ends}

-- The token of the lock that the request has after its calls: one that it acquired and did not
-- release with that same token.
abbrev pub acquired : Reply (Option String) → Option String → Option String
acquired (answer (some token)) before = some token
acquired _ before = before

abbrev pub without : String → Option String → Option String
without token (some own) = if str_eq own token then none else some own
without token none = none

abbrev pub held : Env Response → List Call → Option String
held env [] = none
held env (acquire_merchant_lock id ttl ∷ h) =
    acquired (env h (acquire_merchant_lock id ttl)) (held env h)
held env (release_merchant_lock id token ∷ h) = without token (held env h)
held env (_ ∷ h) = held env h

-- Questions to the legacy system without the lock.
abbrev pub outside : Option String → ℕ
outside (some token) = 0
outside none = 1

abbrev pub unguarded : Env Response → List Call → ℕ
unguarded env [] = 0
unguarded env (legacy_get_merchant id ∷ h) = outside (held env h) + unguarded env h
unguarded env (_ ∷ h) = unguarded env h

abbrev pub legacy_reads : (c : Call) → Response c → ℕ
legacy_reads (legacy_get_merchant id) r = 1
legacy_reads _ _ = 0

abbrev pub database_reads : (c : Call) → Response c → ℕ
database_reads (get_merchant_by_id id) r = 1
database_reads _ _ = 0

-- Merchants that the database or the legacy system answered, and the goroutines that cache one.
abbrev pub fetched : (c : Call) → Response c → ℕ
fetched (get_merchant_by_id id) (answer merchant) = 1
fetched (legacy_get_merchant id) (answer merchant) = 1
fetched _ _ = 0

abbrev pub fills : (c : Call) → Response c → ℕ
fills (start_set_merchant merchant ttl) r = 1
fills _ _ = 0

-- Refusals of the legacy system that say the merchant is not there, and the goroutines that cache
-- this.
abbrev pub unknown : (c : Call) → Response c → ℕ
unknown (legacy_get_merchant id) (error e) = if is e legacy_not_found then 1 else 0
unknown _ _ = 0

abbrev pub negative_fills : (c : Call) → Response c → ℕ
negative_fills (start_set_merchant_not_found id ttl) r = 1
negative_fills _ _ = 0

-- Refusals that say the merchant is not there: no rows, or that the legacy system does not know it.
abbrev pub missing : (c : Call) → Response c → ℕ
missing (get_cached_merchant id) (error e) = if is e no_rows then 1 else 0
missing (acquire_merchant_lock id ttl) (error e) = if is e no_rows then 1 else 0
missing (legacy_get_merchant id) (error e) =
    if is e legacy_not_found then 1 else (if is e no_rows then 1 else 0)
missing _ _ = 0

abbrev pub no_row_refusals : Result Merchant → ℕ
no_row_refusals (err e) = if is e no_rows then 1 else 0
no_row_refusals _ = 0

-- From one trace to another: no call but those of the waiting loop.
record Waited (env : Env Response) (h t : List Call) : Type 0 where
  pub same_held : held env t ≡ held env h
  pub same_unguarded : unguarded env t ≡ unguarded env h
  pub same_legacy : total legacy_reads env t ≡ total legacy_reads env h
  pub same_database : total database_reads env t ≡ total database_reads env h
  pub same_fetched : total fetched env t ≡ total fetched env h
  pub same_fills : total fills env t ≡ total fills env h
  pub same_unknown : total unknown env t ≡ total unknown env h
  pub same_negative : total negative_fills env t ≡ total negative_fills env h

-- The calls of a round of the waiting loop, and those before it.
abbrev once : Uuid → List Call
once id =
    select_wait merchant_lock_wait_timeout merchant_lock_poll_interval ∷ get_cached_merchant id ∷ []

abbrev contending : Uuid → List Call
contending id =
    acquire_merchant_lock id merchant_lock_ttl ∷ get_merchant_by_id id ∷ get_cached_merchant id ∷ []

module _ (id : Uuid) (env : Env Response) where
  wait-Waited : (fuel : ℕ) (h : List Call) → Waited env h (wait_for_merchant_fill fuel id env h).1
  unfolding wait_for_merchant_fill
  wait-Waited zero h = ground arith
  wait-Waited (suc fuel) h = ground (arith, wait-Waited fuel (once id ++ h))

  wait_refusals :
      (fuel : ℕ) (h : List Call)
      → let (r, t) = wait_for_merchant_fill fuel id env h in
        total missing env t ≡ total missing env h + no_row_refusals r
  unfolding wait_for_merchant_fill
  wait_refusals zero h = ground arith
  wait_refusals (suc fuel) h = ground (arith, wait_refusals fuel (once id ++ h))

-- A lookup starts a goroutine that caches the merchant for each answer of the database or the legacy
-- system, and one that caches its absence exactly if the legacy system does not know it; and it
-- returns no rows exactly if the cache, the lock or the legacy system failed with that, or the legacy
-- system does not know the merchant.
pub get_merchant-fills :
    (id : Uuid) (fuel : ℕ) (env : Env Response)
    → let (r, t) = get_merchant id fuel env [] in
      (total fills env t ≡ total fetched env t)
      × (total negative_fills env t ≡ total unknown env t)
      × (no_row_refusals r ≡ total missing env t)
unfolding get_merchant
get_merchant-fills id fuel env =
    ground
      (arith, wait-Waited id env fuel (contending id), wait_refusals id env fuel (contending id))

-- A lookup ends: where the context is done once `limit` ticks have come, it returns a merchant or an
-- error, after at most two more polls of the cache than that.
pub get_merchant_ends :
    (id : Uuid) (env : Env Response) (limit : ℕ)
    → Deadline env limit
    → let (r, t) = get_merchant id (suc limit) env [] in
      (r ≢ panic) × (total polls env t ≤ limit + 2)
unfolding get_merchant
get_merchant_ends id env limit deadline = ground (
  arith,
  wait_for_merchant_fill_ends id env limit deadline (suc limit) (contending id) (omega arith)
      (omega arith),
)
