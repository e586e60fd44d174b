-- ===== src/Bridge/Outage.antt =====
-- Merchant lookups while no legacy reader is configured: the lookup, the circuit breaker in front of
-- the reader and the handler together.
use dante_api_systems.Base.{
  ℕ, ◌<◌, ◌≡◌, false, List, [], ◌∷◌, some, String, arith, length, subst, ◌∙◌,
}
use dante_api_systems.Base.Int.{pos}
use dante_api_systems.Go.Errors.{
  sentinel, wrap, no_rows, redis_nil, legacy_unavailable, circuit_open,
}
use dante_api_systems.Go.Exec.{answer, error, ok, err, Env}
use dante_api_systems.Models.{Uuid}
use dante_api_systems.Breaker.{CircuitBreaker, state_closed, state_open, timed_out}
use dante_api_systems.Breaker.Runs.{repeat, repeat-error}
use dante_api_systems.Breaker.Spec.{execute_refuses}
use dante_api_systems.Merchant.{
  Call, get_cached_merchant, get_merchant_by_id, acquire_merchant_lock, legacy_get_merchant,
}
use dante_api_systems.Merchant.{Response as LookupResponse, get_merchant as look_up}
use dante_api_systems.Merchant.Remote.{noop_get_merchant, breaking_get_merchant}
use dante_api_systems.Cache.Policy.{merchant_lock_ttl}
use dante_api_systems.Bridge.{Response, Formats, refused, get_merchant}
use dante_api_systems.Bridge.Lookups.{show_merchant}
use dante_api_systems.Bridge.SignIn.{Returns}

-- The merchant is neither cached nor stored, the lock is free, and the legacy reader answers `reply`.
pub record Reaches (id : Uuid) (env : Env LookupResponse) (token : String) : Type 0 where
  pub uncached : env [] (get_cached_merchant id) ≡ error (sentinel redis_nil)
  pub unstored :
      env (get_cached_merchant id ∷ []) (get_merchant_by_id id) ≡ error (sentinel no_rows)
  pub locked :
      env
        (get_merchant_by_id id ∷ get_cached_merchant id ∷ [])
        (acquire_merchant_lock id merchant_lock_ttl)
      ≡ answer (some token)

-- The calls before the legacy reader is asked.
abbrev pub before : Uuid → List Call
before id =
    acquire_merchant_lock id merchant_lock_ttl ∷ get_merchant_by_id id ∷ get_cached_merchant id ∷ []

look_up-refused :
    (token : String) (id : Uuid) (fuel : ℕ) (env : Env LookupResponse)
    → Reaches id env token
    → env (before id) (legacy_get_merchant id) ≡ error (sentinel circuit_open)
    → (look_up id fuel env []).0 ≡ err (wrap "read merchant from legacy" (sentinel circuit_open))
unfolding look_up
look_up-refused token id fuel env reaches refusal = ground arith

breaking_open :
    (id : Uuid) (now later : ℕ) (cb : CircuitBreaker)
    → cb.state ≡ state_open
    → timed_out now cb ≡ false
    → (breaking_get_merchant noop_get_merchant now later id cb).0 ≡ error (sentinel circuit_open)
breaking_open id now later cb o soon =
    ground (arith, execute_refuses now (noop_get_merchant id) later cb)

show_merchant-refused :
    (formats : Formats) (text token : String) (id : Uuid) (fuel : ℕ) (env : Env LookupResponse)
    (http : Env Response)
    → formats.uuid_parse text ≡ answer id
    → Reaches id env token
    → env (before id) (legacy_get_merchant id) ≡ error (sentinel circuit_open)
    → Returns (look_up id fuel env []).0 (http [] (get_merchant id))
    → (show_merchant formats text http []).0 ≡ ok (refused 500 "failed to fetch merchant")
unfolding show_merchant
show_merchant-refused formats text token id fuel env http parsed reaches refusal told =
    let e = look_up-refused token id fuel env reaches refusal in
    let heard = subst (λ r. Returns r (http [] (get_merchant id))) e told in ground (arith, heard)

-- After as many lookups in a row as the threshold, each of which found no legacy reader, the breaker
-- is open, and until its timeout a lookup that reaches it is answered with the status 500.
pub outage_500 :
    (formats : Formats) (text token : String) (id : Uuid) (fuel f : ℕ) (env : Env LookupResponse)
    (http : Env Response) (cb : CircuitBreaker) (times : List (ℕ × ℕ)) (now later : ℕ)
    → cb.state ≡ state_closed
    → cb.cfg.failure_threshold ≡ pos f
    → cb.failure_count ≡ 0
    → length times ≡ f
    → 0 < f
    → timed_out now (repeat (error (sentinel legacy_unavailable)) times cb) ≡ false
    → formats.uuid_parse text ≡ answer id
    → Reaches id env token
    → env (before id) (legacy_get_merchant id)
      ≡ (breaking_get_merchant noop_get_merchant now later id
          (repeat (error (sentinel legacy_unavailable)) times cb)).0
    → Returns (look_up id fuel env []).0 (http [] (get_merchant id))
    → (show_merchant formats text http []).0 ≡ ok (refused 500 "failed to fetch merchant")
outage_500 formats text token id fuel f env http cb times now later closed threshold fresh full
      some_f soon parsed reaches asked told =
    let cb' = repeat (error (sentinel legacy_unavailable)) times cb in
    let opened : cb'.state ≡ state_open =
      ground (arith, repeat-error (sentinel legacy_unavailable) times cb f closed threshold) in
    show_merchant-refused formats text token id fuel env http parsed reaches
      (asked ∙ breaking_open id now later cb' opened soon) told
