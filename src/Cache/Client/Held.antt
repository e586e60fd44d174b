-- ===== src/Cache/Client/Held.antt =====
-- What the operations of other clients do to a lock that is held.
use dante_api_systems.Base.{
  ℕ, ◌≡◌, ◌≢◌, inl, inr, sym, ap, ◌∙◌, subst, Bool-cases, List, [], ◌∷◌, Option, some, String,
  str_eq, eq_iff, arith,
}
use dante_api_systems.Base.Int.{ℤ}
use dante_api_systems.Go.Exec.{Reply, answer, error, Env}
use dante_api_systems.Go.Trace.{total}
use dante_api_systems.Models.{Uuid}
use dante_api_systems.Cache.Policy.{
  merchant_key, merchant_lock_key, transaction_status_key, account_balance_key, session_key,
}
use dante_api_systems.Cache.Client.{
  Call, Response, Codecs, redis_get, redis_set, redis_del, redis_set_nx, redis_eval_release,
  new_token, get_merchant, set_merchant, set_merchant_not_found, delete_merchant,
  get_transaction_status, set_transaction_status, delete_transaction_status, get_account_balance,
  set_account_balance, delete_account_balance, get_session, set_session, delete_session,
  acquire_merchant_lock, release_merchant_lock, encoded,
}
use dante_api_systems.Cache.Client.Server.{after, served, Writes, IsRedis}
use dante_api_systems.Cache.Client.Keys.{
  first_code, lock_code, merchant_code, status_code, balance_code, session_code,
}
use dante_api_systems.Cache.Client.Operations.{
  Operation, read_merchant, write_merchant, write_merchant_not_found, remove_merchant, read_status,
  write_status, remove_status, read_balance, write_balance, remove_balance, read_session,
  write_session, remove_session, acquire, release, performed, Unreleased, taken,
}

module _ {S : Type 0} (serve : (c : Call) → S → Response c × S) (value : String → S → Option String)
    (redis : IsRedis serve value) (codecs : Codecs) (s : S) (id : Uuid) (token : String) where
  abbrev env : Env Response
  env = served serve s

  abbrev lock : String
  lock = merchant_lock_key codecs.uuid_string id

  -- The lock is held with the token, and was acquired `count` times.
  pub record Held (count : ℕ) (h : List Call) : Type 0 where
    pub same_value : value lock (after serve s h) ≡ some token
    pub same_count : total (taken lock) env h ≡ count

  entry_key : (key : String) → first_code key ≢ 108 → key ≢ lock
  entry_key key differ e = differ (ap first_code e ∙ lock_code (codecs.uuid_string id))

  module _ (n : ℕ) (h : List Call) (held : Held n h) where
    -- A command that does not write the lock.
    kept : (c : Call) → (Writes c lock → ⊥) → value lock (after serve s (c ∷ h)) ≡ some token
    kept c away = redis.others c lock (after serve s h) away ∙ held.same_value

    get-Held : (key : String) → Held n (redis_get key ∷ h)
    get-Held key = ground (arith, held, kept (redis_get key) (λ x. x))

    token-Held : Held n (new_token ∷ h)
    token-Held = ground (arith, held, kept new_token (λ x. x))

    set-Held : (key v : String) (ttl : ℤ) → first_code key ≢ 108 → Held n (redis_set key v ttl ∷ h)
    set-Held key v ttl differ =
        ground (arith, held, kept (redis_set key v ttl) (entry_key key differ))

    del-Held : (key : String) → first_code key ≢ 108 → Held n (redis_del key ∷ h)
    del-Held key differ = ground (arith, held, kept (redis_del key) (entry_key key differ))

    set_nx-Held-same : (v : String) (ttl : ℤ) → Held n (redis_set_nx lock v ttl ∷ h)
    set_nx-Held-same v ttl =
        let st = after serve s h in
        ground (
          arith,
          held,
          redis.set_nx_sets lock v ttl st,
          redis.set_nx_keeps lock v token ttl st held.same_value,
        )

    set_nx-Held : (key v : String) (ttl : ℤ) → Held n (redis_set_nx key v ttl ∷ h)
    set_nx-Held key v ttl = elim (Bool-cases (str_eq key lock)) [
      | inl same ↦
          subst (λ k. Held n (redis_set_nx k v ttl ∷ h)) (sym ((eq_iff key lock).0 same))
            (set_nx-Held-same v ttl)
      | inr differ ↦ ground (
        arith,
        held,
        differ,
        kept (redis_set_nx key v ttl) (λ e. ground (arith, differ, eq_iff key lock, e)),
      )
    ]

    eval-Held-same : (other : String) → other ≢ token → Held n (redis_eval_release lock other ∷ h)
    eval-Held-same other differ =
        ground
          (arith, held, redis.script_fails lock other (after serve s h), eq_iff token other, differ)

    eval-Held : (key other : String) → other ≢ token → Held n (redis_eval_release key other ∷ h)
    eval-Held key other differ = elim (Bool-cases (str_eq key lock)) [
      | inl same ↦
          subst (λ k. Held n (redis_eval_release k other ∷ h)) (sym ((eq_iff key lock).0 same))
            (eval-Held-same other differ)
      | inr apart ↦ ground (
        arith,
        held,
        kept (redis_eval_release key other) (λ e. ground (arith, apart, eq_iff key lock, e)),
      )
    ]

    -- A set of a payload, whatever the encoding answered.
    encoded-Held :
        (a b key : String) (ttl : ℤ) (made : Reply String)
        → first_code key ≢ 108
        → Held n (encoded a b key ttl made env h).1
    encoded-Held a b key ttl (error e) differ = held
    encoded-Held a b key ttl (answer p) differ = ground (arith, set-Held key p ttl differ)

  merchant-entry : (other : Uuid) → first_code (merchant_key codecs.uuid_string other) ≢ 108
  merchant-entry other e = omega (arith, merchant_code (codecs.uuid_string other), e)

  status-entry : (other : Uuid) → first_code (transaction_status_key codecs.uuid_string other) ≢ 108
  status-entry other e = omega (arith, status_code (codecs.uuid_string other), e)

  balance-entry : (other : Uuid) → first_code (account_balance_key codecs.uuid_string other) ≢ 108
  balance-entry other e = omega (arith, balance_code (codecs.uuid_string other), e)

  session-entry : (other : String) → first_code (session_key other) ≢ 108
  session-entry other e = omega (arith, session_code other, e)

  -- Whatever an operation other than a release with the token does, the lock stays.
  pub performed-Held :
      (n : ℕ) (h : List Call) (op : Operation)
      → Held n h
      → Unreleased token (op ∷ [])
      → Held n (performed codecs env op h)
  unfolding get_merchant set_merchant set_merchant_not_found delete_merchant get_transaction_status
      set_transaction_status delete_transaction_status get_account_balance set_account_balance
      delete_account_balance get_session set_session delete_session acquire_merchant_lock
      release_merchant_lock
  performed-Held n h (read_merchant other) held u =
      ground (arith, get-Held n h held (merchant_key codecs.uuid_string other))
  performed-Held n h (write_merchant merchant ttl) held u =
      encoded-Held n h held _ _ _ ttl _ (merchant-entry merchant.id)
  performed-Held n h (write_merchant_not_found other ttl) held u =
      encoded-Held n h held _ _ _ ttl _ (merchant-entry other)
  performed-Held n h (remove_merchant other) held u =
      ground
        (arith, del-Held n h held (merchant_key codecs.uuid_string other) (merchant-entry other))
  performed-Held n h (read_status other) held u =
      ground (arith, get-Held n h held (transaction_status_key codecs.uuid_string other))
  performed-Held n h (write_status entry ttl) held u =
      grind (arith, held, set-Held n h held, status-entry)
  performed-Held n h (remove_status other) held u = ground (
    arith,
    del-Held n h held (transaction_status_key codecs.uuid_string other) (status-entry other),
  )
  performed-Held n h (read_balance other) held u =
      ground (arith, get-Held n h held (account_balance_key codecs.uuid_string other))
  performed-Held n h (write_balance entry ttl) held u =
      grind (arith, held, set-Held n h held, balance-entry)
  performed-Held n h (remove_balance other) held u = ground (
    arith,
    del-Held n h held (account_balance_key codecs.uuid_string other) (balance-entry other),
  )
  performed-Held n h (read_session other) held u =
      ground (arith, get-Held n h held (session_key other))
  performed-Held n h (write_session entry ttl) held u =
      encoded-Held n h held _ _ _ ttl _ (session-entry entry.token)
  performed-Held n h (remove_session other) held u =
      ground (arith, del-Held n h held (session_key other) (session-entry other))
  performed-Held n h (acquire other ttl) held u =
      let v = env h new_token in
      ground (
        arith,
        set_nx-Held n (new_token ∷ h) (token-Held n h held)
            (merchant_lock_key codecs.uuid_string other) v ttl,
      )
  performed-Held n h (release other bearing) held (differ, rest) =
      ground (arith, eval-Held n h held (merchant_lock_key codecs.uuid_string other) bearing differ)
