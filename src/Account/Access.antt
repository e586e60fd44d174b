-- ===== src/Account/Access.antt =====
-- Who may read an account, and that the cache keeps what the legacy system said.
use dante_api_systems.Base.{
  str_eq, ◌≡◌, ◌≢◌, ◌⊎◌, inl, inr, List, [], ◌∷◌, String, Option, some, none, eq_iff, Bool-cases,
  arith, if◌then◌else◌,
}
use dante_api_systems.Base.Int.{eqb_ℤ}
use dante_api_systems.Go.Errors.{Error, sentinel, account_access_denied}
use dante_api_systems.Go.Exec.{answer, error, ok, err, Env}
use dante_api_systems.Models.{Uuid, Account}
use dante_api_systems.Views.{SessionView, AccountBalanceCacheEntry}
use dante_api_systems.Cache.Policy.{account_balance_ttl}
use dante_api_systems.Account.{
  BalanceView, Call, Response, get_account_by_id, get_account_balance, set_account_balance,
  get_profile, account_balance, profile_view,
}

-- Either the requested account has the session's number, and its profile is answered; or it has
-- another one, and both reads are refused after the one lookup of the account: neither the cache
-- nor the legacy system is asked, and nothing is stored.
pub access_guarded :
    (id : Uuid) (session : SessionView) (uuid_string : Uuid → String) (pin : String)
    (env : Env Response) (a : Account)
    → env [] (get_account_by_id id) ≡ answer a
    → let asked = get_account_by_id id ∷ [] in
      ((a.account_number ≡ session.account_number)
        × (get_profile id session env [] ≡ (ok (profile_view id session a), asked)))
      ⊎ ((a.account_number ≢ session.account_number)
          × (get_profile id session env [] ≡ (err (sentinel account_access_denied), asked))
          × (account_balance id session uuid_string pin env []
              ≡ (err (sentinel account_access_denied), asked)))
unfolding get_profile account_balance
access_guarded id session uuid_string pin env a found =
    rw found (elim (Bool-cases (str_eq a.account_number session.account_number)) [
      | inl e ↦ inl (ground (arith, eq_iff a.account_number session.account_number))
      | inr e ↦ inr (ground (arith, eq_iff a.account_number session.account_number))
    ])

-- The entry that the last call of a trace stores, with the lifetime of a balance.
abbrev pub last_stored : List Call → Option AccountBalanceCacheEntry
last_stored (set_account_balance entry ttl ∷ before) =
    if eqb_ℤ ttl account_balance_ttl then some entry else none
last_stored _ = none

abbrev pub entry_of : (Uuid → String) → BalanceView → AccountBalanceCacheEntry
entry_of uuid_string v = record {
  account_id = uuid_string v.account_id;
  reference_account_id = v.reference_account_id;
  balance = v.balance;
  fetched_at = v.fetched_at;
}

-- A balance that is not in the cache is read from the legacy system. If that read succeeds, the
-- last call stores what was answered, with the lifetime of a balance; and a later read of the same
-- account that finds this entry in the cache answers the same, but for the source, and calls
-- nothing but the database and the cache.
pub balance_kept :
    (id : Uuid) (session : SessionView) (uuid_string : Uuid → String) (pin : String)
    (env env' : Env Response) (a : Account) (x : Error) (v : BalanceView)
    → let found = get_account_by_id id in
      let cached = get_account_balance id in
      env [] found ≡ answer a
      → env (found ∷ []) cached ≡ error x
      → (account_balance id session uuid_string pin env []).0 ≡ ok v
      → env' [] found ≡ answer a
      → env' (found ∷ []) cached ≡ answer (entry_of uuid_string v)
      → (v.source ≡ "legacy")
        × (last_stored (account_balance id session uuid_string pin env []).1
            ≡ some (entry_of uuid_string v))
        × (account_balance id session uuid_string pin env' []
            ≡ (ok (record v { source = "cache" }), cached ∷ found ∷ []))
unfolding account_balance
balance_kept id session uuid_string pin env env' a x v found missed answered found' hit =
    ground (arith)
