-- ===== src/Cache/Client/Entries.antt =====
-- Entries that were written are read back.
use dante_api_systems.Base.{
  ◌≡◌, ◌⊎◌, refl, List, ◌∷◌, true, false, Option, none, some, String, arith,
}
use dante_api_systems.Base.Int.{ℤ}
use dante_api_systems.Go.Errors.{sentinel, is, no_rows, redis_nil}
use dante_api_systems.Go.Exec.{Reply, answer, error, Result, ok, err, panic, Env}
use dante_api_systems.Cache.Policy.{
  merchant_key, transaction_status_key, account_balance_key, session_key,
}
use dante_api_systems.Models.{Uuid, Merchant}
use dante_api_systems.Views.{TransactionStatusCacheEntry, AccountBalanceCacheEntry, SessionEntry}
use dante_api_systems.Cache.Client.{
  Call, Response, Codecs, redis_get, redis_set, get_merchant, set_merchant, set_merchant_not_found,
  get_transaction_status, set_transaction_status, get_account_balance, set_account_balance,
  get_session, set_session, encoded, MerchantCacheEntry,
}
use dante_api_systems.Cache.Client.Server.{after, served, IsFailure, IsRedis}

-- What the encoding of an entry documents: it is decoded to that entry.
pub record ReadsBack (codecs : Codecs) : Type 0 where
  pub merchant_back :
      (e : MerchantCacheEntry) (p : String)
      → codecs.merchant_entry.marshal e ≡ answer p
      → codecs.merchant_entry.unmarshal p ≡ answer e
  pub status_back :
      (e : TransactionStatusCacheEntry) (p : String)
      → codecs.status_entry.marshal e ≡ answer p
      → codecs.status_entry.unmarshal p ≡ answer e
  pub balance_back :
      (e : AccountBalanceCacheEntry) (p : String)
      → codecs.balance_entry.marshal e ≡ answer p
      → codecs.balance_entry.unmarshal p ≡ answer e
  pub session_back :
      (e : SessionEntry) (p : String)
      → codecs.session_entry.marshal e ≡ answer p
      → codecs.session_entry.unmarshal p ≡ answer e

-- A read of what is there: it answers that, or fails, but not as if there were nothing.
abbrev pub Reads : {A : Type 0} → Result A → Result A → Type 0
Reads wanted (ok a) = wanted ≡ ok a
Reads wanted (err e) = (wanted ≡ err e) ⊎ (is e redis_nil ≡ false)
Reads wanted panic = ⊥

module _ {S : Type 0} (serve : (c : Call) → S → Response c × S) (value : String → S → Option String)
    (redis : IsRedis serve value) (codecs : Codecs) (back : ReadsBack codecs) (s : S)
    (h : List Call) where
  abbrev env : Env Response
  env = served serve s

  -- A payload that was set is there for a get of its key.
  encoded-gotten :
      (marshal_text set_text key : String) (ttl : ℤ) (made : Reply String)
      → (encoded marshal_text set_text key ttl made env h).0 ≡ ok tt
      → (p : String) × (made ≡ answer p)
        × let t = (encoded marshal_text set_text key ttl made env h).1 in
          ((env t (redis_get key) ≡ answer p) ⊎ IsFailure (env t (redis_get key)))
  encoded-gotten marshal_text set_text key ttl (error e) done = ground arith
  encoded-gotten marshal_text set_text key ttl (answer p) done =
      let t = redis_set key p ttl ∷ h in
      let there = redis.set_sets key p ttl (after serve s h) (ground arith) in
      (p, refl, ground (arith, there, redis.get_answers key (after serve s t)))

  merchant_read_back :
      (merchant : Merchant) (ttl : ℤ)
      → (set_merchant codecs merchant ttl env h).0 ≡ ok tt
      → Reads
          (ok merchant)
          (get_merchant codecs merchant.id env (set_merchant codecs merchant ttl env h).1).0
  unfolding set_merchant get_merchant
  merchant_read_back merchant ttl done =
      let entry : MerchantCacheEntry = record { not_found = false; merchant = some merchant } in
      let (p, made, there) =
        encoded-gotten "marshal merchant cache payload" "set merchant cache payload"
          (merchant_key codecs.uuid_string merchant.id) ttl (codecs.merchant_entry.marshal entry)
          done in
      let read = back.merchant_back entry p made in ground (arith, there, read)

  not_found_read_back :
      (id : Uuid) (ttl : ℤ)
      → (set_merchant_not_found codecs id ttl env h).0 ≡ ok tt
      → Reads
          (err (sentinel no_rows))
          (get_merchant codecs id env (set_merchant_not_found codecs id ttl env h).1).0
  unfolding set_merchant_not_found get_merchant
  not_found_read_back id ttl done =
      let entry : MerchantCacheEntry = record { not_found = true; merchant = none } in
      let (p, made, there) =
        encoded-gotten "marshal merchant negative cache payload"
          "set merchant negative cache payload" (merchant_key codecs.uuid_string id) ttl
          (codecs.merchant_entry.marshal entry) done in
      let read = back.merchant_back entry p made in ground (arith, there, read)

  status_read_back :
      (entry : TransactionStatusCacheEntry) (id : Uuid) (ttl : ℤ)
      → codecs.uuid_parse entry.id ≡ answer id
      → (set_transaction_status codecs entry ttl env h).0 ≡ ok tt
      → Reads
          (ok entry)
          (get_transaction_status codecs id env (set_transaction_status codecs entry ttl env h).1).0
  unfolding set_transaction_status get_transaction_status
  status_read_back entry id ttl parsed done = made_as (codecs.status_entry.marshal entry) refl
    where
      made_as :
          (r : Reply String)
          → codecs.status_entry.marshal entry ≡ r
          → Reads
              (ok entry)
              (get_transaction_status codecs id env
                (set_transaction_status codecs entry ttl env h).1).0
      made_as (error e) made = ground arith
      made_as (answer p) made =
          let there =
            encoded-gotten "marshal transaction status cache payload"
              "set transaction status cache payload" (transaction_status_key codecs.uuid_string id)
              ttl (answer p) (ground arith) in
          let read = back.status_back entry p made in ground (arith, there, read)

  balance_read_back :
      (entry : AccountBalanceCacheEntry) (id : Uuid) (ttl : ℤ)
      → codecs.uuid_parse entry.account_id ≡ answer id
      → (set_account_balance codecs entry ttl env h).0 ≡ ok tt
      → Reads
          (ok entry)
          (get_account_balance codecs id env (set_account_balance codecs entry ttl env h).1).0
  unfolding set_account_balance get_account_balance
  balance_read_back entry id ttl parsed done = made_as (codecs.balance_entry.marshal entry) refl
    where
      made_as :
          (r : Reply String)
          → codecs.balance_entry.marshal entry ≡ r
          → Reads
              (ok entry)
              (get_account_balance codecs id env (set_account_balance codecs entry ttl env h).1).0
      made_as (error e) made = ground arith
      made_as (answer p) made =
          let there =
            encoded-gotten "marshal account balance cache payload"
              "set account balance cache payload" (account_balance_key codecs.uuid_string id) ttl
              (answer p) (ground arith) in
          let read = back.balance_back entry p made in ground (arith, there, read)

  session_read_back :
      (entry : SessionEntry) (ttl : ℤ)
      → (set_session codecs entry ttl env h).0 ≡ ok tt
      → Reads
          (ok entry)
          (get_session codecs entry.token env (set_session codecs entry ttl env h).1).0
  unfolding set_session get_session
  session_read_back entry ttl done =
      let (p, made, there) =
        encoded-gotten "marshal session cache payload" "set session cache payload"
          (session_key entry.token) ttl (codecs.session_entry.marshal entry) done in
      let read = back.session_back entry p made in ground (arith, there, read)

-- What is read after a write that ended without an error.
abbrev pub AfterWrite : {A : Type 0} → Result (Unit {0}) → Result A → Result A → Type 0
AfterWrite (ok u) wanted read = Reads wanted read
AfterWrite (err e) wanted read = Unit
AfterWrite panic wanted read = Unit

-- The identifier of an entry, if it can be parsed; else its write panics.
abbrev pub OfId : Reply Uuid → (Uuid → Type 0) → Type 0
OfId (answer id) P = P id
OfId (error e) P = Unit

AfterWrite-Reads :
    {A : Type 0} (w : Result (Unit {0})) (wanted read : Result A)
    → (w ≡ ok tt → Reads wanted read)
    → AfterWrite w wanted read
AfterWrite-Reads (ok u) wanted read reads = reads refl
AfterWrite-Reads (err e) wanted read reads = tt
AfterWrite-Reads panic wanted read reads = tt

OfId-all : (r : Reply Uuid) (P : Uuid → Type 0) → ((id : Uuid) → r ≡ answer id → P id) → OfId r P
OfId-all (answer id) P all = all id refl
OfId-all (error e) P all = tt

-- The entries of all kinds, written after the calls `h`.
pub record EntriesReadBack (codecs : Codecs) (env : Env Response) (h : List Call) : Type 0 where
  pub merchant :
      (merchant : Merchant) (ttl : ℤ)
      → let (w, t) = set_merchant codecs merchant ttl env h in
        AfterWrite w (ok merchant) (get_merchant codecs merchant.id env t).0
  pub not_found :
      (id : Uuid) (ttl : ℤ)
      → let (w, t) = set_merchant_not_found codecs id ttl env h in
        AfterWrite w (err (sentinel no_rows)) (get_merchant codecs id env t).0
  pub status :
      (entry : TransactionStatusCacheEntry) (ttl : ℤ)
      → let (w, t) = set_transaction_status codecs entry ttl env h in
        OfId
          (codecs.uuid_parse entry.id)
          λ id. AfterWrite w (ok entry) (get_transaction_status codecs id env t).0
  pub balance :
      (entry : AccountBalanceCacheEntry) (ttl : ℤ)
      → let (w, t) = set_account_balance codecs entry ttl env h in
        OfId
          (codecs.uuid_parse entry.account_id)
          λ id. AfterWrite w (ok entry) (get_account_balance codecs id env t).0
  pub session :
      (entry : SessionEntry) (ttl : ℤ)
      → let (w, t) = set_session codecs entry ttl env h in
        AfterWrite w (ok entry) (get_session codecs entry.token env t).0

-- While no lifetime ends, and whatever was called before: an entry that was written without an error
-- is what the next read of its key answers, for merchants, their absence, statuses, balances and
-- sessions, unless the read itself fails; it never finds nothing.
pub entries_read_back :
    {S : Type 0} (serve : (c : Call) → S → Response c × S) (value : String → S → Option String)
    (codecs : Codecs) (s : S) (h : List Call)
    → IsRedis serve value
    → ReadsBack codecs
    → EntriesReadBack codecs (served serve s) h
entries_read_back serve value codecs s h redis back = record {
  merchant =
      λ m ttl. AfterWrite-Reads _ _ _ (merchant_read_back serve value redis codecs back s h m ttl);
  not_found = λ id ttl.
      AfterWrite-Reads _ _ _ (not_found_read_back serve value redis codecs back s h id ttl);
  status = λ e ttl. OfId-all (codecs.uuid_parse e.id) _ λ id parsed.
      AfterWrite-Reads _ _ _ (status_read_back serve value redis codecs back s h e id ttl parsed);
  balance = λ e ttl. OfId-all (codecs.uuid_parse e.account_id) _ λ id parsed.
      AfterWrite-Reads _ _ _ (balance_read_back serve value redis codecs back s h e id ttl parsed);
  session =
      λ e ttl. AfterWrite-Reads _ _ _ (session_read_back serve value redis codecs back s h e ttl);
}
