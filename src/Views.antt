-- ===== src/Views.antt =====
-- The records that pass between the services, the cache and the legacy client: SessionView of
-- internal/service/auth/service.go, the cache entries of internal/cache/redis.go and the legacy
-- results of internal/legacy/client.go.
use dante_api_systems.Base.{Option, String}
use dante_api_systems.Base.Int.{ℤ}
use dante_api_systems.Models.{Time}

pub record SessionView : Type 0 where
  pub token : String
  pub customer_id : String
  pub account_id : String
  pub legacy_account_id : String
  pub account_number : String
  pub customer_name : String
  pub expires_at : Time
  pub created_at : Time

pub record TransactionStatusCacheEntry : Type 0 where
  pub id : String
  pub status : String
  pub requested_at : Time
  pub processed_at : Option Time
  pub updated_at : Time

pub record AccountBalanceCacheEntry : Type 0 where
  pub account_id : String
  pub reference_account_id : String
  pub balance : ℤ
  pub fetched_at : Time

pub record SessionEntry : Type 0 where
  pub token : String
  pub customer_id : String
  pub local_account_id : String
  pub legacy_account_id : String
  pub account_number : String
  pub customer_name : String
  pub legacy_session_id : String
  pub legacy_session_expiry : Time
  pub created_at : Time

pub record MerchantRecord : Type 0 where
  pub code : String
  pub name : String

pub record RegisterResult : Type 0 where
  pub customer_id : String
  pub account_id : String
  pub account_number : String

pub record LoginResult : Type 0 where
  pub customer_id : String
  pub account_id : String
  pub account_number : String
  pub customer_name : String
  pub session_reference : String
  pub expires_at : Time

pub record AccountProfile : Type 0 where
  pub customer_id : String
  pub account_id : String
  pub account_number : String
  pub name : String

pub record BalanceSnapshot : Type 0 where
  pub account_id : String
  pub reference_account_id : String
  pub balance : ℤ

pub record TransferResult : Type 0 where
  pub from_account : String
  pub to_account : String
  pub amount : ℤ

pub record QrisPaymentResult : Type 0 where
  pub account_id : String
  pub merchant_code : String
  pub amount : ℤ
