-- ===== src/Bridge/Bodies.antt =====
-- The bodies of the answers, and their making from the views of the services.
use dante_api_systems.Base.{Option, none, some, String, List}
use dante_api_systems.Base.Int.{ℤ}
use dante_api_systems.Models.{Uuid, Time, Merchant}
use dante_api_systems.Views.{SessionView}
use dante_api_systems.Auth.{LoginResponse}
use dante_api_systems.History.{DetailView, StatusView}
use dante_api_systems.Bridge.{Formats}

pub record MerchantDto : Type 0 where
  pub id : String
  pub name : String
  pub qris_code : String
  pub category : String
  pub created_at : String

pub record AccountProfileDto : Type 0 where
  pub id : String
  pub user_id : String
  pub account_number : String
  pub customer_id : String
  pub customer_name : String
  pub created_at : String

pub record AccountBalanceDto : Type 0 where
  pub account_id : String
  pub reference_account_id : String
  pub balance : ℤ
  pub source : String
  pub fetched_at : String

pub record AuthSessionDto : Type 0 where
  pub token : String
  pub customer_id : String
  pub account_id : String
  pub account_number : String
  pub customer_name : String
  pub expires_at : String

pub record AuthSessionStateDto : Type 0 where
  pub token : String
  pub customer_id : String
  pub account_id : String
  pub account_number : String
  pub customer_name : String
  pub expires_at : String
  pub created_at : String

pub record TransactionStatusDto : Type 0 where
  pub id : String
  pub status : String
  pub requested_at : String
  pub processed_at : Option String
  pub updated_at : String

pub record TransactionDetailDto : Type 0 where
  pub id : String
  pub user_id : String
  pub merchant_id : Option String
  pub account_id : String
  pub amount : ℤ
  pub status : String
  pub idempotency_key : String
  pub legacy_reference_id : Option String
  pub failure_reason : Option String
  pub requested_at : String
  pub processed_at : Option String
  pub created_at : String
  pub updated_at : String

pub record AccountTransactionsDto : Type 0 where
  pub items : List TransactionDetailDto
  pub next_cursor : Option String

-- The text of a null column is empty.
abbrev or_empty : Option String → String
or_empty (some text) = text
or_empty none = ""

module _ (formats : Formats) where
  open formats use {uuid_string, rfc3339}

  abbrev pub shown_time : Option Time → Option String
  shown_time (some t) = some (rfc3339 t)
  shown_time none = none

  abbrev pub shown_id : Option Uuid → Option String
  shown_id (some id) = some (uuid_string id)
  shown_id none = none

  abbrev pub map_merchant_response : Merchant → MerchantDto
  map_merchant_response merchant = record {
    id = uuid_string merchant.id;
    name = merchant.name;
    qris_code = merchant.qris_code;
    category = or_empty merchant.category;
    created_at = rfc3339 merchant.created_at;
  }

  abbrev pub map_auth_session_response : LoginResponse → AuthSessionDto
  map_auth_session_response session = record {
    token = session.token;
    customer_id = session.customer_id;
    account_id = session.legacy_account_id;
    account_number = session.account_number;
    customer_name = session.customer_name;
    expires_at = rfc3339 session.expires_at;
  }

  abbrev pub map_auth_session_state_response : SessionView → AuthSessionStateDto
  map_auth_session_state_response session = record {
    token = session.token;
    customer_id = session.customer_id;
    account_id = session.legacy_account_id;
    account_number = session.account_number;
    customer_name = session.customer_name;
    expires_at = rfc3339 session.expires_at;
    created_at = rfc3339 session.created_at;
  }

  abbrev pub map_transaction_status_response : StatusView → TransactionStatusDto
  map_transaction_status_response status = record {
    id = uuid_string status.id;
    status = status.status;
    requested_at = rfc3339 status.requested_at;
    processed_at = shown_time status.processed_at;
    updated_at = rfc3339 status.updated_at;
  }

  abbrev pub map_transaction_detail_response : DetailView → TransactionDetailDto
  map_transaction_detail_response detail = record {
    id = uuid_string detail.id;
    user_id = uuid_string detail.user_id;
    merchant_id = shown_id detail.merchant_id;
    account_id = uuid_string detail.account_id;
    amount = detail.amount;
    status = detail.status;
    idempotency_key = detail.idempotency_key;
    legacy_reference_id = detail.legacy_reference_id;
    failure_reason = detail.failure_reason;
    requested_at = rfc3339 detail.requested_at;
    processed_at = shown_time detail.processed_at;
    created_at = rfc3339 detail.created_at;
    updated_at = rfc3339 detail.updated_at;
  }
