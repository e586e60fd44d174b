-- ===== src/Queue/Messages.antt =====
-- internal/queue/publisher.go: the payloads of the two queues.
use dante_api_systems.Base.{String}
use dante_api_systems.Base.Int.{ℤ}

pub record QrisPaymentMessage : Type 0 where
  pub transaction_id : String
  pub account_uuid : String
  pub account_id : String
  pub account_number : String
  pub merchant_id : String
  pub merchant_code : String
  pub amount : ℤ

pub record TransferMessage : Type 0 where
  pub transaction_id : String
  pub account_uuid : String
  pub from_account_id : String
  pub from_account_number : String
  pub to_account_number : String
  pub transaction_pin : String
  pub amount : ℤ

-- A job, by the handler that it goes to.
pub data Job : Type 0 where
  qris_payment : QrisPaymentMessage → Job
  transfer : TransferMessage → Job
