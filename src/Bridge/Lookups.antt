-- ===== src/Bridge/Lookups.antt =====
-- The handlers of merchants and of single transactions, which need no session.
use dante_api_systems.Base.{String, if◌then◌else◌}
use dante_api_systems.Go.Errors.{is, no_rows, lookup_in_progress, legacy_unavailable}
use dante_api_systems.Go.Exec.{Reply, answer, error, ask, ◌>>=◌}
use dante_api_systems.Models.{Uuid, Merchant}
use dante_api_systems.History.{DetailView, StatusView}
use dante_api_systems.Bridge.{
  Handler, Formats, respond, refuse, get_merchant, get_status, get_detail,
}
use dante_api_systems.Bridge.Bodies.{
  MerchantDto, TransactionStatusDto, TransactionDetailDto, map_merchant_response,
  map_transaction_status_response, map_transaction_detail_response,
}

-- A path parameter that is no uuid is refused.
abbrev pub with_id : {B : Type 0} → String → (Uuid → Handler B) → Reply Uuid → Handler B
with_id text next (answer id) = next id
with_id text next (error e) = refuse 400 text

module _ (formats : Formats) where
  open formats use {uuid_parse}

  abbrev pub merchant_shown : Reply Merchant → Handler MerchantDto
  merchant_shown (answer merchant) = respond (map_merchant_response formats merchant)
  merchant_shown (error e) =
      if is e no_rows
      then refuse 404 "merchant not found"
      else (if is e lookup_in_progress
          then refuse 503 "merchant lookup is already in progress"
          else (if is e legacy_unavailable
              then refuse 503 "merchant lookup requires legacy fallback, but legacy is unavailable"
              else refuse 500 "failed to fetch merchant"))

  abbrev merchant_for : Uuid → Handler MerchantDto
  merchant_for id = do found ← ask (get_merchant id); merchant_shown found

  unfoldable pub show_merchant : String → Handler MerchantDto
  show_merchant merchant_id = with_id "invalid merchant id" merchant_for (uuid_parse merchant_id)

  abbrev status_shown : Reply StatusView → Handler TransactionStatusDto
  status_shown (answer status) = respond (map_transaction_status_response formats status)
  status_shown (error e) =
      if is e no_rows
      then refuse 404 "transaction not found"
      else refuse 500 "failed to fetch transaction status"

  abbrev status_for : Uuid → Handler TransactionStatusDto
  status_for id = do found ← ask (get_status id); status_shown found

  unfoldable pub show_transaction_status : String → Handler TransactionStatusDto
  show_transaction_status transaction_id =
      with_id "invalid transaction id" status_for (uuid_parse transaction_id)

  abbrev pub detail_shown : Reply DetailView → Handler TransactionDetailDto
  detail_shown (answer detail) = respond (map_transaction_detail_response formats detail)
  detail_shown (error e) =
      if is e no_rows
      then refuse 404 "transaction not found"
      else refuse 500 "failed to fetch transaction detail"

  abbrev detail_for : Uuid → Handler TransactionDetailDto
  detail_for id = do found ← ask (get_detail id); detail_shown found

  unfoldable pub show_transaction_detail : String → Handler TransactionDetailDto
  show_transaction_detail transaction_id =
      with_id "invalid transaction id" detail_for (uuid_parse transaction_id)
