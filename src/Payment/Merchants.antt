-- ===== src/Payment/Merchants.antt =====
-- resolveMerchant of internal/service/payment/qris.go.
use dante_api_systems.Base.{Bool, Option, none, some, String, str_eq, if◌then◌else◌}
use dante_api_systems.Go.Errors.{
  Error, sentinel, wrap, is, no_rows, legacy_not_found, merchant_not_found,
}
use dante_api_systems.Go.Exec.{Reply, answer, error, ask, pure, fail, ◌>>=◌}
use dante_api_systems.Go.Strings.{trim_space}
use dante_api_systems.Models.{Uuid, Merchant}
use dante_api_systems.Views.{MerchantRecord}
use dante_api_systems.Payment.Calls.{
  Action, Externals, translated, get_merchant_by_id, get_merchant_by_qris_code, create_merchant,
  get_qris_merchant,
}

abbrev found_by_id : Reply Merchant → Action Merchant
found_by_id (answer merchant) = pure merchant
found_by_id (error e) = fail (translated e no_rows merchant_not_found "load merchant by id")

-- Another request may have created the merchant in the meantime.
abbrev reloaded : Error → Reply Merchant → Action Merchant
reloaded create_error (answer merchant) = pure merchant
reloaded create_error (error e) = fail (wrap "create merchant from legacy" create_error)

abbrev created : MerchantRecord → Reply Merchant → Action Merchant
created found (answer merchant) = pure merchant
created found (error e) = do again ← ask (get_merchant_by_qris_code found.code); reloaded e again

abbrev materialized : Reply MerchantRecord → Action Merchant
materialized (error e) =
    fail (translated e legacy_not_found merchant_not_found "load merchant from legacy")
materialized (answer found) = do
  made ←
      ask (create_merchant (record { name = found.name; qris_code = found.code; category = none }))
  created found made

-- `has_legacy` says whether the service has a legacy client.
module _ (externals : Externals) (has_legacy : Bool) where
  abbrev from_legacy : String → Action Merchant
  from_legacy code =
      if has_legacy
      then (do found ← ask (get_qris_merchant code); materialized found)
      else fail (sentinel merchant_not_found)

  abbrev found_by_code : String → Reply Merchant → Action Merchant
  found_by_code code (answer merchant) = pure merchant
  found_by_code code (error e) =
      if is e no_rows then from_legacy code else fail (wrap "load merchant by qris code" e)

  abbrev resolve_parsed : Option Uuid → String → Action Merchant
  resolve_parsed (some id) ref = do found ← ask (get_merchant_by_id id); found_by_id found
  resolve_parsed none ref = do found ← ask (get_merchant_by_qris_code ref); found_by_code ref found

  abbrev resolve_trimmed : String → Action Merchant
  resolve_trimmed ref =
      if str_eq ref ""
      then fail (sentinel merchant_not_found)
      else resolve_parsed (externals.uuid_parse ref) ref

  unfoldable pub resolve_merchant : String → Action Merchant
  resolve_merchant ref = resolve_trimmed (trim_space ref)
