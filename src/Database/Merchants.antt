-- ===== src/Database/Merchants.antt =====
-- internal/database/sqlc/merchants.sql.go, with the constraints of db/schema/init.sql.
use dante_api_systems.Base.{List, ◌∷◌, Bool, String, str_eq, ◌==◌, if◌then◌else◌}
use dante_api_systems.Go.Exec.{Reply, answer}
use dante_api_systems.Models.{Uuid, Time, Merchant, CreateMerchantParams}
use dante_api_systems.Database.Rows.{find}
use dante_api_systems.Database.Transactions.{one_row, violation, exists}

abbrev pub is_merchant_row : Uuid → Merchant → Bool
is_merchant_row id merchant = merchant.id == id

abbrev pub has_code : String → Merchant → Bool
has_code code merchant = str_eq merchant.qris_code code

abbrev new_merchant : Uuid → Time → CreateMerchantParams → Merchant
new_merchant id at params = record {
  id = id;
  name = params.name;
  qris_code = params.qris_code;
  category = params.category;
  created_at = at;
}

unfoldable pub create_merchant :
    Uuid → Time → CreateMerchantParams → List Merchant → Reply Merchant × List Merchant
create_merchant id at params merchants =
    if exists (is_merchant_row id) merchants
    then (violation "merchants_pkey", merchants)
    else (if exists (has_code params.qris_code) merchants
        then (violation "merchants_qris_code_key", merchants)
        else (answer (new_merchant id at params), new_merchant id at params ∷ merchants))

unfoldable pub get_merchant_by_id : Uuid → List Merchant → Reply Merchant
get_merchant_by_id id merchants = one_row (find (is_merchant_row id) merchants)

unfoldable pub get_merchant_by_qris_code : String → List Merchant → Reply Merchant
get_merchant_by_qris_code code merchants = one_row (find (has_code code) merchants)
