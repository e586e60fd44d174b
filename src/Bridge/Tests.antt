-- ===== src/Bridge/Tests.antt =====
-- Concrete instances for the handlers.
use dante_api_systems.Base.{◌≡◌, ◌≢◌, ◌↔◌, refl, [], ◌∷◌, none, some, String, true, arith, eq_iff}
use dante_api_systems.Base.Int.{pos}
use dante_api_systems.Go.Errors.{
  sentinel, wrap, no_rows, redis_nil, circuit_open, legacy_unavailable,
}
use dante_api_systems.Go.Exec.{answer, error, ok, Env}
use dante_api_systems.Models.{Account, Transaction, Uuid}
use dante_api_systems.Views.{SessionView, SessionEntry}
use dante_api_systems.Payment.Calls.{QrisResult}
use dante_api_systems.History.{map_transaction_row}
use dante_api_systems.Auth.{login as sign_in, ensure_account_provisioned, validated_session, now}
use dante_api_systems.Auth.{Response as AuthResponse, get_session as load_session, LoginResponse}
use dante_api_systems.Auth.{
  legacy_register, legacy_login, legacy_logout, get_account_profile as load_profile,
  delete_session as drop_session, get_user_by_phone_number, create_user,
  get_account_by_number as load_account, create_account, random_hex,
}
use dante_api_systems.Auth.{set_session}
use dante_api_systems.Breaker.{CircuitBreaker, state_closed, execute, allow_request, record_failure}
use dante_api_systems.Breaker.Runs.{repeat}
use dante_api_systems.Merchant.{
  Response as LookupResponse, get_cached_merchant, get_merchant_by_id, acquire_merchant_lock,
  release_merchant_lock, legacy_get_merchant, start_set_merchant, start_set_merchant_not_found,
  select_wait, ticked, get_merchant as look_up,
}
use dante_api_systems.Bridge.{
  Response, Formats, body, refused, register, login, logout, get_session, create_qris_transaction,
  create_transfer_transaction, get_account_by_number, get_profile, get_balance, list_by_account,
  get_merchant, get_status, get_detail, inspect_queues, delete_merchant, delete_account_balance,
  delete_transaction_status, delete_session, ping_database, ping_redis, check_rabbitmq, ping_legacy,
}
use dante_api_systems.Bridge.Bodies.{TransactionDetailDto, AuthSessionDto}
use dante_api_systems.Bridge.Sessions.{
  parse_bearer_token, after_prefix, prefix, post_auth_login, get_auth_session,
}
use dante_api_systems.Bridge.Tokens.{parse_bearer_token_lem}
use dante_api_systems.Bridge.SignIn.{state_of, sign_in_round_trip}
use dante_api_systems.Bridge.Payments.{QrisPaymentRequest, post_qris_payment}
use dante_api_systems.Bridge.Lookups.{show_transaction_detail, show_merchant}
use dante_api_systems.Bridge.Internal.{CacheInvalidateRequest, invalidate_cache}
use dante_api_systems.Bridge.Authority.{
  PaymentsAuthorized, AccountsAuthorized, payments_authorized, accounts_authorized,
}
use dante_api_systems.Bridge.Details.{post_qris_payment-detail}
use dante_api_systems.Bridge.Statuses.{PaymentsAnswered, payments_answered}
use dante_api_systems.Bridge.Invalidation.{Told, removals, invalidate_cache_lem}
use dante_api_systems.Bridge.Outage.{outage_500}
use Prim.Native.String.{◌++◌}

abbrev pub formats : Formats
formats = record { uuid_string = λ id. "id"; uuid_parse = λ s. answer 5; rfc3339 = λ t. "2026" }

abbrev ani : SessionView
ani = record {
  token = "dante_ab";
  customer_id = "C1";
  account_id = "2";
  legacy_account_id = "A1";
  account_number = "100200";
  customer_name = "Ani";
  expires_at = 90;
  created_at = 12;
}

abbrev account : Account
account = record { id = 2; user_id = 7; account_number = "100200"; balance = pos 0; created_at = 1 }

abbrev payment : Transaction
payment = record {
  id = 5;
  user_id = 7;
  merchant_id = some 9;
  account_id = 2;
  amount = pos 10;
  status = "PROCESSING";
  idempotency_key = "k1";
  legacy_reference_id = none;
  failure_reason = none;
  requested_at = 20;
  processed_at = none;
  created_at = 20;
  updated_at = 20;
}

abbrev accepted_payment : QrisResult
accepted_payment = record { transaction = payment; created = true }

abbrev signed_in : LoginResponse
signed_in = record {
  token = "dante_ab";
  customer_id = "C1";
  account_id = "2";
  legacy_account_id = "A1";
  account_number = "100200";
  customer_name = "Ani";
  expires_at = 90;
}

-- Services that accept what they are asked, and caches that do not answer.
abbrev pub willing : Env Response
willing h (register name email password pin) = answer signed_in
willing h (login username password) = answer signed_in
willing h (get_session token) = answer ani
willing h (create_qris_transaction request) = answer accepted_payment
willing h (create_transfer_transaction request) = answer accepted_payment
willing h (get_account_by_number number) = answer account
willing h (get_profile id session) = error (sentinel no_rows)
willing h (get_balance id session pin) = error (sentinel no_rows)
willing h (list_by_account params) = answer (record { items = []; next_cursor = none })
willing h (get_merchant id) = error (sentinel legacy_unavailable)
willing h (get_status id) = error (sentinel no_rows)
willing h (get_detail id) = answer (map_transaction_row payment)
willing h inspect_queues = answer []
willing h (logout token) = answer tt
willing h (delete_merchant id) = answer tt
willing h (delete_account_balance id) = error (sentinel redis_nil)
willing h (delete_transaction_status id) = answer tt
willing h (delete_session token) = answer tt
willing h ping_database = answer tt
willing h ping_redis = answer tt
willing h check_rabbitmq = answer tt
willing h ping_legacy = answer tt

abbrev issued_token : String
issued_token = "dante_ab"

parse_bearer_token_lem_example :
    (parse_bearer_token "Bearer dante_ab" ≡ answer issued_token)
    ↔ (("Bearer dante_ab" ≡ prefix ++ issued_token) × (issued_token ≢ ""))
parse_bearer_token_lem_example = parse_bearer_token_lem "Bearer dante_ab" issued_token

payments_authorized_example : PaymentsAuthorized formats willing
payments_authorized_example = payments_authorized formats willing

accounts_authorized_example : AccountsAuthorized formats willing
accounts_authorized_example = accounts_authorized formats willing

payments_answered_example : PaymentsAnswered formats willing
payments_answered_example = payments_answered formats willing

abbrev request : QrisPaymentRequest
request = record {
  authorization = "Bearer dante_ab";
  idempotency_key = "k1";
  merchant_id = "QR9";
  amount = pos 10;
}

abbrev shown : TransactionDetailDto
shown = record {
  id = "id";
  user_id = "id";
  merchant_id = some "id";
  account_id = "id";
  amount = pos 10;
  status = "PROCESSING";
  idempotency_key = "k1";
  legacy_reference_id = none;
  failure_reason = none;
  requested_at = "2026";
  processed_at = none;
  created_at = "2026";
  updated_at = "2026";
}

post_qris_payment-detail_example :
    (show_transaction_detail formats "id" willing []).0 ≡ ok (body shown)
unfolding post_qris_payment parse_bearer_token after_prefix
post_qris_payment-detail_example =
    post_qris_payment-detail formats request willing willing shown accepted_payment "id" 5 refl refl
      (record { no_reference = refl; no_reason = refl; no_time = refl }) refl refl

abbrev two_targets : CacheInvalidateRequest
two_targets = record {
  merchant_id = some "m";
  account_id = some "a";
  transaction_id = none;
  session_token = none;
}

-- The merchant is deleted, and the request refused all the same.
half_invalidated :
    ((invalidate_cache formats two_targets willing []).0
      ≡ ok (refused 503 "failed to invalidate account balance cache"))
    × (removals willing (invalidate_cache formats two_targets willing []).1 ≡ "merchant" ∷ [])
unfolding invalidate_cache
half_invalidated = (refl, refl)

abbrev uuid_string : Uuid → String
uuid_string id = "2"

abbrev stored : SessionEntry
stored = record {
  token = "dante_ab";
  customer_id = "C1";
  local_account_id = "2";
  legacy_account_id = "A1";
  account_number = "100200";
  customer_name = "Ani";
  legacy_session_id = "S1";
  legacy_session_expiry = 90;
  created_at = 12;
}

-- The services behind a login of a customer who has an account.
abbrev bank : Env AuthResponse
bank h (legacy_register name email password pin) =
    answer (record { customer_id = "C1"; account_id = "A1"; account_number = "100200" })
bank h (legacy_login email password) = answer (record {
  customer_id = "C1";
  account_id = "A1";
  account_number = "100200";
  customer_name = "Ani";
  session_reference = "S1";
  expires_at = 90;
})
bank h (load_profile id password) =
    answer
      (record { customer_id = "C1"; account_id = "A1"; account_number = "100200"; name = "Ani" })
bank h (load_session token) = answer stored
bank h (get_user_by_phone_number phone) = error (sentinel no_rows)
bank h (create_user params) = error (sentinel no_rows)
bank h (load_account number) = answer account
bank h (create_account params) = answer account
bank h random_hex = answer "ab"
bank h now = 12
bank h (legacy_logout id) = answer tt
bank h (set_session entry ttl) = answer tt
bank h (drop_session token) = answer tt

abbrev signed_in_dto : AuthSessionDto
signed_in_dto = record {
  token = "dante_ab";
  customer_id = "C1";
  account_id = "A1";
  account_number = "100200";
  customer_name = "Ani";
  expires_at = "2026";
}

sign_in_round_trip_example :
    (get_auth_session formats (prefix ++ "dante_ab") willing []).0
    ≡ ok (body (state_of signed_in_dto "2026"))
unfolding sign_in ensure_account_provisioned post_auth_login validated_session
sign_in_round_trip_example =
    sign_in_round_trip formats uuid_string true "ani@mail" "secret" bank bank willing willing
      signed_in_dto stored refl refl refl refl refl (λ e. ground (arith, eq_iff "dante_ab" "", e))

abbrev breaker : CircuitBreaker
breaker = record {
  state = state_closed;
  failure_count = 0;
  success_count = 0;
  opened_at = 0;
  cfg = record { failure_threshold = pos 1; success_threshold = pos 1; open_timeout = pos 5 };
}

-- A lookup behind a breaker that is open.
abbrev cut_off : Env LookupResponse
cut_off h (get_cached_merchant id) = error (sentinel redis_nil)
cut_off h (get_merchant_by_id id) = error (sentinel no_rows)
cut_off h (acquire_merchant_lock id ttl) = answer (some "t1")
cut_off h (legacy_get_merchant id) = error (sentinel circuit_open)
cut_off h (select_wait timeout interval) = ticked
cut_off h (release_merchant_lock id token) = answer tt
cut_off h (start_set_merchant merchant ttl) = answer tt
cut_off h (start_set_merchant_not_found id ttl) = answer tt

-- The handler gets what the lookup returned.
abbrev cut_http : Env Response
cut_http h (get_merchant id) = error (wrap "read merchant from legacy" (sentinel circuit_open))
cut_http h c = willing h c

outage_500_example :
    (show_merchant formats "m" cut_http []).0 ≡ ok (refused 500 "failed to fetch merchant")
unfolding repeat execute allow_request record_failure look_up
outage_500_example =
    outage_500 formats "m" "t1" 5 4 1 cut_off cut_http breaker ((10, 11) ∷ []) 12 13 refl refl refl
      refl (omega arith) refl refl (record { uncached = refl; unstored = refl; locked = refl }) refl
      refl

invalidate_cache_lem_example :
    let (r, t) = invalidate_cache formats two_targets willing [] in Told willing two_targets r t
invalidate_cache_lem_example = invalidate_cache_lem formats two_targets willing
