-- ===== src/Legacy/Client.antt =====
-- The operations of the client.
use dante_api_systems.Base.{
  ℕ, Bool, false, ◌&&◌, List, [], ◌∷◌, String, str_eq, leb, ltb, if◌then◌else◌,
}
use dante_api_systems.Base.Int.{ℤ}
use dante_api_systems.Go.Errors.{
  Error, sentinel, operation_error, wrap, failure, syntax_error, type_error, legacy_unavailable,
  legacy_not_found,
}
use dante_api_systems.Go.Exec.{
  Reply, answer, error, Result, ok, err, panic, ask, pure, fail, crash, or_wrap, ◌>>=◌,
}
use dante_api_systems.Go.Strings.{trim_space}
use dante_api_systems.Models.{Time}
use dante_api_systems.Views.{
  MerchantRecord, RegisterResult, LoginResult, AccountProfile, BalanceSnapshot, TransferResult,
  QrisPaymentResult,
}
use dante_api_systems.Legacy.{Action, Formats, new_request, send, read_body}
use dante_api_systems.Legacy.Messages.{
  build_soap_request, parse_soap_return, split_legacy_response, is_ok, is_not_found_response,
}
use Prim.Native.String.{◌++◌}

pub record BankDetails : Type 0 where
  pub type_name : String
  pub code : String
  pub name : String

-- `config_url` is the configured URL of the service; `unix_time` is `time.Unix(n, 0).UTC()`.
module _ (formats : Formats) (config_url : String) (unix_time : ℤ → Time) where
  open formats use {itoa, format_int, parse_int, tokens}

  -- `NewClient` keeps the trimmed URL.
  abbrev pub endpoint : String
  endpoint = trim_space config_url

  abbrev value_parsed : String → Reply String → Action String
  value_parsed operation value = or_wrap ("parse legacy " ++ (operation ++ " response")) value

  -- Only a status of 200 to 299 is a response. The text of the refused body is left out.
  abbrev body_read : String → ℕ → Reply String → Action String
  body_read operation status (error e) =
      fail (wrap ("read legacy " ++ (operation ++ " response")) e)
  body_read operation status (answer body) =
      if leb 200 status && ltb status 300
      then value_parsed operation (parse_soap_return (tokens body))
      else fail (failure ("legacy " ++ (operation ++ " returned status")))

  abbrev sent : String → Reply ℕ → Action String
  sent operation (error e) = fail (wrap ("call legacy " ++ operation) e)
  sent operation (answer status) = do body ← ask read_body; body_read operation status body

  abbrev request_built : String → List String → Reply (Unit {0}) → Action String
  request_built operation args (error e) =
      fail (wrap ("build legacy " ++ (operation ++ " request")) e)
  request_built operation args (answer u) = do
    status ← ask (send operation (build_soap_request itoa operation args))
    sent operation status

  unfoldable pub call_operation : String → List String → Action String
  call_operation operation args =
      if str_eq (trim_space endpoint) ""
      then fail (sentinel legacy_unavailable)
      else (do built ← ask (new_request endpoint); request_built operation args built)

  abbrev pub parts_checked : String → String → List String → Action (List String)
  parts_checked operation raw [] =
      fail (failure ("legacy " ++ (operation ++ " returned empty response")))
  parts_checked operation raw (first ∷ rest) =
      if is_ok first then pure (first ∷ rest) else fail (operation_error operation raw)

  unfoldable pub call_and_require_ok : String → List String → Action (List String)
  call_and_require_ok operation args = do
    raw ← call_operation operation args
    parts_checked operation raw (split_legacy_response raw)

  -- The quoted response in the texts of these errors is left out.
  abbrev incomplete : {A : Type 0} → String → Action A
  incomplete operation =
      fail (failure ("legacy " ++ (operation ++ " returned incomplete response")))

  abbrev bank_details_in : List String → Action BankDetails
  bank_details_in (word ∷ type_name ∷ code ∷ name ∷ rest) =
      pure (record { type_name = type_name; code = code; name = name })
  bank_details_in _ = incomplete "getBankDetails"

  unfoldable pub get_bank_details : String → String → Action BankDetails
  get_bank_details email password = do
    parts ← call_and_require_ok "getBankDetails" (email ∷ password ∷ [])
    bank_details_in parts

  abbrev registered_in : List String → Action RegisterResult
  registered_in (word ∷ customer ∷ account ∷ number ∷ rest) =
      pure (record { customer_id = customer; account_id = account; account_number = number })
  registered_in _ = incomplete "register"

  unfoldable pub register : String → String → String → String → Action RegisterResult
  register name email password pin = do
    parts ← call_and_require_ok "register" (name ∷ email ∷ password ∷ pin ∷ [])
    registered_in parts

  -- The name of the customer is not told.
  abbrev with_expiry : String → String → String → String → Reply ℤ → Action LoginResult
  with_expiry customer account number session (error e) = fail (wrap "parse legacy login expiry" e)
  with_expiry customer account number session (answer expiry) = pure (record {
    customer_id = customer;
    account_id = account;
    account_number = number;
    customer_name = "";
    session_reference = session;
    expires_at = unix_time expiry;
  })

  abbrev login_in : List String → Action LoginResult
  login_in (word ∷ customer ∷ account ∷ number ∷ session ∷ expiry ∷ rest) =
      with_expiry customer account number session (parse_int expiry)
  login_in _ = incomplete "login"

  unfoldable pub login : String → String → Action LoginResult
  login email password = do
    parts ← call_and_require_ok "login" (email ∷ password ∷ [])
    login_in parts

  abbrev unexpected : Action (Unit {0})
  unexpected = fail (failure "legacy logout returned unexpected response")

  abbrev logout_in : List String → Action (Unit {0})
  logout_in (word ∷ done ∷ rest) = if str_eq done "LOGOUT" then pure tt else unexpected
  logout_in _ = unexpected

  unfoldable pub logout : String → Action (Unit {0})
  logout session_id = do parts ← call_and_require_ok "logout" (session_id ∷ []); logout_in parts

  abbrev profile_in : List String → Action AccountProfile
  profile_in (word ∷ customer ∷ account ∷ number ∷ name ∷ rest) = pure (record {
    customer_id = customer;
    account_id = account;
    account_number = number;
    name = name;
  })
  profile_in _ = incomplete "getAccountProfile"

  unfoldable pub get_account_profile : String → String → Action AccountProfile
  get_account_profile account_id password = do
    parts ← call_and_require_ok "getAccountProfile" (account_id ∷ password ∷ [])
    profile_in parts

  abbrev with_balance : String → String → Reply ℤ → Action BalanceSnapshot
  with_balance account reference (error e) = fail (wrap "parse legacy balance amount" e)
  with_balance account reference (answer balance) =
      pure (record { account_id = account; reference_account_id = reference; balance = balance })

  -- A response of three parts has no reference of its own.
  abbrev balance_in : List String → Action BalanceSnapshot
  balance_in (word ∷ account ∷ reference ∷ balance ∷ rest) =
      with_balance account reference (parse_int balance)
  balance_in (word ∷ account ∷ balance ∷ []) = with_balance account account (parse_int balance)
  balance_in _ = incomplete "balance"

  unfoldable pub get_balance : String → String → Action BalanceSnapshot
  get_balance account_id pin = do
    parts ← call_and_require_ok "balance" (account_id ∷ pin ∷ [])
    balance_in parts

  abbrev with_transfer : String → String → Reply ℤ → Action TransferResult
  with_transfer from to (error e) = fail (wrap "parse legacy transfer amount" e)
  with_transfer from to (answer amount) =
      pure (record { from_account = from; to_account = to; amount = amount })

  abbrev transfer_in : List String → Action TransferResult
  transfer_in (word ∷ from ∷ to ∷ amount ∷ rest) = with_transfer from to (parse_int amount)
  transfer_in _ = incomplete "transfer"

  unfoldable pub transfer : String → String → String → ℤ → Action TransferResult
  transfer from_account pin to_account amount = do
    parts ←
        call_and_require_ok "transfer" (from_account ∷ pin ∷ to_account ∷ format_int amount ∷ [])
    transfer_in parts

  abbrev with_payment : String → String → Reply ℤ → Action QrisPaymentResult
  with_payment account merchant (error e) = fail (wrap "parse legacy qris amount" e)
  with_payment account merchant (answer amount) =
      pure (record { account_id = account; merchant_code = merchant; amount = amount })

  abbrev payment_in : List String → Action QrisPaymentResult
  payment_in (word ∷ account ∷ merchant ∷ amount ∷ rest) =
      with_payment account merchant (parse_int amount)
  payment_in _ = incomplete "qris"

  unfoldable pub pay_qris : String → String → ℤ → Action QrisPaymentResult
  pay_qris account_id merchant_code amount = do
    parts ← call_and_require_ok "qris" (account_id ∷ merchant_code ∷ format_int amount ∷ [])
    payment_in parts

  -- The error or one that it wraps is an OperationError that tells of nothing found.
  abbrev pub tells_not_found : Error → Bool
  tells_not_found (operation_error operation response) = is_not_found_response response
  tells_not_found (wrap text e) = tells_not_found e
  tells_not_found (sentinel s) = false
  tells_not_found syntax_error = false
  tells_not_found type_error = false
  tells_not_found (failure text) = false

  abbrev merchant_in : List String → Action MerchantRecord
  merchant_in (word ∷ code ∷ name ∷ rest) = pure (record { code = code; name = name })
  merchant_in _ = incomplete "getQrisMerchant"

  abbrev merchant_answered : Result (List String) → Action MerchantRecord
  merchant_answered (ok parts) = merchant_in parts
  merchant_answered (err e) = if tells_not_found e then fail (sentinel legacy_not_found) else fail e
  merchant_answered panic = crash

  unfoldable pub get_qris_merchant : String → Action MerchantRecord
  get_qris_merchant merchant_code env h =
      let (r, h') = call_and_require_ok "getQrisMerchant" (merchant_code ∷ []) env h in
      merchant_answered r env h'
