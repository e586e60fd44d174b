-- ===== src/Legacy/Answers.antt =====
-- The results of the operations, from the response of the service.
use dante_api_systems.Base.{
  ℕ, ◌≡◌, refl, List, [], ◌∷◌, String, str_eq, true, false, ◌&&◌, leb, ltb, arith, if◌then◌else◌,
}
use dante_api_systems.Base.Int.{ℤ}
use dante_api_systems.Go.Errors.{operation_error}
use dante_api_systems.Go.Exec.{answer, ok, err, Env}
use dante_api_systems.Go.Strings.{trim_space}
use dante_api_systems.Models.{Time}
use dante_api_systems.Legacy.{Response, Formats, new_request, send, read_body}
use dante_api_systems.Legacy.Messages.{build_soap_request, parse_soap_return, is_ok}
use dante_api_systems.Legacy.Client.{
  call_operation, call_and_require_ok, login, get_balance, transfer,
}
use dante_api_systems.Legacy.Responses.{joined, IsResponse, split_legacy_response-joined}

-- The service gets the request for an operation and answers `raw` as the value of its response.
pub record Replies (formats : Formats) (config_url : String) (operation : String)
    (args : List String) (env : Env Response) (raw : String) : Type 0 where
  pub configured : str_eq (trim_space (trim_space config_url)) "" ≡ false
  pub built : env [] (new_request (trim_space config_url)) ≡ answer tt
  pub status : ℕ
  pub received :
      env
        (new_request (trim_space config_url) ∷ [])
        (send operation (build_soap_request formats.itoa operation args))
      ≡ answer status
  pub success : (leb 200 status && ltb status 300) ≡ true
  pub body : String
  pub read :
      env
        (send operation (build_soap_request formats.itoa operation args)
          ∷ new_request (trim_space config_url)
          ∷ [])
        read_body
      ≡ answer body
  pub value : parse_soap_return (formats.tokens body) ≡ answer raw

module _ (formats : Formats) (config_url : String) (unix_time : ℤ → Time) where
  call_operation-Replies :
      (operation : String) (args : List String) (env : Env Response) (raw : String)
      → Replies formats config_url operation args env raw
      → (call_operation formats config_url unix_time operation args env []).0 ≡ ok raw
  unfolding call_operation
  call_operation-Replies operation args env raw r = ground (arith, r)

  -- The parts of an answered response, or a refusal with the whole response.
  pub call_and_require_ok-Replies :
      (operation : String) (args : List String) (env : Env Response) (part : String)
      (rest : List String)
      → IsResponse part rest
      → Replies formats config_url operation args env (joined part rest)
      → (call_and_require_ok formats config_url unix_time operation args env []).0 ≡ (
          if is_ok part
          then ok (part ∷ rest)
          else err (operation_error operation (joined part rest)))
  unfolding call_and_require_ok
  call_and_require_ok-Replies operation args env part rest response r =
      rw
        (
          call_operation-Replies operation args env (joined part rest) r,
          split_legacy_response-joined part rest response,
        )
        (ground arith)

  module _ (env : Env Response) (word : String) (told : is_ok word ≡ true) where
    parts_told :
        (operation : String) (args rest : List String)
        → IsResponse word rest
        → Replies formats config_url operation args env (joined word rest)
        → (call_and_require_ok formats config_url unix_time operation args env []).0
          ≡ ok (word ∷ rest)
    parts_told operation args rest response r =
        ground (arith, told, call_and_require_ok-Replies operation args env word rest response r)

    login_reads :
        (email password customer account number session : String) (expiry : ℤ)
        → formats.parse_int (formats.format_int expiry) ≡ answer expiry
        → let rest = customer ∷ account ∷ number ∷ session ∷ formats.format_int expiry ∷ [] in
          IsResponse word rest
          → Replies formats config_url "login" (email ∷ password ∷ []) env (joined word rest)
          → (login formats config_url unix_time email password env []).0
            ≡ ok (record {
              customer_id = customer;
              account_id = account;
              account_number = number;
              customer_name = "";
              session_reference = session;
              expires_at = unix_time expiry;
            })
    unfolding login
    login_reads email password customer account number session expiry back response r =
        let rest = customer ∷ account ∷ number ∷ session ∷ formats.format_int expiry ∷ [] in
        rw (parts_told "login" (email ∷ password ∷ []) rest response r, back) refl

    balance_reads :
        (account_id pin account reference : String) (balance : ℤ)
        → formats.parse_int (formats.format_int balance) ≡ answer balance
        → let rest = account ∷ reference ∷ formats.format_int balance ∷ [] in
          IsResponse word rest
          → Replies formats config_url "balance" (account_id ∷ pin ∷ []) env (joined word rest)
          → (get_balance formats config_url unix_time account_id pin env []).0
            ≡ ok (record {
              account_id = account;
              reference_account_id = reference;
              balance = balance;
            })
    unfolding get_balance
    balance_reads account_id pin account reference balance back response r =
        let rest = account ∷ reference ∷ formats.format_int balance ∷ [] in
        rw (parts_told "balance" (account_id ∷ pin ∷ []) rest response r, back) refl

    short_balance_reads :
        (account_id pin account : String) (balance : ℤ)
        → formats.parse_int (formats.format_int balance) ≡ answer balance
        → let rest = account ∷ formats.format_int balance ∷ [] in
          IsResponse word rest
          → Replies formats config_url "balance" (account_id ∷ pin ∷ []) env (joined word rest)
          → (get_balance formats config_url unix_time account_id pin env []).0
            ≡ ok
                (record { account_id = account; reference_account_id = account; balance = balance })
    unfolding get_balance
    short_balance_reads account_id pin account balance back response r =
        let rest = account ∷ formats.format_int balance ∷ [] in
        rw (parts_told "balance" (account_id ∷ pin ∷ []) rest response r, back) refl

    pub transfer_reads :
        (from pin to from' to' : String) (amount amount' : ℤ)
        → formats.parse_int (formats.format_int amount') ≡ answer amount'
        → let rest = from' ∷ to' ∷ formats.format_int amount' ∷ [] in
          IsResponse word rest
          → Replies formats config_url "transfer"
              (from ∷ pin ∷ to ∷ formats.format_int amount ∷ [])
              env
              (joined word rest)
          → (transfer formats config_url unix_time from pin to amount env []).0
            ≡ ok (record { from_account = from'; to_account = to'; amount = amount' })
    unfolding transfer
    transfer_reads from pin to from' to' amount amount' back response r =
        let rest = from' ∷ to' ∷ formats.format_int amount' ∷ [] in
        let args = from ∷ pin ∷ to ∷ formats.format_int amount ∷ [] in
        rw (parts_told "transfer" args rest response r, back) refl

  pub login-refused :
      (env : Env Response) (part : String) (rest : List String) (email password : String)
      → IsResponse part rest
      → is_ok part ≡ false
      → Replies formats config_url "login" (email ∷ password ∷ []) env (joined part rest)
      → (login formats config_url unix_time email password env []).0
        ≡ err (operation_error "login" (joined part rest))
  unfolding login
  login-refused env part rest email password response refusal r =
      rw
        (
          call_and_require_ok-Replies "login" (email ∷ password ∷ []) env part rest response r,
          refusal,
        )
        refl
