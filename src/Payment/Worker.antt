-- ===== src/Payment/Worker.antt =====
-- internal/service/payment: the workers that finish queued transactions (worker.go in Qris,
-- transfer_worker.go in Transfers), and what they share. `has_balances` says whether a worker has a
-- cache of balances; its repository, which it always calls first, is there.
pub mod Qris
pub mod Transfers
pub mod Outcome
use dante_api_systems.Base.{
  ℕ, ◌-◌, ◌/◌, Bool, not, ◌&&◌, Option, none, some, String, str_eq, min, if◌then◌else◌,
}
use dante_api_systems.Base.Int.{ℤ, pos, wrap32}
use dante_api_systems.Go.Errors.{Error}
use dante_api_systems.Go.Exec.{Reply, answer, error, ask, pure, crash, ◌>>=◌}
use dante_api_systems.Models.{Uuid, Time}
use dante_api_systems.Payment.Calls.{
  Action, Externals, create_legacy_call_log, delete_account_balance, now,
}

-- `int32(time.Since(started).Milliseconds())`: Since measures by a clock that never goes back and
-- stops at the largest int64; the conversion keeps the low 32 bits.
abbrev pub latency_ms : Time → Time → ℤ
latency_ms started ended = wrap32 (pos (min (ended - started) 9223372036854775807 / 1000000))

module _ (externals : Externals) where
  open externals use {uuid_parse, error_text}

  abbrev parsed : Option Uuid → Action Uuid
  parsed (some id) = pure id
  parsed none = crash

  -- `uuid.MustParse`
  abbrev pub must_parse : String → Action Uuid
  must_parse s = parsed (uuid_parse s)

  -- The status code and the message of a call's log: `none` is a call without an error.
  abbrev call_code : Option Error → Option ℤ
  call_code (some e) = none
  call_code none = some (pos 200)

  abbrev call_message : Option Error → Option String
  call_message (some e) = some (error_text e)
  call_message none = none

  -- `logLegacyCall`: what the database answers is dropped.
  abbrev pub log_legacy_call :
      Uuid → String → Bool → Time → Option Error → Action (Reply (Unit {0}))
  log_legacy_call id endpoint success started call_error = do
    ended ← ask now
    ask (
        create_legacy_call_log (record {
          transaction_id = some id;
          endpoint = endpoint;
          method = "SOAP";
          status_code = call_code call_error;
          success = success;
          latency_ms = latency_ms started ended;
          error_message = call_message call_error;
        }))

  -- Dropping the cached balance of the account that a message names, if it names one.
  abbrev pub invalidate_balance : Bool → String → Action (Reply (Unit {0}))
  invalidate_balance has_balances account_uuid =
      if not (str_eq account_uuid "") && has_balances
      then (do id ← must_parse account_uuid; ask (delete_account_balance id))
      else pure (answer tt)
