-- ===== src/Bridge/Statuses.antt =====
-- The answers of the payment handlers, and those of sessions.
use dante_api_systems.Base.{ℕ, ◌≤◌, ◌≡◌, List, [], true, ◌==◌, ◌||◌, arith, if◌then◌else◌}
use dante_api_systems.Go.Exec.{answer, Result, ok, err, panic, Env}
use dante_api_systems.Go.Trace.{total}
use dante_api_systems.Bridge.{
  Call, Response, Answer, Formats, body, refused, create_qris_transaction,
  create_transfer_transaction,
}
use dante_api_systems.Bridge.Bodies.{TransactionDetailDto}
use dante_api_systems.Bridge.Payments.{
  QrisPaymentRequest, TransferRequest, post_qris_payment, post_transfer,
}

-- Requests to a payment service, and those that it accepted.
abbrev pub payments : (c : Call) → Response c → ℕ
payments (create_qris_transaction request) r = 1
payments (create_transfer_transaction request) r = 1
payments _ _ = 0

abbrev pub accepted : (c : Call) → Response c → ℕ
accepted (create_qris_transaction request) (answer result) = 1
accepted (create_transfer_transaction request) (answer result) = 1
accepted _ _ = 0

-- A body is answered for as many payments as were accepted; 400 and 401 are answered if no payment
-- was asked for, or for no payment that was asked for, and the other refusals are 403, 404, 409 and
-- 503.
abbrev pub Answers : Env Response → Result (Answer TransactionDetailDto) → List Call → Type 0
Answers env (ok (body dto)) t = (total accepted env t ≡ 1) × (total payments env t ≡ 1)
Answers env (ok (refused status text)) t =
    (total accepted env t ≡ 0)
    × (if status == 400 || status == 401
        then total payments env t ≡ 0
        else ((total payments env t ≤ 1)
            × ((status == 403 || status == 404 || status == 409 || status == 503) ≡ true)))
Answers env (err e) t = ⊥
Answers env panic t = ⊥

module _ (formats : Formats) (env : Env Response) where
  qris-Answers :
      (input : QrisPaymentRequest)
      → let (r, t) = post_qris_payment formats input env [] in Answers env r t
  unfolding post_qris_payment
  qris-Answers input = ground arith

  transfer-Answers :
      (input : TransferRequest) → let (r, t) = post_transfer formats input env [] in Answers env r t
  unfolding post_transfer
  transfer-Answers input = ground arith

pub record PaymentsAnswered (formats : Formats) (env : Env Response) : Type 0 where
  pub qris :
      (input : QrisPaymentRequest)
      → let (r, t) = post_qris_payment formats input env [] in Answers env r t
  pub transfer :
      (input : TransferRequest) → let (r, t) = post_transfer formats input env [] in Answers env r t

-- Whatever the services answer: a payment handler answers a body exactly if its service accepted the
-- payment, which it asked for once; it refuses with 400 or 401 before it asks, and otherwise with
-- 403, 404, 409 or 503, nothing accepted.
pub payments_answered : (formats : Formats) (env : Env Response) → PaymentsAnswered formats env
payments_answered formats env = record {
  qris = qris-Answers formats env;
  transfer = transfer-Answers formats env;
}
