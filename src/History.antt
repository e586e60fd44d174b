-- ===== src/History.antt =====
-- internal/service/transaction: the pages of an account's transactions (history.go), one
-- transaction (detail.go) and its status (status.go), over calls of the database and the cache.
pub mod Cursor
pub mod Reads
pub mod Table
pub mod Walk
mod Tests
use dante_api_systems.Base.{
  ℕ, ◌==◌, Bool, List, [], ◌∷◌, length, map, Option, none, some, String, str_eq, if◌then◌else◌,
}
use dante_api_systems.Base.Int.{ℤ, pos, pos_part, leb_ℤ}
use dante_api_systems.Go.Errors.{Error, sentinel, wrap, is, no_rows, redis_nil, failure}
use dante_api_systems.Go.Exec.{Reply, answer, error, Exec, ask, pure, fail, crash, ◌>>=◌}
use dante_api_systems.Go.Strings.{trim_space}
use dante_api_systems.Cache.Policy.{transaction_status_ttl}
use dante_api_systems.Models.{Uuid, Time, Transaction, ListTransactionsByAccountIdParams, StatusRow}
use dante_api_systems.Views.{TransactionStatusCacheEntry}
use Prim.Native.String.{◌++◌}
use Prim.Native.Char.{Char, code}

pub record DetailView : Type 0 where
  pub id : Uuid
  pub user_id : Uuid
  pub merchant_id : Option Uuid
  pub account_id : Uuid
  pub amount : ℤ
  pub status : String
  pub idempotency_key : String
  pub legacy_reference_id : Option String
  pub failure_reason : Option String
  pub requested_at : Time
  pub processed_at : Option Time
  pub created_at : Time
  pub updated_at : Time

pub record StatusView : Type 0 where
  pub id : Uuid
  pub status : String
  pub requested_at : Time
  pub processed_at : Option Time
  pub updated_at : Time

pub record HistoryParams : Type 0 where
  pub account_id : Uuid
  pub limit : ℤ
  pub cursor : String

pub record HistoryPage : Type 0 where
  pub items : List DetailView
  pub next_cursor : Option String

pub record HistoryCursor : Type 0 where
  pub created_at : Time
  pub id : Uuid

-- `start_set_transaction_status` starts a goroutine that stores the status and drops the error.
pub data Call : Type 0 where
  list_transactions_by_account_id : ListTransactionsByAccountIdParams → Call
  get_transaction_by_id : Uuid → Call
  get_transaction_status : Uuid → Call
  get_transaction_status_by_id : Uuid → Call
  start_set_transaction_status : TransactionStatusCacheEntry → ℤ → Call

abbrev pub Response : Call → Type 0
Response (list_transactions_by_account_id params) = Reply (List Transaction)
Response (get_transaction_by_id id) = Reply Transaction
Response (get_transaction_status id) = Reply TransactionStatusCacheEntry
Response (get_transaction_status_by_id id) = Reply StatusRow
Response (start_set_transaction_status entry ttl) = Unit {0}

abbrev pub Action : Type 0 → Type 0
Action A = Exec Response A

-- The time layout, base64.RawURLEncoding and github.com/google/uuid.
pub record Codecs : Type 0 where
  pub format_time : Time → String
  pub parse_time : String → Reply Time
  pub base64_encode : String → String
  pub base64_decode : String → Reply String
  pub uuid_string : Uuid → String
  pub uuid_parse : String → Reply Uuid

abbrev pub map_transaction_row : Transaction → DetailView
map_transaction_row row = record {
  id = row.id;
  user_id = row.user_id;
  merchant_id = row.merchant_id;
  account_id = row.account_id;
  amount = row.amount;
  status = row.status;
  idempotency_key = row.idempotency_key;
  legacy_reference_id = row.legacy_reference_id;
  failure_reason = row.failure_reason;
  requested_at = row.requested_at;
  processed_at = row.processed_at;
  created_at = row.created_at;
  updated_at = row.updated_at;
}

abbrev capped : ℤ → ℕ
capped limit = if leb_ℤ limit (pos 100) then pos_part limit else 100

abbrev pub effective_limit : ℤ → ℕ
effective_limit limit = if leb_ℤ limit (pos 0) then 20 else capped limit

abbrev pub normalize_limit : ℤ → Reply ℤ
normalize_limit limit =
    if leb_ℤ limit (pos 0)
    then error (failure "limit must be greater than zero")
    else answer (if leb_ℤ limit (pos 100) then limit else pos 100)

-- `strings.SplitN(raw, "|", 2)`, if it has two parts.
abbrev first_part : Char → Option (String × String) → Option (String × String)
first_part c none = none
first_part c (some (before, after)) = some (String.◌∷◌ c before, after)

unfoldable pub split_bar : String → Option (String × String)
split_bar String.[] = none
split_bar (String.◌∷◌ c s) =
    let rest = split_bar s in if code c == 124 then some (String.[], s) else first_part c rest

module _ (codecs : Codecs) where
  open codecs use {format_time, parse_time, base64_encode, base64_decode, uuid_string, uuid_parse}

  abbrev pub encode_history_cursor : HistoryCursor → String
  encode_history_cursor cursor =
      base64_encode (format_time cursor.created_at ++ ("|" ++ uuid_string cursor.id))

  abbrev with_id : Time → Reply Uuid → Reply HistoryCursor
  with_id created_at (error e) = error e
  with_id created_at (answer id) = answer (record { created_at = created_at; id = id })

  abbrev with_time : String → Reply Time → Reply HistoryCursor
  with_time rest (error e) = error e
  with_time rest (answer created_at) = with_id created_at (uuid_parse rest)

  abbrev with_parts : Option (String × String) → Reply HistoryCursor
  with_parts none = error (failure "invalid cursor format")
  with_parts (some (first, second)) = with_time second (parse_time first)

  abbrev with_raw : Reply String → Reply HistoryCursor
  with_raw (error e) = error e
  with_raw (answer raw) = with_parts (split_bar raw)

  pub decode_history_cursor : String → Reply HistoryCursor
  decode_history_cursor encoded = with_raw (base64_decode encoded)

  -- The zero time and uuid, if there is no cursor.
  abbrev pub start_of : String → Reply HistoryCursor
  start_of cursor =
      if str_eq (trim_space cursor) ""
      then answer (record { created_at = 0; id = 0 })
      else decode_history_cursor cursor

  -- The last of some items, as a cursor.
  abbrev pub cursor_of : List DetailView → Option String
  cursor_of [] = none
  cursor_of (item ∷ []) =
      some (encode_history_cursor (record { created_at = item.created_at; id = item.id }))
  cursor_of (item ∷ (next ∷ items)) = cursor_of (next ∷ items)

  abbrev pub page_of : ℕ → List DetailView → HistoryPage
  page_of limit items = record {
    items = items;
    next_cursor = if length items == limit then cursor_of items else none;
  }

  abbrev page_read : ℕ → Reply (List Transaction) → Action HistoryPage
  page_read limit (error e) = fail (wrap "read account transaction history from database" e)
  page_read limit (answer rows) = pure (page_of limit (map map_transaction_row rows))

  abbrev page_from : HistoryParams → Reply HistoryCursor → Action HistoryPage
  page_from params (error e) = fail (wrap "decode history cursor" e)
  page_from params (answer start) = do
    rows ← ask (
        list_transactions_by_account_id (record {
          account_id = params.account_id;
          column2 = start.created_at;
          id = start.id;
          limit = effective_limit params.limit;
        }))
    page_read (effective_limit params.limit) rows

  -- `ListByAccount`
  pub list_by_account : HistoryParams → Action HistoryPage
  list_by_account params = page_from params (start_of params.cursor)

  abbrev cached_status : TransactionStatusCacheEntry → Reply Uuid → Action StatusView
  cached_status cached (error e) = crash
  cached_status cached (answer id) = pure (record {
    id = id;
    status = cached.status;
    requested_at = cached.requested_at;
    processed_at = cached.processed_at;
    updated_at = cached.updated_at;
  })

  abbrev pub status_view : StatusRow → StatusView
  status_view row = record {
    id = row.id;
    status = row.status;
    requested_at = row.requested_at;
    processed_at = row.processed_at;
    updated_at = row.updated_at;
  }

  abbrev pub status_entry : StatusView → TransactionStatusCacheEntry
  status_entry view = record {
    id = uuid_string view.id;
    status = view.status;
    requested_at = view.requested_at;
    processed_at = view.processed_at;
    updated_at = view.updated_at;
  }

  abbrev status_read : Reply StatusRow → Action StatusView
  status_read (error e) =
      fail (if is e no_rows then e else wrap "read transaction status from database" e)
  status_read (answer row) = do
    started ←
        ask (start_set_transaction_status (status_entry (status_view row)) transaction_status_ttl)
    pure (status_view row)

  abbrev status_looked_up : Uuid → Reply TransactionStatusCacheEntry → Action StatusView
  status_looked_up id (answer cached) = cached_status cached (uuid_parse cached.id)
  status_looked_up id (error e) =
      if is e redis_nil
      then (do row ← ask (get_transaction_status_by_id id); status_read row)
      else fail (wrap "read transaction status from cache" e)

  -- `GetStatus`
  unfoldable pub transaction_status : Uuid → Action StatusView
  transaction_status id = do cached ← ask (get_transaction_status id); status_looked_up id cached

abbrev detail_read : Reply Transaction → Action DetailView
detail_read (error e) =
    fail (if is e no_rows then e else wrap "read transaction detail from database" e)
detail_read (answer row) = pure (map_transaction_row row)

-- `GetDetail`
pub transaction_detail : Uuid → Action DetailView
transaction_detail id = do row ← ask (get_transaction_by_id id); detail_read row
