-- ===== src/History/Reads.antt =====
-- The pages of a history, and the status of a transaction.
use dante_api_systems.Base.{
  ℕ, ◌≡◌, ◌≤◌, sym, ap, ◌∙◌, false, List, [], ◌∷◌, Option, some, none, String, str_eq, arith,
}
use dante_api_systems.Base.Int.{ℤ}
use dante_api_systems.Go.Errors.{Error}
use dante_api_systems.Go.Exec.{answer, error, ok, Env}
use dante_api_systems.Go.Strings.{trim_space}
use dante_api_systems.Cache.Policy.{transaction_status_ttl}
use dante_api_systems.Models.{Uuid}
use dante_api_systems.History.{
  Codecs, HistoryCursor, HistoryParams, DetailView, StatusView, Response,
  list_transactions_by_account_id, get_transaction_status, get_transaction_status_by_id,
  start_set_transaction_status, encode_history_cursor, decode_history_cursor, cursor_of, page_of,
  effective_limit, list_by_account, status_entry, transaction_status,
}
use dante_api_systems.History.Cursor.{ReadsBack, decode-encode_history_cursor}

-- A page is never asked for with less than one or more than a hundred transactions.
effective_limit_bounds : (limit : ℤ) → (1 ≤ effective_limit limit) × (effective_limit limit ≤ 100)
effective_limit_bounds limit = ground arith

abbrev pub last_item : List DetailView → Option DetailView
last_item [] = none
last_item (item ∷ []) = some item
last_item (item ∷ (next ∷ items)) = last_item (next ∷ items)

cursor_of-last :
    (codecs : Codecs) (items : List DetailView) (item : DetailView)
    → last_item items ≡ some item
    → cursor_of codecs items
      ≡ some (encode_history_cursor codecs (record { created_at = item.created_at; id = item.id }))
cursor_of-last codecs [] item h = ground arith
cursor_of-last codecs (one ∷ []) item h = ground arith
cursor_of-last codecs (one ∷ (two ∷ items)) item h = cursor_of-last codecs (two ∷ items) item h

-- If the cursor of a page is not blank and the codecs read back what they write, then a request
-- with that cursor, for any limit, asks the database exactly once, for transactions of the same
-- account after the last item of the page, and for one to a hundred of them.
pub list_by_account-continues :
    (codecs : Codecs) (params : HistoryParams) (limit : ℤ) (full : ℕ) (items : List DetailView)
    (item : DetailView) (next : String) (env : Env Response)
    → ReadsBack codecs
    → last_item items ≡ some item
    → (page_of codecs full items).next_cursor ≡ some next
    → str_eq (trim_space next) "" ≡ false
    → let again = record params { cursor = next; limit = limit } in
      ((list_by_account codecs again env []).1
        ≡ list_transactions_by_account_id (record {
          account_id = params.account_id;
          column2 = item.created_at;
          id = item.id;
          limit = effective_limit limit;
        })
          ∷ [])
      × (1 ≤ effective_limit limit)
      × (effective_limit limit ≤ 100)
unfolding list_by_account
list_by_account-continues codecs params limit full items item next env back last shown text =
    let at : HistoryCursor = record { created_at = item.created_at; id = item.id } in
    let written : encode_history_cursor codecs at ≡ next =
      ground (arith, cursor_of-last codecs items item last) in
    let decoded =
      ap (decode_history_cursor codecs) (sym written)
      ∙ decode-encode_history_cursor codecs at back in
    let (low, high) = effective_limit_bounds limit in (rw (text, decoded) (ground arith), low, high)

-- A status that the cache does not have is read from the database, and a goroutine is started that
-- stores it with the lifetime of a status; where the cache answers what that goroutine stores, a
-- later request answers the same, and asks the cache alone.
pub status_kept :
    (codecs : Codecs) (id : Uuid) (env env' : Env Response) (x : Error) (v : StatusView)
    → ReadsBack codecs
    → env [] (get_transaction_status id) ≡ error x
    → (transaction_status codecs id env []).0 ≡ ok v
    → env' [] (get_transaction_status id) ≡ answer (status_entry codecs v)
    → ((transaction_status codecs id env []).1
        ≡ start_set_transaction_status (status_entry codecs v) transaction_status_ttl
          ∷ get_transaction_status_by_id id
          ∷ get_transaction_status id
          ∷ [])
      × (transaction_status codecs id env' [] ≡ (ok v, get_transaction_status id ∷ []))
unfolding transaction_status
status_kept codecs id env env' x v back missed read hit = ground (arith, back.uuid_back v.id)
