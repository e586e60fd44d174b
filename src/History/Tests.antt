-- ===== src/History/Tests.antt =====
-- Concrete instances for the transaction reads.
use dante_api_systems.Base.{
  ℕ, zero, suc, ◌≡◌, refl, ap, List, [], ◌∷◌, map, some, none, false, String, str_eq, eq_iff, arith,
  Bool-cases, inl, inr,
}
use Prim.Native.String.{◌++◌}
use Prim.Native.String.append
use text.Mathlib.TextLemmas.{cons≢nil}
use dante_api_systems.Base.Int.{pos}
use dante_api_systems.Go.Errors.{sentinel, redis_nil, failure}
use dante_api_systems.Go.Exec.{Reply, answer, error, Env}
use dante_api_systems.Go.Strings.{trim_space, trim_right}
use dante_api_systems.Models.{Transaction}
use dante_api_systems.History.{
  Codecs, HistoryParams, DetailView, StatusView, Response, list_transactions_by_account_id,
  get_transaction_by_id, get_transaction_status, get_transaction_status_by_id,
  start_set_transaction_status, split_bar, map_transaction_row, status_entry, normalize_limit,
}
use dante_api_systems.History.Cursor.{ReadsBack}
use dante_api_systems.Database.Order.{IsOrdered}
use dante_api_systems.Database.Transactions.{newer}
use dante_api_systems.History.Table.{served, history_of}
use dante_api_systems.History.Walk.{NotBlank, walk, walk-history}

-- A number as a row of strokes, which reads back.
abbrev strokes : ℕ → String
strokes zero = "x"
strokes (suc n) = String.◌∷◌ "x" (strokes n)

abbrev one_more : Reply ℕ → Reply ℕ
one_more (error e) = error e
one_more (answer n) = answer (suc n)

abbrev count_strokes : String → Reply ℕ
count_strokes String.[] = error (failure "empty")
count_strokes (String.◌∷◌ c String.[]) = answer 0
count_strokes (String.◌∷◌ c (String.◌∷◌ d s)) = one_more (count_strokes (String.◌∷◌ d s))

count_strokes-strokes : (n : ℕ) → count_strokes (strokes n) ≡ answer n
count_strokes-strokes zero = refl
count_strokes-strokes (suc zero) = refl
count_strokes-strokes (suc (suc n)) = ap one_more (count_strokes-strokes (suc n))

split_bar-strokes : (n : ℕ) → split_bar (strokes n) ≡ none
unfolding split_bar
split_bar-strokes zero = refl
split_bar-strokes (suc n) = rw (split_bar-strokes n) refl

abbrev codecs : Codecs
codecs = record {
  format_time = strokes;
  parse_time = count_strokes;
  base64_encode = λ s. s;
  base64_decode = λ s. answer s;
  uuid_string = strokes;
  uuid_parse = count_strokes;
}

codecs-ReadsBack : ReadsBack codecs
codecs-ReadsBack = record {
  base64_back = λ s. refl;
  time_back = count_strokes-strokes;
  uuid_back = count_strokes-strokes;
  time_bar = split_bar-strokes;
}

abbrev row : Transaction
row = record {
  id = 3;
  user_id = 7;
  merchant_id = some 4;
  account_id = 2;
  amount = pos 250;
  status = "PROCESSING";
  idempotency_key = "key";
  legacy_reference_id = none;
  failure_reason = none;
  requested_at = 5;
  processed_at = none;
  created_at = 5;
  updated_at = 6;
}

abbrev item : DetailView
item = map_transaction_row row

abbrev params : HistoryParams
params = record { account_id = 2; limit = pos 1; cursor = "" }

abbrev view : StatusView
view = record {
  id = 3;
  status = "PROCESSING";
  requested_at = 5;
  processed_at = none;
  updated_at = 6;
}

abbrev uncached : Env Response
uncached h (list_transactions_by_account_id p) = answer (row ∷ [])
uncached h (get_transaction_by_id id) = answer row
uncached h (get_transaction_status id) = error (sentinel redis_nil)
uncached h (get_transaction_status_by_id id) = answer (record {
  id = 3;
  status = "PROCESSING";
  requested_at = 5;
  processed_at = none;
  updated_at = 6;
})
uncached h (start_set_transaction_status entry ttl) = tt

abbrev cached : Env Response
cached h (get_transaction_status id) = answer (status_entry codecs view)
cached h c = uncached h c

normalize_limit-large : normalize_limit (pos 250) ≡ answer (pos 100)
normalize_limit-large = refl

stroke-ne : (s : String) → str_eq (String.◌∷◌ "x" (trim_right s)) "" ≡ false
stroke-ne s = elim (Bool-cases (str_eq (String.◌∷◌ "x" (trim_right s)) "")) [
  | inl e ↦ let same = (eq_iff (String.◌∷◌ "x" (trim_right s)) "").0 e in absurd (cons≢nil same)
  | inr e ↦ e
]

stroke-shown : (s : String) → str_eq (trim_space (String.◌∷◌ "x" s)) "" ≡ false
unfolding trim_space
stroke-shown s = elim (Bool-cases (str_eq (trim_right s) "")) [
  | inl e ↦ rw e (stroke-ne s)
  | inr e ↦ rw e (stroke-ne s)
]

strokes-shown : (n : ℕ) (s : String) → str_eq (trim_space (strokes n ++ s)) "" ≡ false
strokes-shown zero s = rw (append.cons, append.nil) (stroke-shown s)
strokes-shown (suc n) s = rw append.cons (stroke-shown (strokes n ++ s))

codecs-NotBlank : NotBlank codecs
codecs-NotBlank c = strokes-shown c.created_at ("|" ++ strokes c.id)

-- Two transactions of account 2 and one of account 9, the newest first.
abbrev table : List Transaction
table =
    record row { id = 8; created_at = 9 }
    ∷ record row { id = 6; account_id = 9; created_at = 7 }
    ∷ row
    ∷ []

walk-history_example :
    (walk codecs 4 (served table uncached) 2 (pos 1) ""
      ≡ some (map map_transaction_row (history_of 2 table)))
    × IsOrdered newer (history_of 2 table)
walk-history_example =
    walk-history codecs table uncached 2 (pos 1) 4 (omega arith) (omega arith) codecs-ReadsBack
      codecs-NotBlank (omega arith)

run_history : history_of 2 table ≡ record row { id = 8; created_at = 9 } ∷ row ∷ []
run_history = refl
