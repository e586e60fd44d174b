-- ===== src/History/Walk.antt =====
-- The pages of an account's transactions, read one after the other from a table.
use dante_api_systems.Base.{
  ℕ, zero, suc, ◌-◌, ◌≡◌, ◌≤◌, ◌<◌, inl, inr, refl, sym, ap, subst, ◌∙◌, true, false, Bool-cases,
  List, [], ◌∷◌, ◌++◌, map, length, length-append, Option, none, some, String, str_eq, ◌==◌, arith,
}
use dante_api_systems.Base.Int.{ℤ}
use mathlib.Core.Path.{fun_ext}
use mathlib.Core.List.{append_assoc}
use dante_api_systems.Go.Exec.{answer, Result, ok, err, panic, Env}
use dante_api_systems.Go.Strings.{trim_space}
use dante_api_systems.Models.{Uuid, Transaction}
use dante_api_systems.Database.Rows.{
  filter, take, drop, All-append, All-filter, length-filter-le, filter-true, take-last, take-all,
}
use dante_api_systems.Database.Order.{
  IsOrdered, order_by-IsOrdered, filter-after, All-order_by, length-order_by,
}
use dante_api_systems.Database.Integrity.{HasIds, HasIds-filter}
use dante_api_systems.Database.Transactions.{newer, beyond, of_account}
use dante_api_systems.History.{
  Codecs, HistoryCursor, HistoryPage, DetailView, Response, encode_history_cursor, start_of,
  cursor_of, page_of, map_transaction_row, effective_limit, list_by_account,
}
use dante_api_systems.History.Cursor.{ReadsBack, decode-encode_history_cursor}
use dante_api_systems.History.Table.{
  served, newer_trans, newer_asym, newer_irrefl, AreTimed, HasIds-IsSeparated, history_of,
  list-history_of,
}

module _ (codecs : Codecs) where
  -- The pages that a client reads from a cursor on, following the cursors of the pages until there
  -- is none; `fuel` is the pages to read at most.
  abbrev joined : List DetailView → Option (List DetailView) → Option (List DetailView)
  joined items none = none
  joined items (some rest) = some (items ++ rest)

  abbrev followed :
      List DetailView
      → (String → Option (List DetailView))
      → Option String
      → Option (List DetailView)
  followed items again none = some items
  followed items again (some next) = joined items (again next)

  abbrev page_read :
      (String → Option (List DetailView)) → Result HistoryPage → Option (List DetailView)
  page_read again (ok page) = followed page.items again page.next_cursor
  page_read again (err e) = none
  page_read again panic = none

  pub walk : ℕ → Env Response → Uuid → ℤ → String → Option (List DetailView)
  walk zero env account limit cursor = none
  walk (suc fuel) env account limit cursor =
      let again = walk fuel env account limit in
      page_read again
        (list_by_account codecs (record { account_id = account; limit = limit; cursor = cursor })
          env []).0

  -- Documented of encoding/base64: what it writes for a cursor is not blank.
  abbrev pub NotBlank : Type 0
  NotBlank = (c : HistoryCursor) → str_eq (trim_space (encode_history_cursor codecs c)) "" ≡ false

  abbrev key : Transaction → HistoryCursor
  key row = record { created_at = row.created_at; id = row.id }

  abbrev views : List Transaction → List DetailView
  views = map map_transaction_row

  cursor_of-views :
      (rows : List Transaction) (row : Transaction)
      → cursor_of codecs (views (rows ++ row ∷ [])) ≡ some (encode_history_cursor codecs (key row))
  cursor_of-views [] row = refl
  cursor_of-views (x ∷ []) row = refl
  cursor_of-views (x ∷ (y ∷ rows)) row = cursor_of-views (y ∷ rows) row

  length-views : (rows : List Transaction) → length (views rows) ≡ length rows
  length-views [] = refl
  length-views (x ∷ rows) = ap suc (length-views rows)

  views-append : (xs ys : List Transaction) → views (xs ++ ys) ≡ views xs ++ views ys
  views-append [] ys = refl
  views-append (x ∷ xs) ys = ap (◌∷◌ (map_transaction_row x)) (views-append xs ys)

  start_of-cursor :
      ReadsBack codecs
      → NotBlank
      → (c : HistoryCursor) → start_of codecs (encode_history_cursor codecs c) ≡ answer c
  start_of-cursor back shown c = rw (shown c) (decode-encode_history_cursor codecs c back)

  module _ (rows : List Transaction) (cache : Env Response) (account : Uuid) (limit : ℤ)
      (ids : HasIds rows) where
    -- The rows of a page.
    abbrev page_rows : HistoryCursor → List Transaction
    page_rows from =
        take (effective_limit limit)
          (filter (beyond from.created_at from.id) (history_of account rows))

    list_by_account-page :
        (cursor : String) (from : HistoryCursor)
        → start_of codecs cursor ≡ answer from
        → (list_by_account codecs
            (record { account_id = account; limit = limit; cursor = cursor })
            (served rows cache)
            []).0
          ≡ ok (page_of codecs (effective_limit limit) (views (page_rows from)))
    unfolding list_by_account
    list_by_account-page cursor from h =
        rw (h, list-history_of account from.created_at from.id (effective_limit limit) rows ids)

    -- From a row on, the cursor of the row leaves what comes after it.
    beyond-key : (row : Transaction) → 1 ≤ row.created_at → beyond row.created_at row.id ≡ newer row
    beyond-key row timed = fun_ext (λ x. ground arith)

    module _ (timed : AreTimed rows) where
      pub history_of-IsOrdered : IsOrdered newer (history_of account rows)
      history_of-IsOrdered =
          let found = filter (of_account account) rows in
          order_by-IsOrdered newer newer_trans found
            (HasIds-IsSeparated found (HasIds-filter (of_account account) rows ids))

      history_of-AreTimed : AreTimed (history_of account rows)
      history_of-AreTimed =
          All-order_by newer (λ row. 1 ≤ row.created_at) (filter (of_account account) rows)
            (All-filter (λ row. 1 ≤ row.created_at) (of_account account) rows timed)

      -- What the cursor of a row of the history leaves.
      left_after :
          (xs : List Transaction) (row : Transaction) (ys : List Transaction)
          → history_of account rows ≡ xs ++ row ∷ ys
          → filter (beyond row.created_at row.id) (history_of account rows) ≡ ys
      left_after xs row ys e =
          let (_, (at, _)) =
            All-append (λ x. 1 ≤ x.created_at) xs (row ∷ ys)
              (subst AreTimed e history_of-AreTimed) in
          let ordered = subst (IsOrdered newer) e history_of-IsOrdered in
          rw (beyond-key row at, e)
            (filter-after newer newer_trans newer_asym newer_irrefl xs row ys ordered)

      module _ (back : ReadsBack codecs) (shown : NotBlank) where
        abbrev page_size : ℕ
        page_size = effective_limit limit

        positive_page : (limit : ℤ) → (m : ℕ) × (effective_limit limit ≡ suc m)
        positive_page limit = (effective_limit limit - 1, ground arith)

        -- A page that is not full is the last.
        page_read-last :
            (again : String → Option (List DetailView)) (rest : List Transaction)
            → (length (views (take page_size rest)) == page_size) ≡ false
            → page_read again (ok (page_of codecs page_size (views (take page_size rest))))
              ≡ some (views rest)
        page_read-last again rest short =
            let all =
              take-all page_size rest (λ e. ground (arith, length-views (take page_size rest))) in
            rw short (ap (λ found. some (views found)) all)

        -- A full page has the cursor of its last row.
        page_read-full :
            (again : String → Option (List DetailView)) (rest ys later : List Transaction)
            (y : Transaction)
            → (length (views (take page_size rest)) == page_size) ≡ true
            → take page_size rest ≡ ys ++ y ∷ []
            → rest ≡ ys ++ y ∷ later
            → again (encode_history_cursor codecs (key y)) ≡ some (views later)
            → page_read again (ok (page_of codecs page_size (views (take page_size rest))))
              ≡ some (views rest)
        page_read-full again rest ys later y full page whole next =
            rw (full, page, cursor_of-views ys y)
              (ap (joined (views (ys ++ y ∷ []))) next
                ∙ ap some (
                    sym (views-append (ys ++ y ∷ []) later)
                    ∙ ap views (append_assoc ys (y ∷ []) later ∙ sym whole)))

        page_read-follows :
            (again : String → Option (List DetailView)) (rest : List Transaction)
            → (length (views (take page_size rest)) == page_size) ≡ true
            → ((ys later : List Transaction) (y : Transaction)
                → rest ≡ ys ++ y ∷ later
                → again (encode_history_cursor codecs (key y)) ≡ some (views later))
            → page_read again (ok (page_of codecs page_size (views (take page_size rest))))
              ≡ some (views rest)
        page_read-follows again rest full next =
            let (m, positive) = positive_page limit in
            let filled : length (take (suc m) rest) ≡ suc m =
              ground (arith, length-views (take page_size rest)) in
            let (ys, y, page, whole) = take-last m rest filled in
            page_read-full again rest ys (drop (suc m) rest) y full
              (ap (λ n. take n rest) positive ∙ page) whole (next ys (drop (suc m) rest) y whole)

        pub walk-rest :
            (fuel : ℕ) (cursor : String) (from : HistoryCursor) (before rest : List Transaction)
            → start_of codecs cursor ≡ answer from
            → history_of account rows ≡ before ++ rest
            → filter (beyond from.created_at from.id) (history_of account rows) ≡ rest
            → length rest < fuel
            → walk fuel (served rows cache) account limit cursor ≡ some (views rest)
        unfolding walk
        walk-rest zero cursor from before rest read split left enough = absurd (omega arith)
        walk-rest (suc fuel) cursor from before rest read split left enough =
            let again = walk fuel (served rows cache) account limit in
            rw (list_by_account-page cursor from read, left)
              (elim (Bool-cases (length (views (take page_size rest)) == page_size)) [
                | inl full ↦ page_read-follows again rest full (λ ys later y whole.
                    let split' : history_of account rows ≡ (before ++ ys) ++ y ∷ later =
                      split
                      ∙ ap (λ xs. before ++ xs) whole
                      ∙ sym (append_assoc before ys (y ∷ later)) in
                    walk-rest fuel (encode_history_cursor codecs (key y)) (key y)
                      ((before ++ ys) ++ y ∷ []) later (start_of-cursor back shown (key y))
                      (split' ∙ sym (append_assoc (before ++ ys) (y ∷ []) later))
                      (left_after (before ++ ys) y later split')
                      (omega (arith, ap length whole, length-append {0} ys (y ∷ later))))
                | inr short ↦ page_read-last again rest short
              ])

-- On a table whose uuids differ and whose rows have a time, with codecs that read back what they
-- write and cursors that are not blank: for every limit, a client that starts without a cursor and
-- follows the cursors of the pages until there is none reads every transaction of the account
-- exactly once, the newest first, and at most one more page than the table has rows.
pub walk-history :
    (codecs : Codecs) (rows : List Transaction) (cache : Env Response) (account : Uuid) (limit : ℤ)
    (fuel : ℕ)
    → HasIds rows
    → AreTimed rows
    → ReadsBack codecs
    → NotBlank codecs
    → length rows < fuel
    → (walk codecs fuel (served rows cache) account limit ""
        ≡ some (map map_transaction_row (history_of account rows)))
      × IsOrdered newer (history_of account rows)
unfolding trim_space
walk-history codecs rows cache account limit fuel ids timed back shown enough =
    let found = filter (of_account account) rows in
    (
      walk-rest codecs rows cache account limit ids timed back shown fuel ""
          (record { created_at = 0; id = 0 }) [] (history_of account rows) refl refl
          (filter-true (history_of account rows))
          (omega (arith, length-order_by newer found, length-filter-le (of_account account) rows)),
      history_of-IsOrdered codecs rows cache account limit ids timed,
    )
