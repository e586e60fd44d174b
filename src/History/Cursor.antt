-- ===== src/History/Cursor.antt =====
-- Cursors of the transaction history.
use dante_api_systems.Base.{◌≡◌, refl, false, some, none, String, arith, ◌==◌}
use dante_api_systems.Go.Exec.{answer}
use dante_api_systems.Models.{Uuid, Time}
use Prim.Native.String.{◌++◌}
use Prim.Native.String.append
use Prim.Native.Char.{Char, code}
use dante_api_systems.History.{
  Codecs, HistoryCursor, split_bar, encode_history_cursor, decode_history_cursor,
}

-- The text before the first bar, and the one after it.
split_bar-cons :
    (c : Char) (s r : String)
    → split_bar (String.◌∷◌ c s) ≡ none
    → (code c == 124 ≡ false) × (split_bar s ≡ none)
unfolding split_bar
split_bar-cons c s r h = ground arith

split_bar-append : (s r : String) → split_bar s ≡ none → split_bar (s ++ ("|" ++ r)) ≡ some (s, r)
unfolding split_bar
split_bar-append String.[] r h = rw (append.nil, append.cons, append.nil) refl
split_bar-append (String.◌∷◌ c s) r h =
    let (e, f) = split_bar-cons c s r h in
    rw (append.cons c s ("|" ++ r), e, split_bar-append s r f) refl

-- What encoding/base64, the time layout and the uuid package document: what they write is read
-- back; and a written time has no bar.
pub record ReadsBack (codecs : Codecs) : Type 0 where
  pub base64_back : (s : String) → codecs.base64_decode (codecs.base64_encode s) ≡ answer s
  pub time_back : (t : Time) → codecs.parse_time (codecs.format_time t) ≡ answer t
  pub uuid_back : (id : Uuid) → codecs.uuid_parse (codecs.uuid_string id) ≡ answer id
  pub time_bar : (t : Time) → split_bar (codecs.format_time t) ≡ none

-- A cursor is read back as it was written, if the codecs read back what they write and a written
-- time has no bar.
pub decode-encode_history_cursor :
    (codecs : Codecs) (cursor : HistoryCursor)
    → ReadsBack codecs
    → decode_history_cursor codecs (encode_history_cursor codecs cursor) ≡ answer cursor
unfolding decode_history_cursor
decode-encode_history_cursor codecs cursor back =
    let t = codecs.format_time cursor.created_at in
    let u = codecs.uuid_string cursor.id in
    rw
      (
        back.base64_back (t ++ ("|" ++ u)),
        split_bar-append t u (back.time_bar cursor.created_at),
        back.time_back cursor.created_at,
        back.uuid_back cursor.id,
      )
      refl
