-- ===== src/Bridge/Tokens.antt =====
-- The bearer token of a header.
use dante_api_systems.Base.{◌≡◌, ◌≢◌, ◌↔◌, refl, sym, ap, some, String, eq_iff, arith}
use dante_api_systems.Go.Exec.{answer}
use dante_api_systems.Bridge.Sessions.{after_prefix, parse_bearer_token, prefix}
use Prim.Native.String.{◌++◌}
use Prim.Native.String.append
use Prim.Native.Char.{Char, code}
use text.Mathlib.TextEquality.{Char-path}

after_prefix-cons :
    (c d : Char) (p header token : String)
    → after_prefix (String.◌∷◌ c p) (String.◌∷◌ d header) ≡ some token
    → (code c ≡ code d) × (after_prefix p header ≡ some token)
unfolding after_prefix
after_prefix-cons c d p header token h = ground arith

after_prefix-some :
    (p header token : String) → after_prefix p header ≡ some token → header ≡ p ++ token
unfolding after_prefix
after_prefix-some String.[] header token h = rw (append.nil token) (ground arith)
after_prefix-some (String.◌∷◌ c p) String.[] token h = ground arith
after_prefix-some (String.◌∷◌ c p) (String.◌∷◌ d header) token h =
    let (same_code, rest) = after_prefix-cons c d p header token h in
    rw
      (
        append.cons c p token,
        sym (Char-path c d same_code),
        sym (after_prefix-some p header token rest),
      )
      refl

after_prefix-append : (p token : String) → after_prefix p (p ++ token) ≡ some token
unfolding after_prefix
after_prefix-append String.[] token = ap some (append.nil token)
after_prefix-append (String.◌∷◌ c p) token =
    rw (append.cons c p token) (ground (arith, after_prefix-append p token))

-- A header has a token exactly if it is `Bearer `, and the token after it, which is not empty.
pub parse_bearer_token_lem :
    (header token : String)
    → (parse_bearer_token header ≡ answer token) ↔ ((header ≡ prefix ++ token) × (token ≢ ""))
unfolding parse_bearer_token
parse_bearer_token_lem header token = (forward, backward)
  where
    forward : parse_bearer_token header ≡ answer token → (header ≡ prefix ++ token) × (token ≢ "")
    forward h =
        let found : after_prefix prefix header ≡ some token = ground (arith, h) in
        (after_prefix-some prefix header token found, ground (arith, h, found, eq_iff token ""))

    backward : (header ≡ prefix ++ token) × (token ≢ "") → parse_bearer_token header ≡ answer token
    backward (e, filled) =
        let found = after_prefix-append prefix token in
        rw e (ground (arith, found, filled, eq_iff token ""))
