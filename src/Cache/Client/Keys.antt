-- ===== src/Cache/Client/Keys.antt =====
-- The keys of locks and of entries, by their first characters.
use dante_api_systems.Base.{ℕ, ◌≡◌, refl, String}
use Prim.Native.String.{◌++◌}
use Prim.Native.String.append
use Prim.Native.Char.{Char, code}

-- The key of a lock is that of no entry: it begins with another character.
abbrev pub first_code : String → ℕ
first_code String.[] = 0
first_code (String.◌∷◌ c s) = code c

first_code-append : (c : Char) (p s : String) → first_code ((String.◌∷◌ c p) ++ s) ≡ code c
first_code-append c p s = rw (append.cons c p s) refl

pub lock_code : (s : String) → first_code ("lock:merchant:" ++ s) ≡ 108
lock_code s = first_code-append "l" "ock:merchant:" s

pub merchant_code : (s : String) → first_code ("merchant:" ++ s) ≡ 109
merchant_code s = first_code-append "m" "erchant:" s

pub status_code : (s : String) → first_code ("transaction_status:" ++ s) ≡ 116
status_code s = first_code-append "t" "ransaction_status:" s

pub balance_code : (s : String) → first_code ("account_balance:" ++ s) ≡ 97
balance_code s = first_code-append "a" "ccount_balance:" s

pub session_code : (s : String) → first_code ("session:" ++ s) ≡ 115
session_code s = first_code-append "s" "ession:" s
