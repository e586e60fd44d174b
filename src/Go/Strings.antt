-- ===== src/Go/Strings.antt =====
-- What the services use of Go's strings package, over the characters of a text.
use dante_api_systems.Base.{
  ℕ, ◌-◌, Bool, true, false, ◌&&◌, ◌||◌, String, leb, ◌==◌, str_eq, if◌then◌else◌,
}
use Prim.Native.Char.{code}

-- `unicode.IsSpace`
abbrev is_space_code : ℕ → Bool
is_space_code c =
    (leb 9 c && leb c 13)
    || c == 32
    || c == 0x85
    || c == 0xa0
    || c == 0x1680
    || (leb 0x2000 c && leb c 0x200a)
    || c == 0x2028
    || c == 0x2029
    || c == 0x202f
    || c == 0x205f
    || c == 0x3000

unfoldable pub trim_left : String → String
trim_left String.[] = String.[]
trim_left (String.◌∷◌ c s) =
    let rest = trim_left s in if is_space_code (code c) then rest else String.◌∷◌ c s

unfoldable pub trim_right : String → String
trim_right String.[] = String.[]
trim_right (String.◌∷◌ c s) =
    let rest = trim_right s in
    if str_eq rest "" && is_space_code (code c) then String.[] else String.◌∷◌ c rest

unfoldable pub trim_space : String → String
unfolding trim_left trim_right
trim_space s = trim_right (trim_left s)

-- `unicode.ToUpper` where its result is ASCII; elsewhere the character stands for it.
abbrev upper_code : ℕ → ℕ
upper_code c =
    if leb 97 c && leb c 122
    then c - 32
    else (if c == 0x131 then 73 else (if c == 0x17f then 83 else c))

unfoldable pub starts_upper : String → String → Bool
starts_upper s String.[] = true
starts_upper String.[] (String.◌∷◌ d t) = false
starts_upper (String.◌∷◌ c s) (String.◌∷◌ d t) = upper_code (code c) == code d && starts_upper s t

-- `strings.Contains(strings.ToUpper(s), t)` for a text `t` of ASCII characters.
unfoldable pub contains_upper : String → String → Bool
unfolding starts_upper
contains_upper String.[] t = starts_upper String.[] t
contains_upper (String.◌∷◌ c s) t =
    let rest = contains_upper s t in starts_upper (String.◌∷◌ c s) t || rest
