-- ===== src/Legacy/Responses.antt =====
-- Responses are read as they are written.
use dante_api_systems.Base.{
  ℕ, ◌+◌, ◌≡◌, ◌∙◌, ap, refl, List, [], ◌∷◌, map, String, str_eq, ◌==◌, false, arith, if◌then◌else◌,
}
use dante_api_systems.Go.Strings.{trim_space}
use dante_api_systems.Legacy.Messages.{split_bars, to_list, split_legacy_response}
use Prim.Native.String.{◌++◌}
use Prim.Native.String.append
use Prim.Native.Char.{Char, code}

-- The parts of a response with bars between them.
unfoldable pub joined : String → List String → String
joined part [] = part
joined part (next ∷ rest) = part ++ ("|" ++ joined next rest)

-- The text has no bar, and no space around it.
unfoldable pub has_bar : String → ℕ
has_bar String.[] = 0
has_bar (String.◌∷◌ c s) = (if code c == 124 then 1 else 0) + has_bar s

pub record IsPart (part : String) : Type 0 where
  pub no_bar : has_bar part ≡ 0
  pub trimmed : trim_space part ≡ part

abbrev pub AreParts : List String → Type 0
AreParts [] = Unit
AreParts (part ∷ rest) = IsPart part × AreParts rest

no_bar-cons :
    (c : Char) (s : String)
    → has_bar (String.◌∷◌ c s) ≡ 0
    → (code c == 124 ≡ false) × (has_bar s ≡ 0)
unfolding has_bar
no_bar-cons c s h = ground arith

split_bars-part : (s : String) → has_bar s ≡ 0 → split_bars s ≡ (s, [])
unfolding split_bars
split_bars-part String.[] h = refl
split_bars-part (String.◌∷◌ c s) h =
    let (e, f) = no_bar-cons c s h in rw (e, split_bars-part s f) refl

split_bars-append :
    (s r : String) → has_bar s ≡ 0 → split_bars (s ++ ("|" ++ r)) ≡ (s, to_list (split_bars r))
unfolding split_bars
split_bars-append String.[] r h = rw (append.nil, append.cons, append.nil) refl
split_bars-append (String.◌∷◌ c s) r h =
    let (e, f) = no_bar-cons c s h in
    rw (append.cons c s ("|" ++ r), e, split_bars-append s r f) refl

split_bars-joined :
    (part : String) (rest : List String)
    → AreParts (part ∷ rest)
    → to_list (split_bars (joined part rest)) ≡ part ∷ rest
unfolding joined
split_bars-joined part [] (is_part, others) = rw (split_bars-part part is_part.no_bar) refl
split_bars-joined part (next ∷ rest) (is_part, others) =
    rw
      (split_bars-append part (joined next rest) is_part.no_bar, split_bars-joined next rest others)
      refl

map-trim_space : (parts : List String) → AreParts parts → map trim_space parts ≡ parts
map-trim_space [] p = refl
map-trim_space (part ∷ rest) (is_part, others) =
    rw (is_part.trimmed, map-trim_space rest others) refl

-- A response of such parts, with bars between; it is not empty and has no space around it.
pub record IsResponse (part : String) (rest : List String) : Type 0 where
  pub parts : AreParts (part ∷ rest)
  pub trimmed : trim_space (joined part rest) ≡ joined part rest
  pub filled : str_eq (joined part rest) "" ≡ false

-- A response of parts without bars and without space around them, with bars between, is split into
-- just these parts, if it is not empty and has no space around it.
pub split_legacy_response-joined :
    (part : String) (rest : List String)
    → IsResponse part rest
    → split_legacy_response (joined part rest) ≡ part ∷ rest
unfolding split_legacy_response
split_legacy_response-joined part rest r =
    rw (r.trimmed, r.filled)
      (ap (map trim_space) (split_bars-joined part rest r.parts)
        ∙ map-trim_space (part ∷ rest) r.parts)
