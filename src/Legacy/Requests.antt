-- ===== src/Legacy/Requests.antt =====
-- No argument of an operation can add markup to a request.
use dante_api_systems.Base.{
  ℕ, suc, ◌+◌, ◌≡◌, inl, inr, refl, Bool-cases, List, [], ◌∷◌, map, String, ◌==◌, arith,
  if◌then◌else◌,
}
use dante_api_systems.Legacy.Messages.{
  escaped, escape_string, arguments, opening, closing, build_soap_request,
}
use Prim.Native.String.{◌++◌}
use Prim.Native.String.append
use Prim.Native.Char.{Char, code}

-- How often a character stands in a text.
unfoldable pub occurrences : ℕ → String → ℕ
occurrences c String.[] = 0
occurrences c (String.◌∷◌ d s) = (if code d == c then 1 else 0) + occurrences c s

occurrences-append :
    (c : ℕ) (s t : String) → occurrences c (s ++ t) ≡ occurrences c s + occurrences c t
unfolding occurrences
occurrences-append c String.[] t = rw (append.nil t) (omega arith)
occurrences-append c (String.◌∷◌ d s) t =
    rw (append.cons d s t) (omega (arith, occurrences-append c s t))

-- The characters that delimit elements and attributes: < > and ".
abbrev pub delimiters : String → ℕ
delimiters s = occurrences 60 s + occurrences 62 s + occurrences 34 s

delimiters-append : (s t : String) → delimiters (s ++ t) ≡ delimiters s + delimiters t
delimiters-append s t =
    omega (arith, occurrences-append 60 s t, occurrences-append 62 s t, occurrences-append 34 s t)

delimiters-escaped : (d : Char) → delimiters (escaped d) ≡ 0
unfolding occurrences
delimiters-escaped d = elim (Bool-cases (code d == 38)) [
  | inl e ↦ rw e refl
  | inr e ↦ rw e (elim (Bool-cases (code d == 39)) [
    | inl f ↦ rw f refl
    | inr f ↦ rw f (elim (Bool-cases (code d == 60)) [
      | inl g ↦ rw g refl
      | inr g ↦ rw g (elim (Bool-cases (code d == 62)) [
        | inl k ↦ rw k refl
        | inr k ↦ rw k (elim (Bool-cases (code d == 34)) [
          | inl m ↦ rw m refl
          | inr m ↦ rw m (rw (g, k, m) refl)
        ])
      ])
    ])
  ])
]

delimiters-escape_string : (s : String) → delimiters (escape_string s) ≡ 0
unfolding escape_string occurrences
delimiters-escape_string String.[] = refl
delimiters-escape_string (String.◌∷◌ d s) = omega (
  arith,
  delimiters-append (escaped d) (escape_string s),
  delimiters-escaped d,
  delimiters-escape_string s,
)

delimiters-arguments :
    (itoa : ℕ → String) (index : ℕ) (args : List String)
    → delimiters (arguments itoa index args)
      ≡ delimiters (arguments itoa index (map (λ arg. "") args))
unfolding arguments escape_string occurrences
delimiters-arguments itoa index [] = refl
delimiters-arguments itoa index (arg ∷ rest) =
    let open_tag = "<ns:args" ++ itoa index in
    let close_tag = "</ns:args" ++ itoa index in
    let after = arguments itoa (suc index) rest in
    let after' = arguments itoa (suc index) (map (λ arg. "") rest) in
    omega (
      arith,
      delimiters-append open_tag ((">" ++ escape_string arg) ++ (close_tag ++ (">" ++ after))),
      delimiters-append (">" ++ escape_string arg) (close_tag ++ (">" ++ after)),
      delimiters-append ">" (escape_string arg),
      delimiters-append close_tag (">" ++ after),
      delimiters-append ">" after,
      delimiters-append open_tag ((">" ++ escape_string "") ++ (close_tag ++ (">" ++ after'))),
      delimiters-append (">" ++ escape_string "") (close_tag ++ (">" ++ after')),
      delimiters-append ">" (escape_string ""),
      delimiters-append close_tag (">" ++ after'),
      delimiters-append ">" after',
      delimiters-escape_string arg,
      delimiters-escape_string "",
      delimiters-arguments itoa (suc index) rest,
    )

-- The arguments of an operation cannot add markup: whatever they are, the request has as many
-- characters < > and " as with empty arguments in their place.
pub build_soap_request-delimiters :
    (itoa : ℕ → String) (operation : String) (args : List String)
    → delimiters (build_soap_request itoa operation args)
      ≡ delimiters (build_soap_request itoa operation (map (λ arg. "") args))
unfolding build_soap_request
build_soap_request-delimiters itoa operation args =
    let before = opening operation in
    let after = closing operation in
    let inner = arguments itoa 0 args in
    let blank = arguments itoa 0 (map (λ arg. "") args) in
    omega (
      arith,
      delimiters-append before (inner ++ after),
      delimiters-append inner after,
      delimiters-append before (blank ++ after),
      delimiters-append blank after,
      delimiters-arguments itoa 0 args,
    )
