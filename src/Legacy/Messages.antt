-- ===== src/Legacy/Messages.antt =====
-- The messages of the SOAP service: the request, the value in a response, and its parts.
use dante_api_systems.Base.{
  ℕ, suc, Bool, false, ◌&&◌, ◌||◌, List, [], ◌∷◌, map, String, str_eq, ◌==◌, if◌then◌else◌,
}
use dante_api_systems.Go.Errors.{failure}
use dante_api_systems.Go.Exec.{Reply, answer, error}
use dante_api_systems.Go.Strings.{trim_space, contains_upper}
use dante_api_systems.Legacy.{Token, start_element, other_token, token_error}
use Prim.Native.String.{◌++◌}
use Prim.Native.Char.{Char, code}

-- What html.EscapeString writes for a character.
abbrev pub escaped : Char → String
escaped c =
    if code c == 38
    then "&amp;"
    else (if code c == 39
        then "&#39;"
        else (if code c == 60
            then "&lt;"
            else (if code c == 62
                then "&gt;"
                else (if code c == 34 then "&#34;" else String.◌∷◌ c String.[]))))

unfoldable pub escape_string : String → String
escape_string String.[] = String.[]
escape_string (String.◌∷◌ c s) = escaped c ++ escape_string s

abbrev soap_envelope_namespace : String
soap_envelope_namespace = "http://schemas.xmlsoap.org/soap/envelope/"

abbrev soap_service_namespace : String
soap_service_namespace = "http://BankService.services.axis2"

-- The elements of the arguments, from an index on.
unfoldable pub arguments : (ℕ → String) → ℕ → List String → String
arguments itoa index [] = ""
arguments itoa index (argument ∷ rest) =
    ("<ns:args" ++ itoa index)
    ++ ((">" ++ escape_string argument)
        ++ (("</ns:args" ++ itoa index) ++ (">" ++ arguments itoa (suc index) rest)))

abbrev pub opening : String → String
opening operation =
    "<?xml version=\"1.0\" encoding=\"UTF-8\"?>"
    ++ ("<soapenv:Envelope xmlns:soapenv=\""
        ++ (soap_envelope_namespace
            ++ ("\" xmlns:ns=\""
                ++ (soap_service_namespace
                    ++ ("\"><soapenv:Header/><soapenv:Body><ns:" ++ (operation ++ ">"))))))

abbrev pub closing : String → String
closing operation = "</ns:" ++ (operation ++ "></soapenv:Body></soapenv:Envelope>")

-- `buildSOAPRequest`
unfoldable pub build_soap_request : (ℕ → String) → String → List String → String
build_soap_request itoa operation args =
    opening operation ++ (arguments itoa 0 args ++ closing operation)

abbrev value_of : Reply String → Reply String
value_of (answer value) = answer (trim_space value)
value_of (error e) = error e

-- The text of a fault is an error.
abbrev fault_of : Reply String → Reply String
fault_of (answer fault) = error (failure (trim_space fault))
fault_of (error e) = error e

-- The loop of `parseSOAPReturn`
unfoldable pub parse_soap_return : List Token → Reply String
parse_soap_return [] = error (failure "legacy soap response missing return value")
parse_soap_return (token_error e ∷ rest) = error e
parse_soap_return (other_token ∷ rest) = parse_soap_return rest
parse_soap_return (start_element name text ∷ rest) =
    let later = parse_soap_return rest in
    if str_eq name "return"
    then value_of text
    else (if str_eq name "faultstring" then fault_of text else later)

-- strings.Split at `|`: a first part and the others.
abbrev grown : Char → String × List String → String × List String
grown c (part, others) = (String.◌∷◌ c part, others)

abbrev pub to_list : String × List String → List String
to_list (part, others) = part ∷ others

unfoldable pub split_bars : String → String × List String
split_bars String.[] = (String.[], [])
split_bars (String.◌∷◌ c s) =
    let rest = split_bars s in if code c == 124 then (String.[], to_list rest) else grown c rest

-- `splitLegacyResponse`
unfoldable pub split_legacy_response : String → List String
split_legacy_response raw =
    let trimmed = trim_space raw in
    if str_eq trimmed "" then [] else map trim_space (to_list (split_bars trimmed))

-- `strings.EqualFold(s, "OK")`; the Kelvin sign folds to k.
abbrev is_o : ℕ → Bool
is_o c = c == 79 || c == 111

abbrev is_k : ℕ → Bool
is_k c = c == 75 || c == 107 || c == 0x212a

unfoldable pub is_ok : String → Bool
is_ok String.[] = false
is_ok (String.◌∷◌ c String.[]) = false
is_ok (String.◌∷◌ c (String.◌∷◌ d s)) = is_o (code c) && is_k (code d) && str_eq s ""

-- `isNotFoundResponse`
abbrev pub is_not_found_response : String → Bool
is_not_found_response raw =
    let normalized = trim_space raw in
    contains_upper normalized "NOT_FOUND" || contains_upper normalized "NOT FOUND"
