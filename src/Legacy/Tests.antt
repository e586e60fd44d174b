-- ===== src/Legacy/Tests.antt =====
-- Concrete instances for the client of the legacy service.
use dante_api_systems.Base.{◌≡◌, List, [], ◌∷◌, String}
use dante_api_systems.Base.Int.{ℤ, pos}
use dante_api_systems.Go.Exec.{answer, Env}
use dante_api_systems.Models.{Time}
use dante_api_systems.Legacy.{Response, Formats, start_element, new_request, send, read_body}
use dante_api_systems.Legacy.Messages.{build_soap_request}
use dante_api_systems.Legacy.Requests.{delimiters, build_soap_request-delimiters}

abbrev formats : Formats
formats = record {
  itoa = λ n. "0";
  format_int = λ n. "10";
  parse_int = λ s. answer (pos 10);
  tokens = λ body. start_element "return" (answer body) ∷ [];
}

abbrev unix_time : ℤ → Time
unix_time n = 7

-- A service that answers every request with one text.
abbrev answering : String → Env Response
answering raw h (new_request url) = answer tt
answering raw h (send operation payload) = answer 200
answering raw h read_body = answer raw

abbrev paid : List String
paid = "A1" ∷ "QR9" ∷ "10" ∷ []

build_soap_request-delimiters_example :
    delimiters (build_soap_request formats.itoa "qris" ("<a>" ∷ "\"" ∷ []))
    ≡ delimiters (build_soap_request formats.itoa "qris" ("" ∷ "" ∷ []))
build_soap_request-delimiters_example =
    build_soap_request-delimiters formats.itoa "qris" ("<a>" ∷ "\"" ∷ [])
