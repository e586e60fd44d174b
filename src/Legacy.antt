-- ===== src/Legacy.antt =====
-- internal/legacy/client.go: the client of the legacy bank's SOAP service. The HTTP client, the XML
-- decoder and the printing and reading of numbers are parameters or calls.
pub mod Messages
pub mod Client
pub mod Requests
pub mod Responses
pub mod Answers
mod Tests
use dante_api_systems.Base.{ℕ, String, List}
use dante_api_systems.Base.Int.{ℤ}
use dante_api_systems.Go.Errors.{Error}
use dante_api_systems.Go.Exec.{Reply, Exec}

-- A token of encoding/xml: a start element, with its local name and what decoding it as a text
-- answers; any other token; or an error other than the end of the input.
pub data Token : Type 0 where
  start_element : String → Reply String → Token
  other_token : Token
  token_error : Error → Token

-- Building a request for the endpoint, sending it with a payload, which answers the status, and
-- reading the body of the response.
pub data Call : Type 0 where
  new_request : String → Call
  send : String → String → Call
  read_body : Call

abbrev pub Response : Call → Type 0
Response (new_request url) = Reply (Unit {0})
Response (send operation payload) = Reply ℕ
Response read_body = Reply String

abbrev pub Action : Type 0 → Type 0
Action A = Exec Response A

-- strconv.Itoa, strconv.FormatInt, strconv.ParseInt and the tokens of a document up to its end.
pub record Formats : Type 0 where
  pub itoa : ℕ → String
  pub format_int : ℤ → String
  pub parse_int : String → Reply ℤ
  pub tokens : String → List Token
