-- ===== src/RateLimit.antt =====
-- internal/middleware/ratelimit.go: the rate limit per client. The token bucket is that of
-- golang.org/x/time/rate, a parameter; the map of the limiters is the state, which each request
-- changes in one atomic step and whose buckets answer one after another.
pub mod Buckets
mod Tests
use dante_api_systems.Base.{
  ℕ, Bool, true, false, List, [], ◌∷◌, Option, none, some, String, str_eq, ◌==◌, if◌then◌else◌,
}
use dante_api_systems.Base.Dict.{Dict, lookup, insert}
use dante_api_systems.Go.Exec.{Reply, answer, error}
use dante_api_systems.Go.Strings.{trim_space}
use dante_api_systems.Models.{Time}
use Prim.Native.Char.{code}

-- What the middleware reads of a request.
pub record Request : Type 0 where
  pub path : String
  pub x_forwarded_for : String
  pub x_real_ip : String
  pub remote_addr : String

-- The answer of the middleware: the request is passed on, or refused with the status 429.
pub data Passage : Type 0 where
  passed : Passage
  too_many_requests : Passage

-- `rate.NewLimiter` with the configured limit and burst, and `Allow` at a time.
pub record Bucket (L : Type 0) : Type 0 where
  pub new_limiter : L
  pub allow : Time → L → Bool × L

abbrev pub default_exclude_paths : List String
default_exclude_paths =
    "/health" ∷ "/ready" ∷ "/info" ∷ "/metrics" ∷ "/openapi" ∷ "/docs" ∷ "/internal/" ∷ []

-- `strings.HasPrefix`
unfoldable pub has_prefix : String → String → Bool
has_prefix s String.[] = true
has_prefix String.[] (String.◌∷◌ d p) = false
has_prefix (String.◌∷◌ c s) (String.◌∷◌ d p) =
    let rest = has_prefix s p in if code c == code d then rest else false

unfoldable pub is_excluded : List String → String → Bool
is_excluded [] path = false
is_excluded (exclude ∷ rest) path =
    let later = is_excluded rest path in if has_prefix path exclude then true else later

-- The first of the parts that `strings.Split` makes at a comma.
unfoldable pub before_comma : String → String
before_comma String.[] = String.[]
before_comma (String.◌∷◌ c s) =
    let rest = before_comma s in if code c == 44 then String.[] else String.◌∷◌ c rest

-- `split_host_port` is the host of net.SplitHostPort.
module _ (split_host_port : String → Reply String) where
  abbrev host_of : String → Reply String → String
  host_of address (answer ip) = ip
  host_of address (error e) = address

  unfoldable pub get_client_ip : Request → String
  get_client_ip r =
      if str_eq r.x_forwarded_for ""
      then (if str_eq r.x_real_ip ""
          then host_of r.remote_addr (split_host_port r.remote_addr)
          else trim_space r.x_real_ip)
      else trim_space (before_comma r.x_forwarded_for)

  module _ {L : Type 0} (bucket : Bucket L) (exclude_paths : List String) where
    -- `LoadOrStore` with a new limiter
    abbrev or_new : Option L → L
    or_new (some limiter) = limiter
    or_new none = bucket.new_limiter

    abbrev pub get_limiter : String → Dict L → L
    get_limiter ip limiters = or_new (lookup ip limiters)

    abbrev passage : Bool → Passage
    passage true = passed
    passage false = too_many_requests

    -- `Handler`, for a request at a time, with the limiters before and after it
    unfoldable pub handle : Time → Request → Dict L → Passage × Dict L
    handle at r limiters =
        let ip = get_client_ip r in
        let (allowed, limiter) = bucket.allow at (get_limiter ip limiters) in
        if is_excluded exclude_paths r.path
        then (passed, limiters)
        else (passage allowed, insert ip limiter limiters)

    -- Requests one after another, each with its time: the answers, and the limiters at the end.
    unfoldable pub handle_all : List (Time × Request) → Dict L → List Passage × Dict L
    handle_all [] limiters = ([], limiters)
    handle_all ((at, r) ∷ rest) limiters =
        let (answered, between) = handle at r limiters in
        let (others, after) = handle_all rest between in (answered ∷ others, after)
