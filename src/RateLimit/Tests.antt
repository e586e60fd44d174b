-- ===== src/RateLimit/Tests.antt =====
-- Concrete instances for the rate limit: a bucket of two tokens that is never filled again.
use dante_api_systems.Base.{
  ℕ, ◌-◌, ◌≡◌, refl, true, false, List, [], ◌∷◌, String, ◌==◌, if◌then◌else◌,
}
use dante_api_systems.Base.Dict.{lookup, insert}
use dante_api_systems.Go.Errors.{failure}
use dante_api_systems.Go.Exec.{Reply, error}
use dante_api_systems.Go.Strings.{trim_space, trim_left, trim_right}
use dante_api_systems.Models.{Time}
use dante_api_systems.RateLimit.{
  Request, passed, too_many_requests, Bucket, default_exclude_paths, has_prefix, is_excluded,
  before_comma, get_client_ip, get_limiter, handle, handle_all,
}
use dante_api_systems.RateLimit.Buckets.{times_of, answers_of, bucket_answers, handle_all-bucket}

abbrev bucket : Bucket ℕ
bucket = record { new_limiter = 2; allow = λ at n. if n == 0 then (false, 0) else (true, n - 1) }

abbrev split_host_port : String → Reply String
split_host_port address = error (failure "missing port")

abbrev from : String → Request
from ip = record { path = "/v1/transfers"; x_forwarded_for = ip; x_real_ip = ""; remote_addr = "b" }

-- Three requests of one client, and one of another between them.
abbrev requests : List (Time × Request)
requests = (1, from "a, p") ∷ (2, from "a") ∷ (3, from "c") ∷ (4, from " a") ∷ []

third_refused :
    (handle_all split_host_port bucket default_exclude_paths requests []).0
    ≡ passed ∷ passed ∷ passed ∷ too_many_requests ∷ []
unfolding handle_all handle is_excluded has_prefix get_client_ip before_comma trim_space trim_left
    trim_right lookup insert
third_refused = refl

handle_all-bucket_example :
    answers_of split_host_port bucket default_exclude_paths "a" requests
      (handle_all split_host_port bucket default_exclude_paths requests []).0
    ≡ bucket_answers split_host_port bucket default_exclude_paths
        (times_of split_host_port bucket default_exclude_paths "a" requests)
        (get_limiter split_host_port bucket default_exclude_paths "a" [])
handle_all-bucket_example =
    handle_all-bucket split_host_port bucket default_exclude_paths "a" requests []
