-- ===== src/RateLimit/Buckets.antt =====
-- Each client has a bucket of its own.
use dante_api_systems.Base.{
  Bool, not, ◌&&◌, ◌≡◌, refl, List, [], ◌∷◌, String, str_eq, eq_iff, arith, if◌then◌else◌,
}
use dante_api_systems.Base.Dict.{Dict, lookup-insert}
use dante_api_systems.Go.Exec.{Reply}
use dante_api_systems.Models.{Time}
use dante_api_systems.RateLimit.{
  Request, Passage, passed, Bucket, is_excluded, get_client_ip, get_limiter, passage, handle,
  handle_all,
}

module _ (split_host_port : String → Reply String) {L : Type 0} (bucket : Bucket L)
    (exclude_paths : List String) where
  -- Whether a request is counted for a client.
  abbrev pub counts : String → Request → Bool
  counts ip r =
      not (is_excluded exclude_paths r.path) && str_eq (get_client_ip split_host_port r) ip

  -- The times of the requests that are counted for a client.
  unfoldable pub times_of : String → List (Time × Request) → List Time
  times_of ip [] = []
  times_of ip ((at, r) ∷ rest) =
      let later = times_of ip rest in if counts ip r then at ∷ later else later

  -- The answers to these requests.
  unfoldable pub answers_of : String → List (Time × Request) → List Passage → List Passage
  answers_of ip [] answers = []
  answers_of ip (request ∷ rest) [] = []
  answers_of ip ((at, r) ∷ rest) (answered ∷ answers) =
      let later = answers_of ip rest answers in if counts ip r then answered ∷ later else later

  -- One bucket, asked at some times.
  unfoldable pub bucket_answers : List Time → L → List Passage
  bucket_answers [] limiter = []
  bucket_answers (at ∷ rest) limiter =
      let (allowed, after) = bucket.allow at limiter in
      passage split_host_port bucket exclude_paths allowed ∷ bucket_answers rest after

  -- What a request leaves of a client's limiter.
  handle-limiter :
      (ip : String) (at : Time) (r : Request) (limiters : Dict L)
      → let own = get_limiter split_host_port bucket exclude_paths ip limiters in
        let (answered, after) = handle split_host_port bucket exclude_paths at r limiters in
        (get_limiter split_host_port bucket exclude_paths ip after
          ≡ (if counts ip r then (bucket.allow at own).1 else own))
        × ((if counts ip r then answered else passed) ≡ (
            if counts ip r
            then passage split_host_port bucket exclude_paths (bucket.allow at own).0
            else passed))
  unfolding handle
  handle-limiter ip at r limiters =
      let client = get_client_ip split_host_port r in
      let used =
        (bucket.allow at (get_limiter split_host_port bucket exclude_paths client limiters)).1 in
      ground (arith, lookup-insert limiters used client ip, eq_iff client ip)

  -- Clients do not share a bucket: in any sequence of requests of any clients, the answers to the
  -- counted requests of a client are those of one bucket that is asked at their times alone, which is
  -- the client's stored one, or a new one if there is none.
  pub handle_all-bucket :
      (ip : String) (requests : List (Time × Request)) (limiters : Dict L)
      → answers_of ip requests (handle_all split_host_port bucket exclude_paths requests limiters).0
        ≡ bucket_answers
            (times_of ip requests)
            (get_limiter split_host_port bucket exclude_paths ip limiters)
  unfolding handle_all times_of answers_of bucket_answers
  handle_all-bucket ip [] limiters = refl
  handle_all-bucket ip ((at, r) ∷ rest) limiters =
      let after = (handle split_host_port bucket exclude_paths at r limiters).1 in
      ground (arith, handle-limiter ip at r limiters, handle_all-bucket ip rest after)
