-- ===== src/Bridge/Invalidation.antt =====
-- What an invalidation deletes and what it tells.
use dante_api_systems.Base.{
  ◌<◌, ◌≡◌, ◌⊎◌, List, [], ◌∷◌, ◌++◌, length, Option, some, none, String, true, ◌==◌, ◌||◌, arith,
}
use dante_api_systems.Go.Exec.{Reply, answer, error, Result, ok, err, panic, Env}
use dante_api_systems.Bridge.{
  Call, Response, Answer, Formats, body, refused, delete_merchant, delete_account_balance,
  delete_transaction_status, delete_session,
}
use dante_api_systems.Bridge.Internal.{CacheInvalidateRequest, invalidate_cache}

abbrev deleted : String → Reply (Unit {0}) → List String
deleted name (answer u) = name ∷ []
deleted name (error e) = []

-- The kinds of the entries that were deleted, the first one first.
abbrev pub removals : Env Response → List Call → List String
removals env [] = []
removals env (delete_merchant id ∷ h) =
    removals env h ++ deleted "merchant" (env h (delete_merchant id))
removals env (delete_account_balance id ∷ h) =
    removals env h ++ deleted "account_balance" (env h (delete_account_balance id))
removals env (delete_transaction_status id ∷ h) =
    removals env h ++ deleted "transaction_status" (env h (delete_transaction_status id))
removals env (delete_session token ∷ h) =
    removals env h ++ deleted "session" (env h (delete_session token))
removals env (_ ∷ h) = removals env h

abbrev named : String → Option String → List String
named name (some target) = name ∷ []
named name none = []

-- The kinds of the entries that a request names.
abbrev pub wanted : CacheInvalidateRequest → List String
wanted input =
    named "merchant" input.merchant_id
    ++ (named "account_balance" input.account_id
        ++ (named "transaction_status" input.transaction_id ++ named "session" input.session_token))

-- An answered request deleted what it named, and says so; a refused one, with 400 or 503, named
-- nothing or left something undeleted, but may have deleted what came before.
abbrev pub Told :
    Env Response → CacheInvalidateRequest → Result (Answer (List String)) → List Call → Type 0
Told env input (ok (body names)) t = (names ≡ wanted input) × (removals env t ≡ wanted input)
Told env input (ok (refused status text)) t =
    ((status == 400 || status == 503) ≡ true)
    × ((wanted input ≡ []) ⊎ (length (removals env t) < length (wanted input)))
Told env input (err e) t = ⊥
Told env input panic t = ⊥

-- Whatever the parser of identifiers and the caches answer: an invalidation answers the kinds that
-- the request names, all of them deleted; or it refuses with 400 or 503, naming nothing or with
-- something left undeleted.
pub invalidate_cache_lem :
    (formats : Formats) (input : CacheInvalidateRequest) (env : Env Response)
    → let (r, t) = invalidate_cache formats input env [] in Told env input r t
unfolding invalidate_cache
invalidate_cache_lem formats input env = ground arith
