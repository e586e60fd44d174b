-- ===== src/Cache/Client/Lock.antt =====
-- The lock of a merchant between clients.
use dante_api_systems.Base.{ℕ, ◌+◌, ◌≡◌, List, [], ◌∷◌, Option, none, some, String, eq_iff, arith}
use dante_api_systems.Base.Int.{ℤ}
use dante_api_systems.Go.Exec.{ok}
use dante_api_systems.Go.Trace.{total}
use dante_api_systems.Models.{Uuid}
use dante_api_systems.Cache.Policy.{merchant_lock_key}
use dante_api_systems.Cache.Client.{Call, Response, Codecs, new_token, acquire_merchant_lock}
use dante_api_systems.Cache.Client.Server.{after, served, IsRedis}
use dante_api_systems.Cache.Client.Operations.{
  Operation, performed, all_performed, Unreleased, Unreleased-cons, taken,
}
use dante_api_systems.Cache.Client.Held.{Held, performed-Held}

module _ {S : Type 0} (serve : (c : Call) → S → Response c × S) (value : String → S → Option String)
    (redis : IsRedis serve value) (codecs : Codecs) (s : S) (id : Uuid) (token : String)
    (n : ℕ) where
  all_performed-Held :
      (ops : List Operation) (h : List Call)
      → Held serve value redis codecs s id token n h
      → Unreleased token ops
      → Held serve value redis codecs s id token n (all_performed codecs (served serve s) ops h)
  unfolding all_performed
  all_performed-Held [] h held u = held
  all_performed-Held (op ∷ ops) h held u =
      let (first, rest) = Unreleased-cons token op ops u in
      all_performed-Held ops (performed codecs (served serve s) op h)
        (performed-Held serve value redis codecs s id token n h op held first) rest

module _ {S : Type 0} (serve : (c : Call) → S → Response c × S) (value : String → S → Option String)
    (redis : IsRedis serve value) (codecs : Codecs) (s : S) (h : List Call) (id : Uuid) (ttl : ℤ)
    (token : String) where
  -- A lock that was acquired was free before, and has the token.
  acquire_merchant_lock-Held :
      (acquire_merchant_lock codecs id ttl (served serve s) h).0 ≡ ok (some token)
      → (value (merchant_lock_key codecs.uuid_string id) (after serve s h) ≡ none)
        × Held serve value redis codecs s id token
            (total (taken (merchant_lock_key codecs.uuid_string id)) (served serve s) h + 1)
            (acquire_merchant_lock codecs id ttl (served serve s) h).1
  unfolding acquire_merchant_lock
  acquire_merchant_lock-Held done =
      let lock = merchant_lock_key codecs.uuid_string id in
      let st = after serve s (new_token ∷ h) in
      let same : served serve s h new_token ≡ token = ground (arith, done) in
      ground (
        arith,
        done,
        same,
        eq_iff lock lock,
        redis.others new_token lock (after serve s h) (λ x. x),
        redis.set_nx_sets lock (served serve s h new_token) ttl st,
      )

-- While no lifetime ends, the lock of a merchant is exclusive: it was free before a client acquired it; and then,
-- whatever operations of the cache any clients perform in whatever order, those on this lock and all
-- entries included, none of which is a release with the token of that client, the lock still has the
-- token, and nobody has acquired it again.
pub lock_exclusive :
    {S : Type 0} (serve : (c : Call) → S → Response c × S) (value : String → S → Option String)
    (codecs : Codecs) (s : S) (h : List Call) (id : Uuid) (ttl : ℤ) (token : String)
    (ops : List Operation)
    → IsRedis serve value
    → (acquire_merchant_lock codecs id ttl (served serve s) h).0 ≡ ok (some token)
    → Unreleased token ops
    → let env = served serve s in
      let lock = merchant_lock_key codecs.uuid_string id in
      let mine = (acquire_merchant_lock codecs id ttl env h).1 in
      let t = all_performed codecs env ops mine in
      (value lock (after serve s h) ≡ none)
      × (value lock (after serve s t) ≡ some token)
      × (total (taken lock) env t ≡ total (taken lock) env h + 1)
lock_exclusive serve value codecs s h id ttl token ops redis done u =
    let env = served serve s in
    let mine = (acquire_merchant_lock codecs id ttl env h).1 in
    let (free, held) = acquire_merchant_lock-Held serve value redis codecs s h id ttl token done in
    let n = total (taken (merchant_lock_key codecs.uuid_string id)) env h + 1 in
    let still = all_performed-Held serve value redis codecs s id token n ops mine held u in
    (free, still.same_value, still.same_count)
