-- ===== src/Cache/Client/Tests.antt =====
-- Concrete instances for the cache client: a server that never fails, with its values as a function.
use dante_api_systems.Base.{
  ◌+◌, ◌≡◌, refl, List, [], ◌∷◌, Bool, true, false, ◌&&◌, Option, none, some, String, str_eq,
  eq_iff, ◌==◌, inl, arith, if◌then◌else◌,
}
use dante_api_systems.Base.Int.{pos}
use dante_api_systems.Go.Errors.{failure}
use dante_api_systems.Go.Exec.{Reply, answer, error, ok}
use dante_api_systems.Go.Trace.{total}
use dante_api_systems.Models.{Merchant}
use dante_api_systems.Views.{SessionEntry}
use dante_api_systems.Cache.Policy.{merchant_lock_key}
use dante_api_systems.Cache.Client.{
  Call, Response, Codec, Codecs, MerchantCacheEntry, redis_get, redis_set, redis_del, redis_set_nx,
  redis_eval_release, new_token, acquire_merchant_lock, release_script, get_session, set_session,
}
use dante_api_systems.Cache.Client.Server.{after, served, gotten, Writes, IsRedis}
use dante_api_systems.Cache.Client.Entries.{ReadsBack, EntriesReadBack, entries_read_back}
use dante_api_systems.Cache.Client.Operations.{
  Operation, acquire, release, remove_merchant, all_performed, taken,
}
use dante_api_systems.Cache.Client.Lock.{lock_exclusive}

abbrev Values : Type 0
Values = String → Option String

abbrev with_value : String → Option String → Values → Values
with_value key v s k = if str_eq key k then v else s k

abbrev missing_set : String → String → Option String → Values → Reply Bool × Values
missing_set key v none s = (answer true, with_value key (some v) s)
missing_set key v (some w) s = (answer false, s)

abbrev serve : (c : Call) → Values → Response c × Values
serve (redis_get key) s = (gotten (s key), s)
serve (redis_set key v ttl) s = (answer tt, with_value key (some v) s)
serve (redis_del key) s = (answer tt, with_value key none s)
serve (redis_set_nx key v ttl) s = missing_set key v (s key) s
serve (redis_eval_release key token) s =
    (answer tt, with_value key (release_script token (s key)) s)
serve new_token s = ("t1", s)

abbrev value : String → Values → Option String
value key s = s key

set_nx_other :
    (key v k : String) (old : Option String) (s : Values)
    → (key ≡ k → ⊥)
    → (missing_set key v old s).1 k ≡ s k
set_nx_other key v k none s away = ground (arith, eq_iff key k, away)
set_nx_other key v k (some w) s away = refl

serve_others : (c : Call) (k : String) (s : Values) → (Writes c k → ⊥) → (serve c s).1 k ≡ s k
serve_others (redis_get key) k s away = refl
serve_others (redis_set key v ttl) k s away = ground (arith, eq_iff key k, away)
serve_others (redis_del key) k s away = ground (arith, eq_iff key k, away)
serve_others (redis_set_nx key v ttl) k s away = set_nx_other key v k (s key) s away
serve_others (redis_eval_release key token) k s away = ground (arith, eq_iff key k, away)
serve_others new_token k s away = refl

serve-IsRedis : IsRedis serve value
serve-IsRedis = record {
  others = serve_others;
  get_answers = λ k s. inl refl;
  set_sets = λ k v ttl s done. ground (arith, eq_iff k k);
  del_deletes = λ k s done. ground (arith, eq_iff k k);
  set_nx_sets = λ k v ttl s done. ground (arith, eq_iff k k, done);
  set_nx_keeps = λ k v w ttl s there. ground (arith, there);
  script_runs = λ k token s done. ground (arith, eq_iff k k);
  script_fails = λ k token s. inl (ground (arith, eq_iff k k));
}

-- Only the absence of a merchant and the sessions of one customer can be encoded here.
abbrev refusing : {A : Type 0} → Codec A
refusing = record {
  marshal = λ a. error (failure "marshal");
  unmarshal = λ p. error (failure "unmarshal");
}

abbrev absence : MerchantCacheEntry
absence = record { not_found = true; merchant = none }

abbrev absent : Option Merchant → Bool
absent none = true
absent (some merchant) = false

abbrev session_with : String → SessionEntry
session_with token = record {
  token = token;
  customer_id = "C1";
  local_account_id = "2";
  legacy_account_id = "A1";
  account_number = "100200";
  customer_name = "Ani";
  legacy_session_id = "S1";
  legacy_session_expiry = 90;
  created_at = 12;
}

abbrev is_customer : SessionEntry → Bool
is_customer e =
    str_eq e.customer_id "C1"
    && str_eq e.local_account_id "2"
    && str_eq e.legacy_account_id "A1"
    && str_eq e.account_number "100200"
    && str_eq e.customer_name "Ani"
    && str_eq e.legacy_session_id "S1"
    && e.legacy_session_expiry == 90
    && e.created_at == 12

abbrev codecs : Codecs
codecs = record {
  uuid_string = λ id. "5";
  uuid_parse = λ s. answer 5;
  merchant_entry = record {
    marshal =
        λ e. if e.not_found && absent e.merchant then answer "-" else error (failure "marshal");
    unmarshal = λ p. answer absence;
  };
  status_entry = refusing;
  balance_entry = refusing;
  session_entry = record {
    marshal = λ e. if is_customer e then answer e.token else error (failure "marshal");
    unmarshal = λ p. answer (session_with p);
  };
}

codecs-ReadsBack : ReadsBack codecs
codecs-ReadsBack = record {
  merchant_back = λ e p made. ground (arith, made);
  status_back = λ e p made. ground (arith, made);
  balance_back = λ e p made. ground (arith, made);
  session_back = λ e p made. ground (
    arith,
    made,
    eq_iff e.customer_id "C1",
    eq_iff e.local_account_id "2",
    eq_iff e.legacy_account_id "A1",
    eq_iff e.account_number "100200",
    eq_iff e.customer_name "Ani",
    eq_iff e.legacy_session_id "S1",
  );
}

abbrev empty : Values
empty key = none

session_kept :
    (get_session codecs "dante_ab"
      (served serve empty)
      (set_session codecs (session_with "dante_ab") (pos 60) (served serve empty) []).1).0
    ≡ ok (session_with "dante_ab")
unfolding get_session set_session
session_kept = refl

entries_read_back_example : EntriesReadBack codecs (served serve empty) []
entries_read_back_example =
    entries_read_back serve value codecs empty [] serve-IsRedis codecs-ReadsBack

-- Another client removes the entry, tries to acquire the lock and releases it with its own token.
abbrev others : List Operation
others = remove_merchant 5 ∷ acquire 5 (pos 3) ∷ release 5 "t2" ∷ []

lock_exclusive_example :
    let env = served serve empty in
    let lock = merchant_lock_key codecs.uuid_string 5 in
    let mine = (acquire_merchant_lock codecs 5 (pos 3) env []).1 in
    let t = all_performed codecs env others mine in
    (value lock (after serve empty []) ≡ none)
    × (value lock (after serve empty t) ≡ some "t1")
    × (total (taken lock) env t ≡ total (taken lock) env [] + 1)
unfolding acquire_merchant_lock
lock_exclusive_example =
    lock_exclusive serve value codecs empty [] 5 (pos 3) "t1" others serve-IsRedis refl
      ((λ e. ground (arith, eq_iff "t2" "t1", e)), tt)
