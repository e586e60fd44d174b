-- ===== src/Cache/Client/Server.antt =====
-- A Redis server as the environment of the client: its state is the one after the calls so far.
use dante_api_systems.Base.{◌≡◌, ◌⊎◌, List, [], ◌∷◌, true, false, Option, none, some, String}
use dante_api_systems.Base.Int.{ℤ}
use dante_api_systems.Go.Errors.{sentinel, is, redis_nil}
use dante_api_systems.Go.Exec.{Reply, answer, error, Env}
use dante_api_systems.Cache.Client.{
  Call, Response, redis_get, redis_set, redis_del, redis_set_nx, redis_eval_release, release_script,
}

module _ {S : Type 0} (serve : (c : Call) → S → Response c × S) where
  -- The state after calls, the newest of which is first.
  abbrev pub after : S → List Call → S
  after s [] = s
  after s (c ∷ h) = (serve c (after s h)).1

  abbrev pub served : S → Env Response
  served s h c = (serve c (after s h)).0

-- The keys that a command may write.
abbrev pub Writes : Call → String → Type 0
Writes (redis_set key value ttl) k = key ≡ k
Writes (redis_del key) k = key ≡ k
Writes (redis_set_nx key value ttl) k = key ≡ k
Writes (redis_eval_release key token) k = key ≡ k
Writes _ k = ⊥

-- What a get answers for a value.
abbrev pub gotten : Option String → Reply String
gotten (some value) = answer value
gotten none = error (sentinel redis_nil)

-- A failure of a command that has not to do with a missing key.
abbrev pub IsFailure : {A : Type 0} → Reply A → Type 0
IsFailure (answer a) = ⊥
IsFailure (error e) = is e redis_nil ≡ false

-- What Redis documents of the commands that the client uses, while no lifetime ends: a command
-- writes its own key alone; a get answers the value; an answered set has set it, and an answered
-- delete has deleted it; a set-if-missing answers true and sets the value exactly if there was none;
-- and a script is run as a whole or, if it fails, may have been. The client's own failures are those
-- of the network.
pub record IsRedis {S : Type 0} (serve : (c : Call) → S → Response c × S)
    (value : String → S → Option String) : Type 0 where
  pub others :
      (c : Call) (k : String) (s : S) → (Writes c k → ⊥) → value k (serve c s).1 ≡ value k s
  pub get_answers :
      (k : String) (s : S)
      → ((serve (redis_get k) s).0 ≡ gotten (value k s)) ⊎ IsFailure (serve (redis_get k) s).0
  pub set_sets :
      (k v : String) (ttl : ℤ) (s : S)
      → (serve (redis_set k v ttl) s).0 ≡ answer tt
      → value k (serve (redis_set k v ttl) s).1 ≡ some v
  pub del_deletes :
      (k : String) (s : S)
      → (serve (redis_del k) s).0 ≡ answer tt
      → value k (serve (redis_del k) s).1 ≡ none
  pub set_nx_sets :
      (k v : String) (ttl : ℤ) (s : S)
      → (serve (redis_set_nx k v ttl) s).0 ≡ answer true
      → (value k s ≡ none) × (value k (serve (redis_set_nx k v ttl) s).1 ≡ some v)
  pub set_nx_keeps :
      (k v w : String) (ttl : ℤ) (s : S)
      → value k s ≡ some w
      → value k (serve (redis_set_nx k v ttl) s).1 ≡ some w
  pub script_runs :
      (k token : String) (s : S)
      → (serve (redis_eval_release k token) s).0 ≡ answer tt
      → value k (serve (redis_eval_release k token) s).1 ≡ release_script token (value k s)
  pub script_fails :
      (k token : String) (s : S)
      → (value k (serve (redis_eval_release k token) s).1 ≡ release_script token (value k s))
        ⊎ (value k (serve (redis_eval_release k token) s).1 ≡ value k s)
