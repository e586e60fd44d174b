-- ===== src/Observability/Metrics/Registration.antt =====
-- The names of the registered metrics. Registering a name twice is a panic of the client.
use dante_api_systems.Base.{
  ◌≡◌, refl, true, false, Bool, List, [], ◌∷◌, ◌&&◌, not, arith, String, str_eq, if◌then◌else◌,
}
use dante_api_systems.Queue.Topology.{RabbitMqConfig}
use dante_api_systems.Database.Transactions.{exists}
use dante_api_systems.Observability.Metrics.{Opts, Collector, metric, registered, new_handler}
use Prim.Native.String.{◌++◌}

-- The parts of a name that are not empty, joined by `_`, as the client documents it.
abbrev with_prefix : String → String → String
with_prefix prefix name = if str_eq prefix "" then name else prefix ++ ("_" ++ name)

abbrev full_name : Opts → String
full_name opts = with_prefix opts.namespace (with_prefix opts.subsystem opts.name)

abbrev pub names : List Collector → List String
names [] = []
names (metric opts ∷ cs) = full_name opts ∷ names cs
names (c ∷ cs) = names cs

abbrev pub all_differ : List String → Bool
all_differ [] = true
all_differ (name ∷ rest) = not (exists (str_eq name) rest) && all_differ rest

abbrev every : (Bool → Bool) → Bool
every p = p true && p false

every_sound : (p : Bool → Bool) (b : Bool) → every p ≡ true → p b ≡ true
every_sound p true h = ground arith
every_sound p false h = ground arith

abbrev fits : Bool → Bool → Bool → Bool → Bool
fits c d r b = all_differ (names (registered c d r b))

all_fit : every (λ c. every (λ d. every (λ r. every (λ b. fits c d r b)))) ≡ true
all_fit = refl

-- Whatever parts of the service are there, the handler registers no two metrics of one name.
pub new_handler-names :
    (has_cache has_db has_redis : Bool) (rabbitmq : RabbitMqConfig)
    → all_differ (names (new_handler has_cache has_db has_redis rabbitmq)) ≡ true
unfolding new_handler
new_handler-names c d r rabbitmq = every_sound (fits c d r) _ (
    every_sound (λ r'. every (fits c d r')) r
      (every_sound (λ d'. every (λ r'. every (fits c d' r'))) d
        (every_sound (λ c'. every (λ d'. every (λ r'. every (fits c' d' r')))) c all_fit)))
