-- ===== src/Observability/Counters.antt =====
-- internal/observability/cachemetrics/cachemetrics.go: the counters of the caches. Each counter is a
-- uint64, and adding to it wraps.
use dante_api_systems.Base.{
  ℕ, ◌+◌, ◌%◌, Bool, true, false, List, [], ◌∷◌, map, Option, none, some, String,
}
use dante_api_systems.Base.Dict.{Dict, lookup, insert}
use dante_api_systems.Database.Order.{order_by}
use Prim.Native.String.{compare}
use Prim.Native.Nat.{Ordering}

pub record SnapshotEntry : Type 0 where
  pub name : String
  pub value : ℕ

-- In the code, a map of pointers to counters.
abbrev pub InMemoryRecorder : Type 0
InMemoryRecorder = Dict ℕ

abbrev known_names : List String
known_names =
    "merchant_cache_hits_total" ∷ "merchant_cache_misses_total"
    ∷ "merchant_negative_cache_hits_total" ∷ "merchant_lock_acquired_total"
    ∷ "merchant_lock_contention_total" ∷ "transaction_status_cache_hits_total"
    ∷ "transaction_status_cache_misses_total" ∷ []

abbrev registered : List String → InMemoryRecorder → InMemoryRecorder
registered [] r = r
registered (name ∷ names) r = registered names (insert name 0 r)

unfoldable pub new_in_memory_recorder : InMemoryRecorder
new_in_memory_recorder = registered known_names []

-- `counter`: the counter of a name, made if it is missing.
abbrev value_of : Option ℕ → ℕ
value_of none = 0
value_of (some value) = value

unfoldable pub inc : String → InMemoryRecorder → InMemoryRecorder
inc name r = insert name ((value_of (lookup name r) + 1) % 18446744073709551616) r

abbrev text_before : String → String → Bool
text_before a b = elim (compare a b) [ Ordering.lt ↦ true | _ ↦ false ]

abbrev names_of : InMemoryRecorder → List String
names_of [] = []
names_of ((name, value) ∷ r) = name ∷ names_of r

unfoldable pub snapshot : InMemoryRecorder → List SnapshotEntry
snapshot r =
    map (λ name. record { name = name; value = value_of (lookup name r) })
      (order_by text_before (names_of r))
