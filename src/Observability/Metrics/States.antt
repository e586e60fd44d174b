-- ===== src/Observability/Metrics/States.antt =====
-- The counts of the transactions by state, which the metrics show.
use dante_api_systems.Base.{ℕ, ◌+◌, ◌≡◌, true, List, [], ◌∷◌, length, String, str_eq, if◌then◌else◌}
use dante_api_systems.Models.{Transaction}
use dante_api_systems.Database.Rows.{filter}
use dante_api_systems.Database.Transactions.{exists, in_status}

abbrev pub sum_by {ℓ} : {A : Type ℓ} → (A → ℕ) → List A → ℕ
sum_by f [] = 0
sum_by f (x ∷ xs) = f x + sum_by f xs

abbrev occurs : String → String → ℕ
occurs text other = if str_eq text other then 1 else 0

abbrev count_in : List Transaction → String → ℕ
count_in rows status = length (filter (in_status status) rows)

abbrev Reads : List String → Transaction → Type 0
Reads texts row = exists (str_eq row.status) texts ≡ true
