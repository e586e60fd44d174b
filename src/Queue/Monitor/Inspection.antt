-- ===== src/Queue/Monitor/Inspection.antt =====
-- What an inspection of the queues leaves: their statistics, and no connection.
use dante_api_systems.Base.{
  ℕ, ◌≡◌, ◌≢◌, refl, ◌∙◌, Bool-cases, inl, inr, List, [], ◌∷◌, none, some, String, str_eq, eq_iff,
  arith,
}
use dante_api_systems.Base.Dict.{Dict, lookup, insert, lookup-insert}
use dante_api_systems.Go.Exec.{answer, Result, ok, err, panic, Env, Reply-cases, Result-cases}
use dante_api_systems.Go.Trace.{total}
use dante_api_systems.Queue.Topology.{RabbitMqConfig, names_for_queue}
use dante_api_systems.Queue.Monitor.{
  QueueStats, Call, Response, dial, open_channel, declare_topology, queue_inspect, close_channel,
  close_connection, inspect_names, all_names, inspect_queues, primaries, inspect_configured_queues,
}

-- Every name has statistics.
abbrev pub AreKnown : Dict QueueStats → List String → Type 0
AreKnown stats [] = Unit
AreKnown stats (name ∷ names) = (lookup name stats ≢ none) × AreKnown stats names

abbrev pub Extends : Dict QueueStats → Dict QueueStats → Type 0
Extends old new = (name : String) → lookup name old ≢ none → lookup name new ≢ none

-- What an inspection that ended in `r` must have found.
abbrev pub Covers : List String → Dict QueueStats → Result (Dict QueueStats) → Type 0
Covers names old (ok new) = AreKnown new names × Extends old new
Covers names old (err e) = Unit
Covers names old panic = ⊥

insert-Extends :
    (stats : Dict QueueStats) (name : String) (q : QueueStats) → Extends stats (insert name q stats)
insert-Extends stats name q asked known =
    rw (lookup-insert stats q name asked)
      (elim (Bool-cases (str_eq name asked)) [ inl e ↦ rw e cc | inr e ↦ rw e known ])

lookup-insert_same :
    (stats : Dict QueueStats) (name : String) (q : QueueStats)
    → lookup name (insert name q stats) ≡ some q
lookup-insert_same stats name q = lookup-insert stats q name name ∙ ground (arith, eq_iff name name)

-- Connections and channels that were opened, and those that were closed.
abbrev pub connections : (c : Call) → Response c → ℕ
connections dial (answer u) = 1
connections _ _ = 0

abbrev pub disconnections : (c : Call) → Response c → ℕ
disconnections close_connection r = 1
disconnections _ _ = 0

abbrev pub channels : (c : Call) → Response c → ℕ
channels open_channel (answer u) = 1
channels _ _ = 0

abbrev pub closed_channels : (c : Call) → Response c → ℕ
closed_channels close_channel r = 1
closed_channels _ _ = 0

-- From one trace to a longer one: nothing was opened or closed.
pub record IsSteady (env : Env Response) (h t : List Call) : Type 0 where
  pub dialled : total connections env t ≡ total connections env h
  pub hung_up : total disconnections env t ≡ total disconnections env h
  pub opened : total channels env t ≡ total channels env h
  pub closed : total closed_channels env t ≡ total closed_channels env h

inspect_names-IsSteady :
    (names : List String) (stats : Dict QueueStats) (env : Env Response) (h : List Call)
    → IsSteady env h (inspect_names names stats env h).1
unfolding inspect_names
inspect_names-IsSteady [] stats env h = ground arith
inspect_names-IsSteady (name ∷ names) stats env h =
    elim (Reply-cases (env h (queue_inspect name))) [
      | inl (q, e) ↦
          let rest =
            inspect_names-IsSteady names (insert name q stats) env (queue_inspect name ∷ h) in
          rw e (ground (arith, rest))
      | inr (x, e) ↦ rw e (ground arith)
    ]

Covers-insert :
    (name : String) (names : List String) (stats : Dict QueueStats) (q : QueueStats)
    (r : Result (Dict QueueStats))
    → Covers names (insert name q stats) r
    → Covers (name ∷ names) stats r
Covers-insert name names stats q (ok new) (known, extends) = (
  (extends name (rw (lookup-insert_same stats name q) cc), known),
  λ asked there. extends asked (insert-Extends stats name q asked there),
)
Covers-insert name names stats q (err e) h = tt
Covers-insert name names stats q panic h = h

inspect_names-Covers :
    (names : List String) (stats : Dict QueueStats) (env : Env Response) (h : List Call)
    → Covers names stats (inspect_names names stats env h).0
unfolding inspect_names
inspect_names-Covers [] stats env h = (tt, λ name known. known)
inspect_names-Covers (name ∷ names) stats env h = elim (Reply-cases (env h (queue_inspect name))) [
  | inl (q, e) ↦ rw e (
      Covers-insert name names stats q _
        (inspect_names-Covers names (insert name q stats) env (queue_inspect name ∷ h)))
  | inr (x, e) ↦ rw e tt
]

AreKnown-Extends :
    (names : List String) (old new : Dict QueueStats)
    → Extends old new
    → AreKnown old names
    → AreKnown new names
AreKnown-Extends [] old new extends h = tt
AreKnown-Extends (name ∷ names) old new extends (h, hs) =
    (extends name h, AreKnown-Extends names old new extends hs)

-- The queues of each primary have statistics.
abbrev pub AreInspected : Dict QueueStats → List String → Type 0
AreInspected stats [] = Unit
AreInspected stats (primary ∷ rest) =
    AreKnown stats (all_names (names_for_queue primary)) × AreInspected stats rest

abbrev pub CoversAll : List String → Dict QueueStats → Result (Dict QueueStats) → Type 0
CoversAll names old (ok new) = AreInspected new names × Extends old new
CoversAll names old (err e) = Unit
CoversAll names old panic = ⊥

CoversAll-cons :
    (primary : String) (rest : List String) (old middle : Dict QueueStats)
    (r : Result (Dict QueueStats))
    → AreKnown middle (all_names (names_for_queue primary))
    → Extends old middle
    → CoversAll rest middle r
    → CoversAll (primary ∷ rest) old r
CoversAll-cons primary rest old middle (ok new) known first (inspected, later) = (
  (AreKnown-Extends (all_names (names_for_queue primary)) middle new later known, inspected),
  λ name there. later name (first name there),
)
CoversAll-cons primary rest old middle (err e) known first h = tt
CoversAll-cons primary rest old middle panic known first h = h

inspect_queues-CoversAll :
    (names : List String) (stats : Dict QueueStats) (env : Env Response) (h : List Call)
    → let (r, t) = inspect_queues names stats env h in CoversAll names stats r × IsSteady env h t
unfolding inspect_queues
inspect_queues-CoversAll [] stats env h = ((tt, λ name known. known), ground arith)
inspect_queues-CoversAll (primary ∷ rest) stats env h =
    let names = names_for_queue primary in
    let topology = declare_topology names in
    let steady = inspect_names-IsSteady (all_names names) stats env (topology ∷ h) in
    let covers = inspect_names-Covers (all_names names) stats env (topology ∷ h) in
    let t = (inspect_names (all_names names) stats env (topology ∷ h)).1 in
    elim (Reply-cases (env h topology)) [
      | inl (u, e) ↦
          elim (Result-cases (inspect_names (all_names names) stats env (topology ∷ h)).0) [
            | inl (known, f) ↦
                let (found, first) = rw f at covers in
                let (later, quiet) = inspect_queues-CoversAll rest known env t in
                rw (e, f)
                  (
                    CoversAll-cons primary rest stats known _ found first later,
                    ground (arith, steady, quiet),
                  )
            | inr (inl (x, f)) ↦ rw (e, f) (tt, ground (arith, steady))
            | inr (inr f) ↦ absurd (rw f at covers)
          ]
      | inr (x, e) ↦ rw e (tt, ground arith)
    ]

-- Whatever the broker answers, and wherever it fails: an inspection of the queues does not panic; it
-- closes each connection and each channel that it opened; and if it ends without an error, it has
-- statistics for the primary, the retry and the dead-letter queue of QRIS payments and of transfers.
pub inspect_configured_queues-Tidy :
    (cfg : RabbitMqConfig) (env : Env Response)
    → let (r, t) = inspect_configured_queues cfg env [] in
      CoversAll (primaries cfg) [] r
      × (total connections env t ≡ total disconnections env t)
      × (total channels env t ≡ total closed_channels env t)
unfolding inspect_configured_queues
inspect_configured_queues-Tidy cfg env =
    let (covers, steady) =
      inspect_queues-CoversAll (primaries cfg) [] env (open_channel ∷ dial ∷ []) in
    elim (Bool-cases (str_eq cfg.url "")) [
      | inl e ↦ rw e (tt, refl, refl)
      | inr e ↦ elim (Reply-cases (env [] dial)) [
        | inl (u, f) ↦ elim (Reply-cases (env (dial ∷ []) open_channel)) [
          | inl (v, g) ↦ rw (e, f, g) (covers, ground (arith, steady), ground (arith, steady))
          | inr (x, g) ↦ rw (e, f, g) (tt, ground arith, ground arith)
        ]
        | inr (x, f) ↦ rw (e, f) (tt, ground arith, ground arith)
      ]
    ]
