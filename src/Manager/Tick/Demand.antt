-- ===== src/Manager/Tick/Demand.antt =====
-- `scheduleDue` and the activation of `tick`: which services are wanted, and which are required.
use ooth.Prelude.{
  ℕ, zero, suc, ◌+◌, ◌-◌, ◌%◌, Bool, true, not, ◌||◌, ◌&&◌, none, some, List, [], ◌∷◌, ltb,
  if◌then◌else◌, is_empty, keep_if, length, is_some,
}
use ooth.Prelude.Signed.{ℤ, pos, ltb_ℤ, leb_ℤ}
use ooth.Prelude.Texts.{Text, text_eq, contains}
use ooth.Prelude.Maps.{lookup}
use ooth.Schedule.Times.{Time, unset}
use ooth.Schedule.Plan.{next, matches}
use ooth.Config.App.{App, dependencies}
use ooth.Manager.State.{Service, Manager, with_service}
use ooth.Manager.Lifecycle.{World}

-- The workers of every service of this name, old ones included.
unfoldable pub executions : Text → Manager → ℕ
executions name m =
    length
      (keep_if (λ p. text_eq (m.service (m.table.process p).service).name name) m.table.workers)

-- `limit := 1; if overlap { limit = max_workers }`
abbrev pub execution_limit : App → ℤ
execution_limit app = if app.overlap then app.max_workers else pos 1

-- The next time on the original cadence: missed times are not replayed.
unfoldable pub next_cadence : ℕ → Time → Time → Time
next_cadence interval due now = now + (interval - (now - due) % interval)

unfoldable pub reserve_execution : ℕ → Manager → Manager
reserve_execution s m =
    let r = m.service s in
    if r.scheduled || leb_ℤ (execution_limit r.config) (pos (executions r.name m))
    then m
    else with_service s (λ r. record r { scheduled = true }) m

-- The schedule's next time, and whether this one is an occurrence.
unfoldable pub advance_schedule : World → Time → Service → Time × Bool
unfolding next_cadence
advance_schedule world now r =
    if ltb 0 r.schedule.interval
    then (next_cadence r.schedule.interval r.next_run now, true)
    else (next r.schedule now, matches r.schedule (world.calendar now))

unfoldable pub schedule_due : World → ℕ → Time → Manager → Manager
schedule_due world s now m =
    let r = m.service s in
    if unset r.next_run || ltb now r.next_run
    then m
    else let (later, occurs) = advance_schedule world now r in
      let m' = with_service s (λ r. record r { next_run = later }) m in
      if occurs then reserve_execution s m' else m'

-- The sets `wanted` and `required` of a tick.
pub record Demand : Type 0 where
  pub wanted : List Text
  pub required : List Text

-- The loop of `activate` over the dependencies of a service.
unfoldable pub require_all : (Text → Demand → Demand) → List (Text × Text) → Demand → Demand
require_all go [] d = d
require_all go ((name, condition) ∷ rest) d =
    require_all go rest (go name (record d { required = name ∷ d.required }))

-- `activate`, on fuel: every nested call has one more name in `wanted`.
unfoldable pub activate : Manager → ℕ → Text → Demand → Demand
activate m zero name d = d
activate m (suc fuel) name d =
    let found = lookup name m.services in
    let within = λ (s : ℕ).
      require_all (activate m fuel) (dependencies (m.service s).config)
        (record d { wanted = name ∷ d.wanted }) in
    if contains d.wanted name then d else elim found [ none ↦ d | some s ↦ within s ]

unfoldable pub starts_demand : Service → Bool
starts_demand r =
    if not (is_empty r.config.schedule)
    then r.scheduled || not (is_empty r.workers)
    else r.config.startup
      || ltb_ℤ (pos 0) r.config.min_workers
      || r.demand
      || (is_some r.listener && not (is_empty r.workers))

-- One service of the loop that fills `wanted`.
unfoldable pub demand_of : World → Time → Text × ℕ → Manager × Demand → Manager × Demand
demand_of world now (name, s) (m, d) =
    let m' = if is_empty (m.service s).config.schedule then m else schedule_due world s now m in
    (m', if starts_demand (m'.service s) then activate m' (suc (length m'.services)) name d else d)

unfoldable pub demands : World → Time → List (Text × ℕ) → Manager × Demand → Manager × Demand
demands world now [] state = state
demands world now (entry ∷ rest) state = demands world now rest (demand_of world now entry state)
