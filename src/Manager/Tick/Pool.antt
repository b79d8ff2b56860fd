-- ===== src/Manager/Tick/Pool.antt =====
-- The last loop of `tick`: starting, growing and shrinking the pool of each service.
use ooth.Prelude.{
  ℕ, suc, ◌-◌, Bool, true, false, not, ◌||◌, ◌&&◌, Option, none, some, List, [], ◌∷◌, leb, ltb,
  ◌==◌, if◌then◌else◌, is_empty, keep_if, length, is_some,
}
use ooth.Prelude.Signed.{ℤ, pos, ltb_ℤ, leb_ℤ}
use ooth.Prelude.Texts.{Text, contains}
use ooth.Schedule.Times.{Time, unset, reached}
use ooth.Manager.State.{Process, Service, Manager, with_service}
use ooth.Manager.Pressure.{evaluate, backoff}
use ooth.Manager.Dependencies.{dependencies_ready}
use ooth.Manager.Lifecycle.{World, lifecycle, stop, observe_service}
use ooth.Manager.Messages.{stop_failed, each}
use ooth.Manager.Launch.{start_process, before_start, spawn}
use ooth.Manager.Tick.Demand.{Demand}

unfoldable pub suspend : World → ℕ → Time → Manager → Manager
suspend world s now m =
    let r = m.service s in
    let wanted =
      if not (is_empty r.workers) && is_empty r.config.schedule
      then with_service s (λ r. record r { demand = true }) m
      else m in
    each r.workers (λ p. stop world p now) wanted

-- A reservation whose hooks have passed is started; a start that fails stops it.
unfoldable pub started : World → ℕ → Time → Manager → Option Manager → Manager
started world p now m none = stop_failed world p now m
started world p now m (some n) = lifecycle world p now n

unfoldable pub start_pending : World → Time → ℕ → Manager → Manager
start_pending world now p m =
    let c = m.table.process p in
    if not c.pending || not (unset c.stopping) || c.exited
    then m
    else let (m', allowed) = before_start p now m in
      if allowed then started world p now m' (start_process world p now m') else m'

unfoldable pub run_scheduled : World → ℕ → Time → Manager → Manager
run_scheduled world s now m =
    if (m.service s).scheduled
    then (spawn world s now (with_service s (λ r. record r { scheduled = false }) m)).0
    else m

-- A worker that counts towards the size of its pool.
abbrev pub counts : Process → Bool
counts c = unset c.stopping && not c.exited

unfoldable pub available : ℕ → Manager → ℕ
available s m = length (keep_if (λ p. counts (m.table.process p)) (m.service s).workers)

unfoldable pub starting : ℕ → Manager → ℕ
starting s m = length (
    keep_if (λ p. counts (m.table.process p) && not (m.table.process p).ready)
      (m.service s).workers)

-- `grow`, with the conditions of the `if` that acts on it.
unfoldable pub grows : Service → Bool → Bool → ℕ → ℕ → Time → Bool
grows r is_required pressure_growth have unready now =
    let below = ltb_ℤ (pos have) r.config.min_workers in
    let idle_pool = have == 0 && (r.demand || r.config.startup || is_required) in
    (below || idle_pool || pressure_growth)
    && (unready == 0 || below)
    && ltb_ℤ (pos have) r.config.max_workers
    && leb r.retry_at now

abbrev pub after_spawn : ℕ → Time → Manager × Bool → Manager
after_spawn s now (m, true) = m
after_spawn s now (m, false) = with_service s (backoff now) m

unfoldable pub grow : World → ℕ → Bool → Bool → Time → Manager → Manager
grow world s is_required pressure_growth now m =
    if grows (m.service s) is_required pressure_growth (available s m) (starting s m) now
    then observe_service world s now (after_spawn s now (spawn world s now m))
    else m

-- `service.pressure.evaluate`, and whether the resource gate lets its growth through.
unfoldable pub judge_pressure : World → ℕ → Time → Manager → Manager × Bool
judge_pressure world s now m =
    let observed = observe_service world s now m in
    let r = observed.service s in
    let (window, high) =
      evaluate world.floats now r.config.scale_window r.config.scale_at r.pressure in
    (
      with_service s (λ r. record r { pressure = window }) observed,
      not (is_some m.resource_block) && high,
    )

-- What the loop notes after growth: `have` is the count from before it.
unfoldable pub settle : ℕ → ℕ → Bool → Time → Manager → Manager
settle s have is_wanted now m =
    with_service s
      (λ r. record r {
        demand = r.demand && not (ltb 0 have);
        unneeded_since =
            if is_wanted then 0 else if unset r.unneeded_since then now else r.unneeded_since;
      })
      m

abbrev pub at_least_one : ℤ → ℤ
at_least_one (pos (suc n)) = pos (suc n)
at_least_one _ = pos 1

unfoldable pub is_idle : Service → Bool → ℕ → Time → Process → Bool
is_idle r is_wanted have now c =
    let quiet =
      if is_empty r.config.listen.network && not c.telemetry
      then not is_wanted && reached now r.unneeded_since r.config.idle_timeout
      else c.telemetry && is_empty c.active && reached now c.idle_since r.config.idle_timeout in
    quiet && not (r.config.startup && leb have 1)

unfoldable pub shrink : World → ℕ → ℤ → Bool → Time → List ℕ → ℕ → Manager → Manager
shrink world s minimum is_wanted now [] have m = m
shrink world s minimum is_wanted now (p ∷ ps) have m =
    let c = m.table.process p in
    let stops = unset c.stopping && c.ready && is_idle (m.service s) is_wanted have now c in
    let rest =
      shrink world s minimum is_wanted now ps (if stops then have - 1 else have)
        (if stops then stop world p now m else m) in
    if leb_ℤ (pos have) minimum then m else rest

-- The pool of an ordinary service.
unfoldable pub resize : World → Demand → Text → ℕ → Time → Manager → Manager
resize world d name s now m =
    let is_required = contains d.required name in
    let is_wanted = contains d.wanted name in
    let (m1, pressure_growth) = judge_pressure world s now m in
    let have = available s m1 in
    let m2 = settle s have is_wanted now (grow world s is_required pressure_growth now m1) in
    let r = m2.service s in
    shrink world s (if is_required then at_least_one r.config.min_workers else r.config.min_workers)
      is_wanted now r.workers have m2

-- A service whose dependencies are there: its reservations, then its schedule or its pool.
unfoldable pub tend : World → Demand → Text → ℕ → Time → Manager → Manager
tend world d name s now m =
    let m' = each (m.service s).workers (start_pending world now) m in
    if not (is_empty (m.service s).config.schedule)
    then run_scheduled world s now m'
    else resize world d name s now m'

-- One service of the loop.
unfoldable pub govern : World → Demand → Time → Text × ℕ → Manager → Manager
govern world d now (name, s) m =
    if not (dependencies_ready m (m.service s).config false)
    then suspend world s now m
    else tend world d name s now m
