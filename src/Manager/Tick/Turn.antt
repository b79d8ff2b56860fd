-- ===== src/Manager/Tick/Turn.antt =====
-- `tick` as a whole.
use ooth.Prelude.{ℕ, Bool, List, [], ◌∷◌, if◌then◌else◌}
use ooth.Prelude.Texts.{Text}
use ooth.Schedule.Times.{Time}
use ooth.Resources.{blocked}
use ooth.Manager.State.{Manager}
use ooth.Manager.Lifecycle.{World}
use ooth.Manager.Messages.{each}
use ooth.Manager.Tick.Supervise.{rearm_listeners, supervise}
use ooth.Manager.Tick.Demand.{Demand, demands}
use ooth.Manager.Tick.Pool.{govern}
use ooth.Manager.Tick.Shutdown.{drain}

unfoldable pub govern_all : World → Demand → Time → List (Text × ℕ) → Manager → Manager
govern_all world d now [] m = m
govern_all world d now (entry ∷ rest) m = govern_all world d now rest (govern world d now entry m)

abbrev pub no_demand : Demand
no_demand = record { wanted = []; required = [] }

unfoldable pub serve : World → Time → Manager → Manager
serve world now m =
    let judged = record m { resource_block = blocked m.resource_limits m.resources now } in
    let (m', d) = demands world now judged.services (judged, no_demand) in
    govern_all world d now m'.services m'

unfoldable pub tick : World → Time → Bool → Manager → Manager
tick world now stopping m =
    let watched = if stopping then m else rearm_listeners world now m.listeners m in
    let m' = each watched.table.workers (supervise world now) watched in
    if stopping then drain world now m' else serve world now m'
