-- ===== src/Manager/Tick/Shutdown.antt =====
-- The stopping half of `tick`: workers stop once nothing that is left depends on them.
use ooth.Prelude.{ℕ, Bool, any, if◌then◌else◌, is_some}
use ooth.Prelude.Maps.{lookup}
use ooth.Schedule.Times.{Time}
use ooth.Config.App.{dependencies}
use ooth.Manager.State.{Manager}
use ooth.Manager.Lifecycle.{World, stop}
use ooth.Manager.Messages.{each}

-- Some worker's configuration depends on the service of this one.
unfoldable pub is_required : Manager → ℕ → Bool
is_required m p =
    any
      (λ q. is_some (
        lookup (m.service (m.table.process p).service).name
          (dependencies (m.table.process q).config)))
      m.table.workers

unfoldable pub stop_unrequired : World → Time → ℕ → Manager → Manager
stop_unrequired world now p m = if is_required m p then m else stop world p now m

unfoldable pub drain : World → Time → Manager → Manager
drain world now m = each m.table.workers (stop_unrequired world now) m
