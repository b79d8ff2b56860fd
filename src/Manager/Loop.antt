-- ===== src/Manager/Loop.antt =====
-- The event loop of `run`, and `shutdown`: one round takes one event.
pub mod Reach
use ooth.Prelude.{
  ℕ, ◌+◌, Bool, true, false, not, ◌||◌, ◌&&◌, Option, none, some, List, [], ◌∷◌, if◌then◌else◌,
  is_empty, leb, ◌==◌, is_some,
}
use ooth.Prelude.Texts.{Text}
use ooth.Prelude.Maps.{lookup}
use ooth.Schedule.Times.{Time, second}
use ooth.Config.App.{App}
use ooth.Resources.{ResourceSample}
use ooth.Manager.State.{Service, Manager, with_service}
use ooth.Manager.Lifecycle.{World}
use ooth.Manager.Messages.{Message, handle}
use ooth.Manager.Tick.Turn.{tick}
use ooth.Manager.Apply.Stage.{Snapshot, ApplyError, same_app}
use ooth.Manager.Apply.Commit.{close_of, apply, restart}

-- The local variables of `run`.
pub record Loop : Type 0 where
  pub manager : Manager
  pub stopping : Bool
  pub pending : Option Snapshot
  pub retry_config : Time

-- The cases of the `select`.
pub data Input : Type 0 where
  sampled : ResourceSample → Input
  cancelled : Input
  watch_ended : Input
  updated : Option Snapshot → List (Text × App) → Input
  received : Message → Input
  ticked : Input

abbrev deaf : Service → Service
deaf r = record r { listener = none }

unfoldable pub close_listeners : List (Text × ℕ) → Manager → Manager
close_listeners [] m = m
close_listeners ((name, s) ∷ rest) m =
    close_listeners rest (with_service s deaf (close_of (m.service s).listener m))

unfoldable pub shutdown : World → Time → Manager → Manager
shutdown world now m = tick world now true (close_listeners m.services m)

abbrev pub begin_shutdown : World → Time → Loop → Loop
begin_shutdown world now l = record l { manager = shutdown world now l.manager; stopping = true }

-- The head of a round: a fatal error stops the supervisor.
unfoldable pub check_fatal : World → Time → Loop → Loop
check_fatal world now l =
    if l.manager.fatal && not l.stopping then begin_shutdown world now l else l

-- Where the loop returns.
unfoldable pub is_over : Loop → Bool
is_over l = l.stopping && is_empty l.manager.table.workers && l.manager.hooks.tasks == 0

-- A snapshot that is refused is tried again after a second.
abbrev pub keep_pending : Time → Snapshot → Loop → Manager × Option ApplyError → Loop
keep_pending now snapshot l (m, none) = record l { manager = m; pending = none }
keep_pending now snapshot l (m, some e) = record l {
  manager = m;
  pending = some snapshot;
  retry_config = now + second;
}

unfoldable pub take_snapshot : World → Time → Option Snapshot → Loop → Loop
take_snapshot world now none l = l
take_snapshot world now (some snapshot) l =
    keep_pending now snapshot l (apply world now snapshot l.manager)

-- A file event restarts a service whose configuration is still the one that it was read for.
unfoldable pub restart_current : World → Time → App → Option ℕ → Manager → Manager
restart_current world now config none m = m
restart_current world now config (some s) m =
    if same_app (m.service s).config config then restart world s now m else m

unfoldable pub restart_all : World → Time → List (Text × App) → Manager → Manager
restart_all world now [] m = m
restart_all world now ((name, config) ∷ rest) m =
    restart_all world now rest (restart_current world now config (lookup name m.services) m)

unfoldable pub take_update : World → Time → Option Snapshot → List (Text × App) → Loop → Loop
take_update world now snapshot restarts l =
    let l' = take_snapshot world now snapshot l in
    record l' { manager = restart_all world now restarts l'.manager }

-- The retry of a refused snapshot; the next one is a second away, whatever comes of it.
abbrev pub after_retry : Time → Loop → Manager × Option ApplyError → Loop
after_retry now l (m, none) = record l { manager = m; pending = none; retry_config = now + second }
after_retry now l (m, some e) = record l { manager = m; retry_config = now + second }

unfoldable pub retry_pending : World → Time → Option Snapshot → Loop → Loop
retry_pending world now none l = l
retry_pending world now (some snapshot) l =
    if not l.stopping && leb l.retry_config now
    then after_retry now l (apply world now snapshot l.manager)
    else l

unfoldable pub take_tick : World → Time → Loop → Loop
take_tick world now l =
    let l' = retry_pending world now l.pending l in
    record l' { manager = tick world now l'.stopping l'.manager }

unfoldable pub react : World → Time → Input → Loop → Loop
react world now (sampled sample) l = record l { manager = record l.manager { resources = sample } }
react world now cancelled l = begin_shutdown world now l
react world now watch_ended l = if l.stopping then l else begin_shutdown world now l
react world now (updated snapshot restarts) l =
    if l.stopping then l else take_update world now snapshot restarts l
react world now (received message) l = record l { manager = handle world message now l.manager }
react world now ticked l = take_tick world now l

-- One round, if the loop has not returned at its head.
unfoldable pub round : World → Time → Input → Loop → Loop
round world now input l = react world now input (check_fatal world now l)
