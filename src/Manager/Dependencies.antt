-- ===== src/Manager/Dependencies.antt =====
-- `dependenciesReady`: whether every dependency of an application has a worker in the state that
-- its condition asks for.
use ooth.Prelude.{Bool, false, not, ◌||◌, ◌&&◌, none, some, any, all}
use ooth.Prelude.Texts.{Text, codes, text_eq}
use ooth.Prelude.Maps.{lookup}
use ooth.Schedule.Times.{unset}
use ooth.Config.App.{App, dependencies}
use ooth.Manager.State.{Process, Manager}

-- A worker that was launched and neither stops nor has exited.
unfoldable pub is_current : Process → Bool
is_current c = not c.pending && not c.exited && unset c.stopping

unfoldable pub serves : Text → Process → Bool
unfolding is_current
serves condition c = is_current c && (text_eq condition (codes "started") || c.ready)

unfoldable pub dependency_ready : Manager → Bool → Text × Text → Bool
unfolding serves
dependency_ready m readiness (name, condition) =
    (text_eq condition (codes "parallel") && not readiness) || elim (lookup name m.services) [
      | none ↦ false
      | some s ↦ any (λ p. serves condition (m.table.process p)) (m.service s).workers
    ]

unfoldable pub dependencies_ready : Manager → App → Bool → Bool
unfolding dependency_ready
dependencies_ready m app readiness = all (dependency_ready m readiness) (dependencies app)
