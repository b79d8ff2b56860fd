-- ===== src/Manager/Apply/Atomic.antt =====
-- A snapshot that `apply` refuses changes no service, listener or worker.
use ooth.Prelude.{
  ◌≡◌, refl, Bool, true, false, Option, some, none, List, [], Result, ok, err, if◌then◌else◌,
}
use mathlib.Core.Option.{none-ne-some}
use ooth.Prelude.Texts.{Text}
use ooth.Schedule.Times.{Time}
use ooth.Schedule.Plan.{Plan}
use ooth.Manager.State.{Manager}
use ooth.Manager.Lifecycle.{World}
use ooth.Manager.Apply.Stage.{Snapshot, ApplyError, cgroup_changed, Opened, roll_back}
use ooth.Manager.Apply.Commit.{finish, permit, apply_plans, apply}

-- Two states that differ in the used listener identifiers and the fatal flag at most.
pub record IsUntouched (m n : Manager) : Type 0 where
  pub table : n.table ≡ m.table
  pub hooks : n.hooks ≡ m.hooks
  pub cycle : n.cycle ≡ m.cycle
  pub service : n.service ≡ m.service
  pub services : n.services ≡ m.services
  pub listeners : n.listeners ≡ m.listeners
  pub limits : n.resource_limits ≡ m.resource_limits

untouched : (m : Manager) → IsUntouched m m
untouched m = record {
  table = refl;
  hooks = refl;
  cycle = refl;
  service = refl;
  services = refl;
  listeners = refl;
  limits = refl;
}

roll_back-IsUntouched :
    (world : World) (o : Opened) (done : List Text) (m : Manager)
    → IsUntouched m (roll_back world o done m)
unfolding roll_back
roll_back-IsUntouched world o done m = record {
  table = refl;
  hooks = refl;
  cycle = refl;
  service = refl;
  services = refl;
  listeners = refl;
  limits = refl;
}

-- A result that carries an error leaves the state untouched.
abbrev IsAtomic : Manager → Manager × Option ApplyError → Type 0
IsAtomic m r = (e : ApplyError) → r.1 ≡ some e → IsUntouched m r.0

module _ (world : World) (now : Time) (snapshot : Snapshot) where
  finish-IsAtomic :
      (plans : List (Text × Plan)) (o : Opened) (done : List Text) (m : Manager)
      (refused : Option ApplyError)
      → IsAtomic m (finish world now snapshot plans o done m refused)
  unfolding finish
  finish-IsAtomic plans o done m (some e) = λ e' h. roll_back-IsUntouched world o done m
  finish-IsAtomic plans o done m none = λ e' h. absurd (none-ne-some e' h)

  permit-IsAtomic :
      (plans : List (Text × Plan)) (o : Opened) (m : Manager) (failure : Option ApplyError)
      → IsAtomic m (permit world now snapshot plans o m failure)
  unfolding permit
  permit-IsAtomic plans o m (some e) = λ e' h. roll_back-IsUntouched world o [] m
  permit-IsAtomic plans o m none = finish-IsAtomic plans o _ m _

  apply_plans-IsAtomic :
      (plans : Result ApplyError (List (Text × Plan))) (m : Manager)
      → IsAtomic m (apply_plans world now snapshot plans m)
  unfolding apply_plans
  apply_plans-IsAtomic (err e) m = λ e' h. untouched m
  apply_plans-IsAtomic (ok plans) m = permit-IsAtomic plans _ m _

  IsAtomic-if :
      (m : Manager) (b : Bool) (x y : Manager × Option ApplyError)
      → IsAtomic m x
      → IsAtomic m y
      → IsAtomic m (if b then x else y)
  IsAtomic-if m true x y f g = f
  IsAtomic-if m false x y f g = g

  -- A snapshot that is refused leaves the workers, the hooks, the services, their listeners and
  -- the resource limits as they were.
  pub apply_refused :
      (m : Manager) (e : ApplyError)
      → (apply world now snapshot m).1 ≡ some e
      → IsUntouched m (apply world now snapshot m).0
  unfolding apply
  apply_refused m =
      IsAtomic-if m _ (m, some cgroup_changed) (apply_plans world now snapshot _ m)
        (λ e h. untouched m) (apply_plans-IsAtomic _ m)
