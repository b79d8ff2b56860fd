-- ===== src/Manager/Apply/Progress.antt =====
-- `apply` and `restart` advance the process table.
use ooth.Prelude.{
  ℕ, ◌<◌, ◌≡◌, refl, sym, Bool, true, false, Option, some, none, List, [], ◌∷◌, Result, ok, err,
  arith, if◌then◌else◌,
}
use ooth.Prelude.Texts.{Text}
use ooth.Prelude.Maps.{lookup}
use ooth.Schedule.Times.{Time}
use ooth.Schedule.Plan.{Plan}
use ooth.Config.App.{App}
use ooth.Manager.State.{Process, Service, Listener, Manager, with_service}
use ooth.Manager.Lifecycle.{World, stop}
use ooth.Manager.Lifecycle.Evolution.{
  Evolves, Advances-refl, Advances-trans, Advances-same, Advances-process, Steps, Steps-if,
}
use ooth.Manager.Lifecycle.Progress.{stop-Advances}
use ooth.Manager.Messages.{each}
use ooth.Manager.Messages.Progress.{each-Advances}
use ooth.Manager.Apply.Stage.{
  Snapshot, ApplyError, cgroup_changed, service_of, Opened, roll_back, same_app,
}
use ooth.Manager.Apply.Commit.{
  close, close_of, retire_changed, retire_service, retire_services, assign, adopt, install,
  install_over, install_app, install_apps, commit, finish, permit, apply_plans, apply, stop_active,
  restart, clear_failures, plan_of,
}

pub close_of-table : (l : Option Listener) (m : Manager) → (close_of l m).table ≡ m.table
unfolding close
close_of-table none m = refl
close_of-table (some l) m = refl

module _ (world : World) (now : Time) (positive : 0 < now) where
  stop_active-Advances : (p : ℕ) (m : Manager) → Steps m (stop_active world now p m)
  unfolding stop_active
  stop_active-Advances p m =
      Steps-if m _ (stop world p now m) m (λ h. stop-Advances world p now positive m)
        (λ h. Advances-refl m.table)

  -- `restart` advances the table.
  pub restart-Advances : (s : ℕ) (m : Manager) → Steps m (restart world s now m)
  unfolding restart
  restart-Advances s m =
      let stopped = each (m.service s).workers (stop_active world now) m in
      Advances-trans
        (each-Advances (m.service s).workers (stop_active world now) m stop_active-Advances)
        (Steps-if stopped _ (with_service s clear_failures stopped) stopped
          (λ h. Advances-refl stopped.table) (λ h. Advances-refl stopped.table))

  retire_changed-Advances :
      (found : Option App) (name : Text) (s : ℕ) (m : Manager)
      → Steps m (retire_changed world now found name s m)
  unfolding retire_changed
  retire_changed-Advances found name s m =
      let stopped = each (m.service s).workers (λ p. stop world p now) m in
      Advances-trans
        (each-Advances (m.service s).workers (λ p. stop world p now) m
          (λ p n. stop-Advances world p now positive n))
        (Steps-if stopped _ _ stopped
          (λ h. Advances-same _ _ (sym (close_of-table (m.service s).listener stopped)))
          (λ h. Advances-refl stopped.table))

  retire_services-Advances :
      (snapshot : Snapshot) (l : List (Text × ℕ)) (m : Manager)
      → Steps m (retire_services world now snapshot l m)
  unfolding retire_services retire_service
  retire_services-Advances snapshot [] m = Advances-refl m.table
  retire_services-Advances snapshot ((name, s) ∷ es) m =
      Advances-trans
        (Steps-if m _ m (retire_changed world now (lookup name snapshot.apps) name s m)
          (λ h. Advances-refl m.table) (λ h. retire_changed-Advances _ name s m))
        (retire_services-Advances snapshot es _)

  assign-Evolves : (s : ℕ) (c : Process) → Evolves c (assign s c)
  assign-Evolves s c = ground arith

  adopt-Advances : (s p : ℕ) (m : Manager) → Steps m (adopt s p m)
  unfolding adopt
  adopt-Advances s p m = Advances-process p (assign s) m (assign-Evolves s (m.table.process p))

  install-Advances :
      (name : Text) (app : App) (plan : Plan) (l : Option Listener) (workers : List ℕ) (m : Manager)
      → Steps m (install now name app plan l workers m)
  unfolding install
  install-Advances name app plan l workers m =
      each-Advances workers (adopt m.service_count) _ (λ p n. adopt-Advances m.service_count p n)

  install_over-Advances :
      (plans : List (Text × Plan)) (o : Opened) (name : Text) (app : App) (r : Option Service)
      (m : Manager)
      → Steps m (install_over now plans o name app r m)
  unfolding install_over
  install_over-Advances plans o name app none m = install-Advances name app _ _ [] m
  install_over-Advances plans o name app (some r) m =
      Steps-if m (same_app r.config app) m
        (install now name app (plan_of name plans) r.listener r.workers m)
        (λ h. Advances-refl m.table)
        (λ h. install-Advances name app (plan_of name plans) r.listener r.workers m)

  install_app-Advances :
      (plans : List (Text × Plan)) (o : Opened) (e : Text × App) (m : Manager)
      → Steps m (install_app now plans o e m)
  unfolding install_app
  install_app-Advances plans o (name, app) m =
      install_over-Advances plans o name app (service_of name m) m

  install_apps-Advances :
      (plans : List (Text × Plan)) (o : Opened) (l : List (Text × App)) (m : Manager)
      → Steps m (install_apps now plans o l m)
  unfolding install_apps
  install_apps-Advances plans o [] m = Advances-refl m.table
  install_apps-Advances plans o (e ∷ es) m =
      Advances-trans (install_app-Advances plans o e m) (install_apps-Advances plans o es _)

  commit-Advances :
      (snapshot : Snapshot) (plans : List (Text × Plan)) (o : Opened) (done : List Text)
      (m : Manager)
      → Steps m (commit world now snapshot plans o done m)
  unfolding commit
  commit-Advances snapshot plans o done m =
      Advances-trans (retire_services-Advances snapshot m.services _)
        (install_apps-Advances plans o snapshot.apps _)

  finish-Advances :
      (snapshot : Snapshot) (plans : List (Text × Plan)) (o : Opened) (done : List Text)
      (m : Manager) (refused : Option ApplyError)
      → Steps m (finish world now snapshot plans o done m refused).0
  unfolding finish roll_back
  finish-Advances snapshot plans o done m (some e) = Advances-refl m.table
  finish-Advances snapshot plans o done m none = commit-Advances snapshot plans o done m

  permit-Advances :
      (snapshot : Snapshot) (plans : List (Text × Plan)) (o : Opened) (m : Manager)
      (failure : Option ApplyError)
      → Steps m (permit world now snapshot plans o m failure).0
  unfolding permit roll_back
  permit-Advances snapshot plans o m (some e) = Advances-refl m.table
  permit-Advances snapshot plans o m none = finish-Advances snapshot plans o _ m _

  apply_plans-Advances :
      (snapshot : Snapshot) (plans : Result ApplyError (List (Text × Plan))) (m : Manager)
      → Steps m (apply_plans world now snapshot plans m).0
  unfolding apply_plans
  apply_plans-Advances snapshot (err e) m = Advances-refl m.table
  apply_plans-Advances snapshot (ok plans) m = permit-Advances snapshot plans _ m _

  Steps-either :
      (m : Manager) (b : Bool) (x y : Manager × Option ApplyError)
      → Steps m x.0
      → Steps m y.0
      → Steps m (if b then x else y).0
  Steps-either m true x y f g = f
  Steps-either m false x y f g = g

  -- `apply` advances the table.
  pub apply-Advances : (snapshot : Snapshot) (m : Manager) → Steps m (apply world now snapshot m).0
  unfolding apply
  apply-Advances snapshot m =
      Steps-either m _ (m, some cgroup_changed) (apply_plans world now snapshot _ m)
        (Advances-refl m.table) (apply_plans-Advances snapshot _ m)
