-- ===== src/Manager/Hooks/Phases.antt =====
-- What a phase starts when it is asked for again at the same time.
use ooth.Prelude.{ℕ, ◌+◌, ◌≡◌, refl, true, false, List, [], ◌∷◌, map, some, arith, ==_iff}
use ooth.Schedule.Times.{Time}
use ooth.Config.App.{App}
use ooth.Manager.State.{
  Event, pre_start, post_start, pre_stop, post_stop, readiness, health, Scope, worker_scope,
  app_scope, Run, Runs, Hooks,
}
use ooth.Manager.Hooks.{
  is_due, launch_run, count_due, due_effects, set_runs, phase_runs, phase, same_scope, same_event,
}

launched_not_due :
    (event : Event) (now : Time) (run : Run) → is_due event now (launch_run event now run) ≡ false
unfolding launch_run
launched_not_due event now run = ground arith

count_due-launched :
    (event : Event) (now : Time) (runs : List Run)
    → count_due event now (map (launch_run event now) runs) ≡ 0
unfolding count_due
count_due-launched event now [] = refl
count_due-launched event now (run ∷ runs) =
    rw (launched_not_due event now run) (omega (arith, count_due-launched event now runs))

due_effects-launched :
    (scope : Scope) (event : Event) (now : Time) (i : ℕ) (runs : List Run)
    → due_effects scope event now i (map (launch_run event now) runs) ≡ []
unfolding due_effects
due_effects-launched scope event now i [] = refl
due_effects-launched scope event now i (run ∷ runs) =
    rw (launched_not_due event now run) (due_effects-launched scope event now (i + 1) runs)

same_event_refl : (e : Event) → same_event e e ≡ true
same_event_refl pre_start = refl
same_event_refl post_start = refl
same_event_refl pre_stop = refl
same_event_refl post_stop = refl
same_event_refl readiness = refl
same_event_refl health = refl

same_scope_refl : (s : Scope) → same_scope s s ≡ true
same_scope_refl (worker_scope p) = (==_iff p p).1 refl
same_scope_refl (app_scope c) = (==_iff c c).1 refl

set_runs-same :
    (scope : Scope) (event : Event) (l : List Run) (r : Scope → Runs)
    → set_runs scope event l r scope event ≡ some l
unfolding set_runs
set_runs-same scope event l r = rw (same_scope_refl scope, same_event_refl event) refl

phase_runs-some :
    (scope : Scope) (config : App) (event : Event) (h : Hooks) (l : List Run)
    → h.runs scope event ≡ some l
    → phase_runs scope config event h ≡ l
unfolding phase_runs
phase_runs-some scope config event h l e = rw (phase_runs, e) refl

-- The list that a phase stores is the one it reads next.
phase_runs-stored :
    (scope : Scope) (config : App) (event : Event) (now : Time) (h : Hooks)
    → phase_runs scope config event (phase scope config event now h).0
      ≡ map (launch_run event now) (phase_runs scope config event h)
unfolding phase
phase_runs-stored scope config event now h =
    phase_runs-some scope config event (phase scope config event now h).0 _ (
      set_runs-same scope event (map (launch_run event now) (phase_runs scope config event h))
        h.runs)

-- Asking for a phase twice at the same time starts nothing the second time: the second call leaves
-- the number of tasks and the effects as the first one left them.
pub phase-twice :
    (scope : Scope) (config : App) (event : Event) (now : Time) (h : Hooks)
    → let once = (phase scope config event now h).0 in
      let twice = (phase scope config event now once).0 in
      (twice.tasks ≡ once.tasks) × (twice.effects ≡ once.effects)
unfolding phase
phase-twice scope config event now h =
    let once = (phase scope config event now h).0 in
    let runs = phase_runs scope config event h in
    let stored = phase_runs-stored scope config event now h in
    (
      rw stored (rw (count_due-launched event now runs) (omega arith)),
      rw stored (rw (due_effects-launched scope event now 0 runs) refl),
    )
