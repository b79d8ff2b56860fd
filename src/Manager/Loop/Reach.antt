-- ===== src/Manager/Loop/Reach.antt =====
-- The states that the event loop reaches, and what holds in all of them.
use ooth.Prelude.{
  ℕ, ◌<◌, ◌≡◌, refl, sym, ◌∙◌, inl, inr, Bool, true, false, Option, none, some, List, [], ◌∷◌,
  if◌then◌else◌, arith, In, is_empty,
}
use mathlib.Core.Path.{subst}
use ooth.Prelude.Texts.{Text}
use ooth.Prelude.Maps.{lookup}
use ooth.Schedule.Times.{Time}
use ooth.Config.App.{App}
use ooth.Manager.State.{Manager}
use ooth.Manager.Lifecycle.{World}
use ooth.Manager.Lifecycle.Evolution.{
  IsSound, Evolves, Advances-refl, Advances-trans, Advances-same, Steps, Steps-if,
}
use ooth.Manager.Messages.Progress.{handle-Advances}
use ooth.Manager.Tick.Progress.{tick-Advances}
use ooth.Manager.Apply.Stage.{Snapshot, ApplyError}
use ooth.Manager.Apply.Commit.{apply, restart}
use ooth.Manager.Apply.Progress.{apply-Advances, restart-Advances, close_of-table}
use ooth.Manager.Loop.{
  Loop, Input, sampled, cancelled, watch_ended, updated, received, ticked, close_listeners,
  shutdown, begin_shutdown, check_fatal, is_over, keep_pending, take_snapshot, restart_current,
  restart_all, take_update, after_retry, retry_pending, take_tick, react, round,
}

abbrev LoopSteps : Loop → Loop → Type 0
LoopSteps l k = Steps l.manager k.manager

LoopSteps-if :
    (l : Loop) (b : Bool) (x y : Loop)
    → LoopSteps l x
    → LoopSteps l y
    → LoopSteps l (if b then x else y)
LoopSteps-if l true x y f g = f
LoopSteps-if l false x y f g = g

close_listeners-table : (l : List (Text × ℕ)) (m : Manager) → (close_listeners l m).table ≡ m.table
unfolding close_listeners
close_listeners-table [] m = refl
close_listeners-table ((name, s) ∷ rest) m =
    close_listeners-table rest _ ∙ close_of-table (m.service s).listener m

module _ (world : World) (now : Time) (positive : 0 < now) where
  begin_shutdown-LoopSteps : (l : Loop) → LoopSteps l (begin_shutdown world now l)
  unfolding shutdown
  begin_shutdown-LoopSteps l =
      Advances-trans (Advances-same _ _ (sym (close_listeners-table l.manager.services l.manager)))
        (tick-Advances world now positive true _)

  check_fatal-LoopSteps : (l : Loop) → LoopSteps l (check_fatal world now l)
  unfolding check_fatal
  check_fatal-LoopSteps l =
      LoopSteps-if l _ (begin_shutdown world now l) l (begin_shutdown-LoopSteps l) (Advances-refl _)

  keep_pending-manager :
      (snapshot : Snapshot) (l : Loop) (r : Manager × Option ApplyError)
      → (keep_pending now snapshot l r).manager ≡ r.0
  keep_pending-manager snapshot l (m, none) = refl
  keep_pending-manager snapshot l (m, some e) = refl

  take_snapshot-LoopSteps :
      (s : Option Snapshot) (l : Loop) → LoopSteps l (take_snapshot world now s l)
  unfolding take_snapshot
  take_snapshot-LoopSteps none l = Advances-refl _
  take_snapshot-LoopSteps (some s) l =
      subst (Steps l.manager) (sym (keep_pending-manager s l (apply world now s l.manager)))
        (apply-Advances world now positive s l.manager)

  restart_current-Advances :
      (config : App) (s : Option ℕ) (m : Manager) → Steps m (restart_current world now config s m)
  unfolding restart_current
  restart_current-Advances config none m = Advances-refl _
  restart_current-Advances config (some s) m =
      Steps-if m _ (restart world s now m) m (λ h. restart-Advances world now positive s m)
        (λ h. Advances-refl _)

  restart_all-Advances : (l : List (Text × App)) (m : Manager) → Steps m (restart_all world now l m)
  unfolding restart_all
  restart_all-Advances [] m = Advances-refl _
  restart_all-Advances ((name, config) ∷ rest) m =
      Advances-trans (restart_current-Advances config (lookup name m.services) m)
        (restart_all-Advances rest _)

  take_update-LoopSteps :
      (s : Option Snapshot) (r : List (Text × App)) (l : Loop)
      → LoopSteps l (take_update world now s r l)
  unfolding take_update
  take_update-LoopSteps s r l =
      Advances-trans (take_snapshot-LoopSteps s l) (restart_all-Advances r _)

  after_retry-manager :
      (l : Loop) (r : Manager × Option ApplyError) → (after_retry now l r).manager ≡ r.0
  after_retry-manager l (m, none) = refl
  after_retry-manager l (m, some e) = refl

  retry_pending-LoopSteps :
      (s : Option Snapshot) (l : Loop) → LoopSteps l (retry_pending world now s l)
  unfolding retry_pending
  retry_pending-LoopSteps none l = Advances-refl _
  retry_pending-LoopSteps (some s) l =
      LoopSteps-if l _ (after_retry now l (apply world now s l.manager)) l
        (subst (Steps l.manager) (sym (after_retry-manager l (apply world now s l.manager)))
          (apply-Advances world now positive s l.manager))
        (Advances-refl _)

  react-LoopSteps : (input : Input) (l : Loop) → LoopSteps l (react world now input l)
  unfolding react take_tick
  react-LoopSteps (sampled sample) l = Advances-refl _
  react-LoopSteps cancelled l = begin_shutdown-LoopSteps l
  react-LoopSteps watch_ended l =
      LoopSteps-if l l.stopping l (begin_shutdown world now l) (Advances-refl _)
        (begin_shutdown-LoopSteps l)
  react-LoopSteps (updated s r) l =
      LoopSteps-if l l.stopping l (take_update world now s r l) (Advances-refl _)
        (take_update-LoopSteps s r l)
  react-LoopSteps (received message) l = handle-Advances world now positive message l.manager
  react-LoopSteps ticked l =
      Advances-trans (retry_pending-LoopSteps l.pending l) (tick-Advances world now positive _ _)

  round-LoopSteps : (input : Input) (l : Loop) → LoopSteps l (round world now input l)
  unfolding round
  round-LoopSteps input l =
      Advances-trans (check_fatal-LoopSteps l) (react-LoopSteps input (check_fatal world now l))

-- What a run of the loop reaches: any inputs, at any times after Go's zero time, until it returns.
pub data Reach (world : World) (l : Loop) : Loop → Type 0 where
  here : Reach world l l
  next :
      {k : Loop} (now : Time) (input : Input)
      → Reach world l k
      → 0 < now
      → is_over (check_fatal world now k) ≡ false
      → Reach world l (round world now input k)

Reach-LoopSteps : {world : World} {l k : Loop} → Reach world l k → LoopSteps l k
Reach-LoopSteps {l} here = Advances-refl l.manager.table
Reach-LoopSteps {world} (next {k} now input r positive running) =
    Advances-trans (Reach-LoopSteps r) (round-LoopSteps world now positive input k)

-- In every state of a run, a worker that is ready was launched, passed its base check, and neither
-- stops nor has exited; a worker that was told to stop, or killed, is stopping.
pub Reach-IsSound :
    {world : World} {l k : Loop}
    → Reach world l k
    → IsSound l.manager.table
    → IsSound k.manager.table
Reach-IsSound r s = (Reach-LoopSteps r).sound s

-- A run undoes nothing that was done to a worker: its configuration, the time at which it was told
-- to stop, its exit, its stop signal, its kill and its launch all stay.
pub Reach-Evolves :
    {world : World} {l k : Loop} (p : ℕ)
    → Reach world l k
    → p < l.manager.table.count
    → Evolves (l.manager.table.process p) (k.manager.table.process p)
Reach-Evolves p r h = (Reach-LoopSteps r).evolves p h

In-is_empty : (p : ℕ) (l : List ℕ) → is_empty l ≡ true → ¬ In p l
In-is_empty p [] h i = i
In-is_empty p (q ∷ l) h i = cc

-- The loop returns only when every worker that was ever launched has exited.
pub is_over-exited :
    {world : World} {l k : Loop} (p : ℕ)
    → Reach world l k
    → p < l.manager.table.count
    → (l.manager.table.process p).pending ≡ false
    → In p l.manager.table.workers
    → is_over k ≡ true
    → (k.manager.table.process p).exited ≡ true
unfolding is_over
is_over-exited {k} p r h launched i over = elim ((Reach-LoopSteps r).held p h launched i) [
  | inl j ↦ absurd (In-is_empty p k.manager.table.workers (ground arith) j)
  | inr gone ↦ gone
]
