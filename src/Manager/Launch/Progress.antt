-- ===== src/Manager/Launch/Progress.antt =====
-- `spawn` and a deferred start advance the process table.
use ooth.Prelude.{
  ℕ, ◌<◌, ◌≡◌, refl, sym, ap, ◌∙◌, Option-cases, inl, inr, Bool, true, false, arith, Option, some,
  none, if◌then◌else◌, ◌==◌, ==_iff, Bool-cases,
}
use mathlib.Core.Bool.{false≢true}
use mathlib.Core.Option.{none-ne-some}
use mathlib.Core.Path.{subst}
use ooth.Config.App.{App}
use ooth.Schedule.Times.{Time}
use ooth.Manager.State.{Process, Table, Manager, with_process, adjoin, delete}
use ooth.Manager.Lifecycle.{World, Launched}
use ooth.Manager.Lifecycle.Evolution.{
  IsFit, Evolves, Evolves-refl, Advances, Advances-refl, Advances-trans, Advances-same,
  Advances-process, Steps, In-adjoin, In-delete,
}
use ooth.Manager.Lifecycle.Progress.{lifecycle-Advances}
use ooth.Manager.Launch.{
  mark_launched, launched, start_process, new_process, fresh_cycle, open_cycle, reserve,
  undo_reservation, before_start, after_start_process, spawn,
}

mark_launched-Evolves :
    (l : Launched) (app : App) (now : Time) (c : Process) → Evolves c (mark_launched l app now c)
mark_launched-Evolves l app now c = ground arith

Advances-adjoin : (p : ℕ) (t : Table) → Advances t (record t { workers = adjoin p t.workers })
Advances-adjoin p t = record {
  grows = omega arith;
  evolves = λ q h. Evolves-refl (t.process q);
  held = λ q h l i. inl (In-adjoin p q t.workers i);
  sound = λ s. s;
}

pub launched-Advances :
    (p : ℕ) (l : Launched) (now : Time) (m : Manager) → Steps m (launched p l now m)
unfolding launched
launched-Advances p l now m =
    let app = (m.service (m.table.process p).service).config in
    Advances-trans
      (Advances-process p (mark_launched l app now) m
        (mark_launched-Evolves l app now (m.table.process p)))
      (Advances-adjoin p (with_process p (mark_launched l app now) m).table)

open_cycle-table : (s : ℕ) (m : Manager) → (open_cycle s m).1.table ≡ m.table
unfolding open_cycle fresh_cycle
open_cycle-table s m = ground arith

new_process-IsFit : (s c : ℕ) (app : App) (now : Time) → IsFit (new_process s c app now)
new_process-IsFit s c app now = ground arith

reserve-Advances : (s c : ℕ) (now : Time) (m : Manager) → Steps m (reserve s c now m).1
unfolding reserve
reserve-Advances s c now m = record {
  grows = omega arith;
  evolves = λ q h. older q h;
  held = λ q h l i. inl (In-adjoin m.table.count q m.table.workers i);
  sound = λ f q h. elim (Bool-cases (q == m.table.count)) [
    | inl same ↦ rw same (new_process-IsFit s c _ now)
    | inr other ↦ rw other (f q (ground arith))
  ];
}
  where
    older :
        (q : ℕ)
        → q < m.table.count
        → Evolves (m.table.process q) ((reserve s c now m).1.table.process q)
    older q h =
        let other : (q == m.table.count) ≡ false = ground arith in
        rw other (Evolves-refl (m.table.process q))

undo_reservation-table :
    (s c p : ℕ) (m : Manager)
    → (undo_reservation s c p m).table ≡ record m.table { workers = delete p m.table.workers }
unfolding undo_reservation
undo_reservation-table s c p m = ground arith

-- A reservation that was never launched may be undone.
undo_reservation-Advances :
    (s c p : ℕ) (m : Manager)
    → (m.table.process p).pending ≡ true
    → Steps m (undo_reservation s c p m)
undo_reservation-Advances s c p m reserved = rw (undo_reservation-table s c p m) (record {
  grows = omega arith;
  evolves = λ q h. Evolves-refl (m.table.process q);
  held = λ q h l i. elim (In-delete p q m.table.workers i) [
    | inl d ↦ inl d
    | inr e ↦ absurd (false≢true (sym l ∙ ap (λ k. (m.table.process k).pending) e ∙ reserved))
  ];
  sound = λ f. f;
})

pub start_process-Advances :
    (world : World) (p : ℕ) (now : Time) (m n : Manager)
    → start_process world p now m ≡ some n
    → Steps m n
unfolding start_process
start_process-Advances world p now m n e = elim (Option-cases (world.launch p now)) [
  | inl h ↦ absurd (none-ne-some n (rw (h, start_process) at e))
  | inr (l, h) ↦
      let same : launched p l now m ≡ n = cc (rw (h, start_process) at e) in
      subst (Steps m) same (launched-Advances p l now m)
]

after_start_process-Advances :
    (world : World) (s c p : ℕ) (now : Time) (m : Manager)
    → (m.table.process p).pending ≡ true
    → (o : Option Manager) → ((n : Manager) → o ≡ some n → Steps m n)
    → Steps m (after_start_process world s c p now m o).0
unfolding after_start_process
after_start_process-Advances world s c p now m reserved none f =
    undo_reservation-Advances s c p m reserved
after_start_process-Advances world s c p now m reserved (some n) f =
    Advances-trans (f n refl) (lifecycle-Advances world p now n)

reserve_pending :
    (s c : ℕ) (now : Time) (m : Manager)
    → ((reserve s c now m).1.table.process (reserve s c now m).0).pending ≡ true
unfolding reserve
reserve_pending s c now m = rw ((==_iff m.table.count m.table.count).1 refl)

Steps-if_pair :
    (m : Manager) (b : Bool) (x y : Manager × Bool)
    → Steps m x.0
    → Steps m y.0
    → Steps m (if b then x else y).0
Steps-if_pair m true x y f g = f
Steps-if_pair m false x y f g = g

-- `spawn` advances the table, whether it starts the worker, waits for its hooks or fails.
pub spawn-Advances :
    (world : World) (s : ℕ) (now : Time) (m : Manager) → Steps m (spawn world s now m).0
unfolding spawn before_start
spawn-Advances world s now m =
    let (c, m1) = open_cycle s m in
    let p = (reserve s c now m1).0 in
    let m2 = (reserve s c now m1).1 in
    let m3 = (before_start p now m2).0 in
    Advances-trans (Advances-same _ _ (sym (open_cycle-table s m))) (
      Advances-trans (reserve-Advances s c now m1) (
        Steps-if_pair m2 (before_start p now m2).1
          (after_start_process world s c p now m3 (start_process world p now m3)) (m3, true)
          (after_start_process-Advances world s c p now m3 (reserve_pending s c now m1)
            (start_process world p now m3) (start_process-Advances world p now m3))
          (Advances-refl m2.table)))
