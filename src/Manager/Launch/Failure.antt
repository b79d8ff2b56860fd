-- ===== src/Manager/Launch/Failure.antt =====
-- A start that fails leaves no trace of its worker.
use ooth.Prelude.{
  ℕ, ◌≡◌, refl, sym, ◌∙◌, ap, inl, inr, Bool, true, false, Option, some, none, List, [], ◌∷◌, In,
  Bool-cases, ◌==◌, ==_iff, arith, if◌then◌else◌,
}
use mathlib.Core.Bool.{true≢false}
use ooth.Schedule.Times.{Time}
use ooth.Manager.State.{Manager, Service, Table, delete}
use ooth.Manager.Lifecycle.{World}
use ooth.Manager.Launch.{
  fresh_cycle, open_cycle, reserve, before_start, start_process, undo_reservation,
  after_start_process, spawn,
}

delete-absent : (k : ℕ) (l : List ℕ) → ¬ In k l → delete k l ≡ l
delete-absent k [] h = refl
delete-absent k (q ∷ l) h = elim (Bool-cases (q == k)) [
  | inl same ↦ absurd (h (inl (sym ((==_iff q k).0 same))))
  | inr other ↦ rw other (ap (λ t. q ∷ t) (delete-absent k l (λ i. h (inr i))))
]

delete-twice : (k : ℕ) (l : List ℕ) → ¬ In k l → delete k (k ∷ delete k l) ≡ l
delete-twice k l h = let gone = delete-absent k l h in rw ((==_iff k k).1 refl) (rw gone gone)

open_cycle-table : (s : ℕ) (m : Manager) → (open_cycle s m).1.table ≡ m.table
unfolding open_cycle fresh_cycle
open_cycle-table s m = ground arith

open_cycle-workers :
    (s : ℕ) (m : Manager) → ((open_cycle s m).1.service s).workers ≡ (m.service s).workers
unfolding open_cycle fresh_cycle
open_cycle-workers s m = ground (arith, (==_iff s s).1 refl)

undo_reservation-workers :
    (s c p : ℕ) (m : Manager)
    → ((undo_reservation s c p m).table.workers ≡ delete p m.table.workers)
      × (((undo_reservation s c p m).service s).workers ≡ delete p (m.service s).workers)
unfolding undo_reservation
undo_reservation-workers s c p m = (ground arith, ground (arith, (==_iff s s).1 refl))

reserve-workers :
    (s c : ℕ) (now : Time) (m : Manager)
    → ((reserve s c now m).1.table.workers ≡ m.table.count ∷ delete m.table.count m.table.workers)
      × (((reserve s c now m).1.service s).workers
          ≡ m.table.count ∷ delete m.table.count (m.service s).workers)
unfolding reserve
reserve-workers s c now m = (refl, ground (arith, (==_iff s s).1 refl))

-- What a failed start leaves: the workers of the supervisor and of the service as they were.
pub record LeavesNone (s : ℕ) (m n : Manager) : Type 0 where
  pub workers : n.table.workers ≡ m.table.workers
  pub members : (n.service s).workers ≡ (m.service s).workers

undone :
    (s c : ℕ) (now : Time) (m : Manager)
    → ¬ In m.table.count m.table.workers
    → ¬ In m.table.count (m.service s).workers
    → (n : Manager) → n.table ≡ (reserve s c now m).1.table
    → n.service ≡ (reserve s c now m).1.service
    → LeavesNone s m (undo_reservation s c m.table.count n)
undone s c now m h g n t r =
    let undo = undo_reservation-workers s c m.table.count n in
    let held = reserve-workers s c now m in
    let same_table = ap (λ (u : Table). u.workers) t in
    let same_service = ap (λ (f : ℕ → Service). (f s).workers) r in
    record {
      workers =
          undo.0
          ∙ (ap (delete m.table.count) (same_table ∙ held.0)
              ∙ delete-twice m.table.count m.table.workers h);
      members =
          undo.1
          ∙ (ap (delete m.table.count) (same_service ∙ held.1)
              ∙ delete-twice m.table.count (m.service s).workers g);
    }

before_start-kept :
    (p : ℕ) (now : Time) (m : Manager)
    → ((before_start p now m).0.table ≡ m.table) × ((before_start p now m).0.service ≡ m.service)
unfolding before_start
before_start-kept p now m = (refl, refl)

-- A start in a cycle that is open leaves none when it fails.
after_start_process-LeavesNone :
    (world : World) (s c : ℕ) (now : Time) (m : Manager)
    → ¬ In m.table.count m.table.workers
    → ¬ In m.table.count (m.service s).workers
    → (n : Manager) (o : Option Manager) → n.table ≡ (reserve s c now m).1.table
    → n.service ≡ (reserve s c now m).1.service
    → (after_start_process world s c m.table.count now n o).1 ≡ false
    → LeavesNone s m (after_start_process world s c m.table.count now n o).0
unfolding after_start_process
after_start_process-LeavesNone world s c now m h g n none t r e = undone s c now m h g n t r
after_start_process-LeavesNone world s c now m h g n (some k) t r e = absurd (true≢false e)

failed_if :
    (s : ℕ) (m : Manager) (b : Bool) (r : Manager × Bool) (x : Manager)
    → (r.1 ≡ false → LeavesNone s m r.0)
    → (if b then r else (x, true)).1 ≡ false
    → LeavesNone s m (if b then r else (x, true)).0
failed_if s m true r x f e = f e
failed_if s m false r x f e = absurd (true≢false e)

-- When `spawn` returns an error, the supervisor and the service have the workers that they had
-- before, if the identifier of the new worker, the count of those in use, is in neither set.
pub spawn_failed :
    (world : World) (s : ℕ) (now : Time) (m : Manager)
    → ¬ In m.table.count m.table.workers
    → ¬ In m.table.count (m.service s).workers
    → (spawn world s now m).1 ≡ false
    → LeavesNone s m (spawn world s now m).0
unfolding spawn reserve
spawn_failed world s now m h g e =
    let leaves =
      failed_if s opened _ _ _
        (after_start_process-LeavesNone world s cycle now opened (rw table h)
          (rw table (rw members g)) held (start_process world opened.table.count now held) kept.0
          kept.1)
        e in
    record {
      workers = leaves.workers ∙ ap (λ (u : Table). u.workers) table;
      members = leaves.members ∙ members;
    }
  where
    cycle : ℕ
    cycle = (open_cycle s m).0

    opened : Manager
    opened = (open_cycle s m).1

    table : opened.table ≡ m.table
    table = open_cycle-table s m

    members : (opened.service s).workers ≡ (m.service s).workers
    members = open_cycle-workers s m

    held : Manager
    held = (before_start opened.table.count now (reserve s cycle now opened).1).0

    kept :
        (held.table ≡ (reserve s cycle now opened).1.table)
        × (held.service ≡ (reserve s cycle now opened).1.service)
    kept = before_start-kept opened.table.count now (reserve s cycle now opened).1
