-- ===== src/Manager/Lifecycle/Evolution.antt =====
-- What no step of the supervisor undoes, as a relation between two states of its process table, with
-- the rules by which the operations are composed.
use ooth.Prelude.{
  ℕ, ◌≤◌, ◌<◌, ◌≡◌, refl, ◌∙◌, ◌⊎◌, inl, inr, Bool, true, false, List, [], ◌∷◌, ◌==◌, ==_iff,
  Bool-cases, In, arith, if◌then◌else◌,
}
use mathlib.Core.Path.{subst}
use ooth.Schedule.Times.{unset}
use ooth.Manager.State.{Process, Table, Manager, with_process, adjoin, delete}

-- A worker is ready only while it runs; it is told to stop, or killed, only once it is stopping.
pub record IsFit (c : Process) : Type 0 where
  pub ready_current :
      c.ready ≡ true → (c.exited ≡ false) × (unset c.stopping ≡ true) × (c.pending ≡ false)
  pub ready_based : c.ready ≡ true → c.base_ready ≡ true
  pub sent_stopping : c.stop_sent ≡ true → unset c.stopping ≡ false
  pub killed_stopping : c.killed ≡ true → unset c.stopping ≡ false

-- One worker, before and after.
pub record Evolves (c d : Process) : Type 0 where
  pub config_kept : d.config ≡ c.config
  pub cycle_kept : d.cycle ≡ c.cycle
  pub stop_kept : unset c.stopping ≡ false → d.stopping ≡ c.stopping
  pub exit_kept : c.exited ≡ true → d.exited ≡ true
  pub sent_kept : c.stop_sent ≡ true → d.stop_sent ≡ true
  pub killed_kept : c.killed ≡ true → d.killed ≡ true
  pub launch_kept : c.pending ≡ false → d.pending ≡ false
  pub fit : IsFit c → IsFit d

pub Evolves-refl : (c : Process) → Evolves c c
Evolves-refl c = record {
  config_kept = refl;
  cycle_kept = refl;
  stop_kept = λ h. refl;
  exit_kept = λ h. h;
  sent_kept = λ h. h;
  killed_kept = λ h. h;
  launch_kept = λ h. h;
  fit = λ h. h;
}

pub Evolves-trans : {c d e : Process} → Evolves c d → Evolves d e → Evolves c e
Evolves-trans {c} {d} {e} f g = record {
  config_kept = g.config_kept ∙ f.config_kept;
  cycle_kept = g.cycle_kept ∙ f.cycle_kept;
  stop_kept = λ h. g.stop_kept (ground (arith, f.stop_kept h)) ∙ f.stop_kept h;
  exit_kept = λ h. g.exit_kept (f.exit_kept h);
  sent_kept = λ h. g.sent_kept (f.sent_kept h);
  killed_kept = λ h. g.killed_kept (f.killed_kept h);
  launch_kept = λ h. g.launch_kept (f.launch_kept h);
  fit = λ h. g.fit (f.fit h);
}

-- Every worker in use is fit.
abbrev pub IsSound : Table → Type 0
IsSound t = (p : ℕ) → p < t.count → IsFit (t.process p)

-- The table, before and after: a launched worker leaves the set only once it
-- has exited.
pub record Advances (t u : Table) : Type 0 where
  pub grows : t.count ≤ u.count
  pub evolves : (p : ℕ) → p < t.count → Evolves (t.process p) (u.process p)
  pub held :
      (p : ℕ)
      → p < t.count
      → (t.process p).pending ≡ false
      → In p t.workers
      → In p u.workers ⊎ ((u.process p).exited ≡ true)
  pub sound : IsSound t → IsSound u

pub Advances-refl : (t : Table) → Advances t t
Advances-refl t = record {
  grows = omega arith;
  evolves = λ p h. Evolves-refl (t.process p);
  held = λ p h l i. inl i;
  sound = λ s. s;
}

pub Advances-trans : {t u v : Table} → Advances t u → Advances u v → Advances t v
Advances-trans {t} {u} {v} f g = record {
  grows = omega arith;
  evolves = λ p h. Evolves-trans (f.evolves p h) (g.evolves p (omega arith));
  held = λ p h l i. elim (f.held p h l i) [
    | inl j ↦ g.held p (omega arith) ((f.evolves p h).launch_kept l) j
    | inr gone ↦ inr ((g.evolves p (omega arith)).exit_kept gone)
  ];
  sound = λ s. g.sound (f.sound s);
}

-- A step that leaves the table alone.
pub Advances-same : (t u : Table) → t ≡ u → Advances t u
Advances-same t u e = subst (Advances t) e (Advances-refl t)

-- A write to one worker that lets it evolve.
pub Advances-process :
    (p : ℕ) (f : Process → Process) (m : Manager)
    → Evolves (m.table.process p) (f (m.table.process p))
    → Advances m.table (with_process p f m).table
Advances-process p f m e = record {
  grows = omega arith;
  evolves = λ q h. step q;
  held = λ q h l i. inl i;
  sound = λ s q h. (step q).fit (s q h);
}
  where
    step : (q : ℕ) → Evolves (m.table.process q) ((with_process p f m).table.process q)
    step q = elim (Bool-cases (q == p)) [
      | inl same ↦ let q_eq : q ≡ p = (==_iff q p).0 same in rw same (rw q_eq e)
      | inr other ↦ rw other (Evolves-refl (m.table.process q))
    ]

-- A deletion takes out one identifier and no other.
pub In-delete : (k p : ℕ) (l : List ℕ) → In p l → In p (delete k l) ⊎ (p ≡ k)
In-delete k p [] i = absurd i
In-delete k p (q ∷ l) i = elim (Bool-cases (q == k)) [
  | inl same ↦
      rw same
        (elim i [ inl e ↦ inr (omega (arith, (==_iff q k).0 same)) | inr j ↦ In-delete k p l j ])
  | inr other ↦ rw other (elim i [
    | inl e ↦ inl (inl e)
    | inr j ↦ elim (In-delete k p l j) [ inl d ↦ inl (inr d) | inr e ↦ inr e ]
  ])
]

pub In-adjoin : (k p : ℕ) (l : List ℕ) → In p l → In p (adjoin k l)
In-adjoin k p l i = elim (In-delete k p l i) [ inl d ↦ inr d | inr e ↦ inl e ]

-- An exited worker may be taken out of the set.
pub Advances-delete :
    (p : ℕ) (t : Table)
    → (t.process p).exited ≡ true
    → Advances t (record t { workers = delete p t.workers })
Advances-delete p t gone = record {
  grows = omega arith;
  evolves = λ q h. Evolves-refl (t.process q);
  held = λ q h l i. elim (In-delete p q t.workers i) [ inl j ↦ inl j | inr e ↦ inr (rw e gone) ];
  sound = λ s. s;
}

-- One state of the supervisor advances to another.
abbrev pub Steps : Manager → Manager → Type 0
Steps m n = Advances m.table n.table

-- Both branches of a test advance, each with its outcome at hand.
pub Steps-if :
    (m : Manager) (b : Bool) (x y : Manager)
    → (b ≡ true → Steps m x)
    → (b ≡ false → Steps m y)
    → Steps m (if b then x else y)
Steps-if m true x y f g = f refl
Steps-if m false x y f g = g refl
