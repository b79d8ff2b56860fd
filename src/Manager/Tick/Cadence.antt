-- ===== src/Manager/Tick/Cadence.antt =====
-- The next time of an interval schedule.
use ooth.Prelude.{ℕ, suc, ap, ◌∙◌, ◌/◌, ◌+◌, ◌-◌, ◌*◌, ◌%◌, ◌≤◌, ◌<◌, ◌≡◌, arith}
use native.Mathlib.Nat.{mod-lt, mul-mod_right, div-add-mod}
use ooth.Schedule.Times.{Time}
use ooth.Manager.Tick.Demand.{next_cadence}

-- A positive interval's next time is after the present, by one interval at most, and lies on the
-- cadence of the time that was due: times that were missed are not replayed.
pub next_cadence_lem :
    (interval : ℕ) (due now : Time)
    → 0 < interval
    → due ≤ now
    → ((now < next_cadence interval due now) × (next_cadence interval due now ≤ now + interval))
      × ((next_cadence interval due now - due) % interval ≡ 0)
unfolding next_cadence
next_cadence_lem interval due now h g =
    let left = mod-lt (now - due) h in
    (
      (omega (arith, left), omega arith),
      later_eq ∙ mul-mod_right interval (suc ((now - due) / interval)),
    )
  where
    whole :
        now + (interval - (now - due) % interval) - due ≡ interval * suc ((now - due) / interval)
    whole = omega (arith, mod-lt (now - due) h, div-add-mod (now - due) interval)

    later_eq :
        (now + (interval - (now - due) % interval) - due) % interval
        ≡ (interval * suc ((now - due) / interval)) % interval
    later_eq = ap (λ x. x % interval) whole
