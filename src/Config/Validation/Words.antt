-- ===== src/Config/Validation/Words.antt =====
-- What a configuration must satisfy, in words of its own, for each part of `App.validate`.
use ooth.Prelude.{
  ℕ, ◌*◌, ◌≤◌, ◌≡◌, ◌≢◌, ◌↔◌, ◌⊎◌, true, false, Option, none, some, List, [], ◌∷◌, ◌++◌, In, ok,
}
use ooth.Prelude.Signed.{pos}
use ooth.Prelude.Texts.{Text, codes, atoi}
use ooth.Schedule.Times.{Duration}
use ooth.Schedule.Plan.{Plan, parse_schedule}
use ooth.Config.App.{App, one_percent}
use ooth.Config.Validation.{networks, named_handoffs}
use ooth.Config.Validation.Refusals.{NonNegative, Positive}

-- The schedule is readable; an app that has one is no service, and only such an app may overlap.
abbrev pub HasSchedule : (Text → Option Duration) → App → Type 0
HasSchedule parse_duration app =
    ((plan : Plan) × (parse_schedule parse_duration app.schedule ≡ ok plan))
    × ((app.schedule ≢ []
          → ((app.listen.network ≡ []) × (app.startup ≡ false)) × (app.min_workers ≡ pos 0))
        × ((app.overlap ≡ true → app.schedule ≢ []) × NonNegative app.max_exec_time))

-- A socket mode is for Unix sockets on Linux and holds permission bits only; a password goes with a
-- user and is not for Linux, a group is not for Windows.
abbrev pub HasIdentity : Text → App → Type 0
HasIdentity goos app =
    ((mode : ℕ)
      → app.socket_mode ≡ some mode
      → ((goos ≡ codes "linux") × (app.listen.network ≡ codes "unix")) × (mode ≤ 0o777))
    × ((app.identity.password ≢ none → app.identity.user ≢ [])
        × ((goos ≡ codes "linux" → app.identity.password ≡ none)
            × (goos ≡ codes "windows" → app.identity.group ≡ [])))

-- There is a program to run, and a network that is known is given with an address.
abbrev pub HasCommand : App → Type 0
HasCommand app =
    ((program : Text) × (arguments : List Text) × (app.command ≡ program ∷ arguments)
      × (program ≢ []))
    × (In app.listen.network networks × (app.listen.network ≡ [] ↔ app.listen.address ≡ []))

-- The socket is handed over in one of the named ways or, on Linux, as a descriptor from 3 to 1024.
abbrev pub HasHandoff : Text → App → Type 0
HasHandoff goos app =
    In app.socket_handoff named_handoffs
    ⊎ ((fd : ℕ) × (atoi app.socket_handoff ≡ some (pos fd))
        × (3 ≤ fd)
        × (fd ≤ 1024)
        × (goos ≡ codes "linux"))

-- The app is ready by its own event, once started, or when an address answers.
abbrev pub HasReady : App → Type 0
HasReady app =
    ((app.ready ≡ codes "event") ⊎ (app.ready ≡ codes "started"))
    ⊎ ((address : Text) × (address ≢ [])
        × ((app.ready ≡ codes "tcp://" ++ address) ⊎ (app.ready ≡ codes "unix://" ++ address)))

-- The bounds of the pool, of the times and of the threshold.
abbrev pub HasLimits : App → Type 0
HasLimits app =
    ((least most slots : ℕ) × (app.min_workers ≡ pos least)
      × (app.max_workers ≡ pos most)
      × (app.concurrency ≡ pos slots)
      × (least ≤ most)
      × (1 ≤ most)
      × (1 ≤ slots))
    × ((((((Positive app.idle_timeout × Positive app.start_timeout) × Positive app.stop_timeout)
              × Positive app.scale_window)
            × NonNegative app.scale_delay)
          × NonNegative app.request_timeout)
        × ((app.scale_at ≢ 0) × (app.scale_at ≤ 100 * one_percent)))

-- A variable has a name that is not reserved, and neither part can break the environment.
abbrev pub IsVariable : Text × Text → Type 0
IsVariable (key, value) =
    (((key ≢ []) × ((c : ℕ) → In c key → (c ≢ b'=') × (c ≢ 0))) × ((c : ℕ) → In c value → c ≢ 0))
    × ¬ ((rest : Text) × (key ≡ codes "OOTH_" ++ rest))

abbrev pub HasEnv : App → Type 0
HasEnv app = (variable : Text × Text) → In variable app.env → IsVariable variable
