-- ===== src/Lib.antt =====
-- ooth supervises the worker processes of applications: it starts them, waits until they are ready,
-- grows and shrinks their pools by load, runs them on schedules, stops them in the order of their
-- dependencies, and replaces its configuration while it runs. All of it is src/main.go.
--
-- The parts, and where they are modelled:
--   Prelude       what the other modules share: tests, lists, results, texts, maps and bit sets.
--   Schedule      `schedule`, `parseSchedule`, `cronField`, `matches` and `next`. Field and Plan hold the
--                 code; Marks and Cover say which bits a field sets, Next what a plan means.
--   Config        the configuration:
--     App           the structs of the YAML documents and `App.dependencies`;
--     Validation    `App.validate`; Words says in words of its own what it asks for;
--     Triggers      the dependencies and triggers of `validateActions`, Actions its actions and the whole;
--     Dependencies  `validateDependencies`, the search for unknown, scheduled and cyclic dependencies;
--     Permissions   `parsePermissions`, and both directions of the YAML form;
--     Templates     `expandValue`, `expandCommand`, `expandLaunch`, `expandFields`, on the values of
--                   `templateValues`; Libraries holds what they take from libraries;
--     Roots         `watchRoot`, `expandGlob`, and the roots that `Load` keeps;
--     Sources       what `Load` reads, takes from outside and answers with, and what an app starts with;
--     Load          `Load`, from the files to a snapshot;
--     Glob          `matchGlob`, with `filepath.Match` and `filepath.Clean` as parameters.
--   Execution     `actionOutput`, `Expectation.matches`, `Action.execute`, and in Attempt the verdicts of
--                 `Action.attempt` on what the system answers.
--   Protocol      the telemetry `Event` of a worker, `WriteEvent`, `ParseEvent`, `parseFields`, `validValue`.
--                 `strconv.FormatInt` prints on fuel: the number itself is more than its digits.
--   Resources     `ResourceLimits.blocked`, the gate in front of pressure growth.
--   Watcher       `RestartRule.matches`, and the loop of `Watch` over events and rounds.
--   Manager       `manager`, the event loop, with its processes, services, cycles and hooks:
--     State         the structs `process`, `service`, `appCycle`, `actionScope`, `actionRun`, `manager`;
--     Pressure      `observePressure`, `evaluate`, `backoff`; Floats is the arithmetic that they use;
--     Hooks         `phase`, `cancelPhase`, `cancelChecks`, and what `actionResult` writes to a run;
--     Dependencies  `dependenciesReady`;
--     Lifecycle     `lifecycle`, `stop`, `signalStop`;
--     Messages      `handle` and `actionResult`;
--     Launch        `spawn`, and the writes of `startProcess`;
--     Tick          `tick` and `scheduleDue`: Supervise, Demand, Pool, Shutdown, composed in Turn;
--     Apply         `apply`, `restart`, `closeListener`;
--     Loop          the loop of `run`, and `shutdown`.
--   The modules named Progress prove that each operation advances the table of processes, as
--   Lifecycle/Evolution defines it; Loop/Reach puts them together for a run of any length.
--
-- Fuel:
--   * `watchRoot` climbs on two calls more than the path has characters: each parent is shorter than
--     its path, or its own parent.
--   * `validateDependencies` searches on one call more than there are apps, since each call marks one.
--
-- Not modelled: what the YAML library does (`read` is a parameter of `Load`) and what templates
-- evaluate to; the arithmetic of `float64`, a parameter (Manager/Floats) of which one theorem
-- supposes that a part of a whole is at most 1; the start of a process, the request and the
-- connection of an action, of which the answers are parameters; the library that watches files, the
-- sampler, the poller and its listeners, process containment (job_linux.go, job_windows.go), the
-- Windows service manager (scm_windows.go) and the tool in golang_patch/: they are I/O around the
-- loop, which sees their outcome as an input or an answer of `World`. A process without a scope or
-- a cycle, which only the repository's tests build, is left out. The error that `run` returns, and
-- its set-up before the loop, are left out too.
pub mod Prelude
pub mod Schedule
pub mod Config
pub mod Protocol
pub mod Resources
pub mod Execution
pub mod Watcher
pub mod Manager
