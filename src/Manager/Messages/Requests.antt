-- ===== src/Manager/Messages/Requests.antt =====
-- The requests that a worker reports: one that starts and ends leaves none.
use ooth.Prelude.{ℕ, ◌<◌, ◌≡◌, refl, ◌∙◌, true, false, none, some, List, ==_iff, arith, is_empty}
use ooth.Prelude.Texts.{Text, text_eq_iff, text_eq_refl}
use ooth.Prelude.Maps.{lookup, insert, remove, lookup-insert, lookup-remove}
use ooth.Schedule.Times.{Time}
use ooth.Manager.State.{Process, Manager, with_process}
use ooth.Manager.Lifecycle.{World}
use ooth.Manager.Messages.{active_since, begin_request, end_request, request_start, request_end}

-- A worker that may report the start of this request: it speaks the protocol, and the request, whose
-- identifier is not empty, is not active.
pub record MayStart (id : Text) (c : Process) : Type 0 where
  pub speaks : c.telemetry ≡ true
  pub named : is_empty id ≡ false
  pub absent : lookup id c.active ≡ none

active_since-lookup :
    (id : Text) (c : Process)
    → ((lookup id c.active ≡ none) → active_since id c ≡ 0)
      × ((t : Time) → lookup id c.active ≡ some t → active_since id c ≡ t)
unfolding active_since
active_since-lookup id c = (λ e. rw (active_since, e) refl, λ t e. rw (active_since, e) refl)

request_start-begins :
    (world : World) (p : ℕ) (id : Text) (now : Time) (m : Manager)
    → MayStart id (m.table.process p)
    → request_start world p id now m ≡ with_process p (begin_request id now) m
unfolding request_start
request_start-begins world p id now m s =
    ground (arith, s.speaks, s.named, (active_since-lookup id (m.table.process p)).0 s.absent)

request_end-ends :
    (world : World) (p : ℕ) (id : Text) (now since : Time) (m : Manager)
    → lookup id (m.table.process p).active ≡ some since
    → 0 < since
    → request_end world p id now m ≡ with_process p (end_request id now) m
unfolding request_end
request_end-ends world p id now since m found positive =
    ground (arith, (active_since-lookup id (m.table.process p)).1 since found)

requests_kept :
    (id j : Text) (now : Time) (l : List (Text × Time))
    → lookup id l ≡ none
    → lookup j (remove id (insert id now l)) ≡ lookup j l
requests_kept id j now l absent = ground (
  arith,
  lookup-remove id j (insert id now l),
  lookup-insert id j now l,
  text_eq_iff id j,
  absent,
)

-- A request that a worker may start, and that it starts after the zero time and then ends, leaves the
-- worker's active requests and their times as they were, and neither report stops the worker.
pub request_end-request_start :
    (world : World) (p : ℕ) (id j : Text) (now later : Time) (m : Manager)
    → 0 < now
    → MayStart id (m.table.process p)
    → let n = request_end world p id later (request_start world p id now m) in
      (lookup j (n.table.process p).active ≡ lookup j (m.table.process p).active)
      × ((n.table.process p).stopping ≡ (m.table.process p).stopping)
request_end-request_start world p id j now later m positive s =
    rw (request_start-begins world p id now m s) (
      rw (request_end-ends world p id later now begun found positive) (
        rw ((==_iff p p).1 refl)
          (requests_kept id j now (m.table.process p).active s.absent, refl)))
  where
    begun : Manager
    begun = with_process p (begin_request id now) m

    found : lookup id (begun.table.process p).active ≡ some now
    found =
        rw ((==_iff p p).1 refl)
          (lookup-insert id id now (m.table.process p).active ∙ rw (text_eq_refl id) refl)
