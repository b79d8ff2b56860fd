-- ===== src/Manager/Messages/Progress.antt =====
-- `handle` advances the process table, whatever the message.
use ooth.Prelude.{
  ℕ, ◌<◌, ◌≡◌, refl, sym, ◌∙◌, Bool, List, [], ◌∷◌, arith, Option, some, none, get_elem?,
  if◌then◌else◌,
}
use ooth.Prelude.Signed.{ℤ}
use ooth.Prelude.Texts.{Text, codes, text_eq}
use ooth.Protocol.Wire.{WireEvent}
use ooth.Schedule.Times.{Time}
use ooth.Manager.State.{Event, Scope, worker_scope, app_scope, Process, Manager, Run, with_process}
use ooth.Manager.Lifecycle.{World, observe_service}
use ooth.Manager.Lifecycle.Evolution.{
  Evolves, Advances-refl, Advances-trans, Advances-same, Advances-process, Steps, Steps-if,
}
use ooth.Manager.Lifecycle.Progress.{retire-table, lifecycle-Advances, stop-Advances}
use ooth.Manager.Messages.{
  Message, action_done, poll_failed, polled, worker, News, exited, probed, handshake, stream_failed,
  telemetry, fail, stop_failed, stop_current, each, run_list, stop_scope, store_run, conclude,
  action_result, listener_event, request_start, request_end, replace_exited, mark_exited,
  handle_exit, mark_probed, mark_handshake, handle_handshake, begin_request, end_request,
  handle_event, handle_news, listener_events, handle,
}

fail-Evolves : (c : Process) → Evolves c (fail c)
fail-Evolves c = ground arith

mark_exited-Evolves : (code : Option ℤ) (c : Process) → Evolves c (mark_exited code c)
mark_exited-Evolves code c = ground arith

mark_probed-Evolves :
    (passed : Bool) (now : Time) (c : Process) → Evolves c (mark_probed passed now c)
mark_probed-Evolves passed now c = ground arith

mark_handshake-Evolves :
    (protocol : Bool) (now : Time) (c : Process) → Evolves c (mark_handshake protocol now c)
mark_handshake-Evolves protocol now c = ground arith

begin_request-Evolves : (id : Text) (now : Time) (c : Process) → Evolves c (begin_request id now c)
begin_request-Evolves id now c = ground arith

end_request-Evolves : (id : Text) (now : Time) (c : Process) → Evolves c (end_request id now c)
end_request-Evolves id now c = ground arith

-- A loop advances when its body does.
pub each-Advances :
    (l : List ℕ) (body : ℕ → Manager → Manager) (m : Manager)
    → ((p : ℕ) (n : Manager) → Steps n (body p n))
    → Steps m (each l body m)
unfolding each
each-Advances [] body m step = Advances-refl m.table
each-Advances (p ∷ ps) body m step =
    Advances-trans (step p m) (each-Advances ps body (body p m) step)

replace_exited-table : (p : ℕ) (now : Time) (m : Manager) → (replace_exited p now m).table ≡ m.table
unfolding replace_exited
replace_exited-table p now m = ground arith

listener_event-table :
    (now : Time) (e : ℕ × Bool) (m : Manager) → (listener_event now e m).table ≡ m.table
unfolding listener_event
listener_event-table now (id, failed) m = ground arith

listener_events-table :
    (now : Time) (l : List (ℕ × Bool)) (m : Manager) → (listener_events now l m).table ≡ m.table
unfolding listener_events
listener_events-table now [] m = refl
listener_events-table now (e ∷ es) m =
    listener_events-table now es (listener_event now e m) ∙ listener_event-table now e m

module _ (world : World) (now : Time) (positive : 0 < now) where
  pub stop_failed-Advances : (p : ℕ) (m : Manager) → Steps m (stop_failed world p now m)
  unfolding stop_failed
  stop_failed-Advances p m =
      Advances-trans (Advances-process p fail m (fail-Evolves (m.table.process p)))
        (stop-Advances world p now positive (with_process p fail m))

  pub stop_current-Advances : (p : ℕ) (m : Manager) → Steps m (stop_current world now p m)
  unfolding stop_current
  stop_current-Advances p m =
      Steps-if m _ (stop_failed world p now m) m (λ h. stop_failed-Advances p m)
        (λ h. Advances-refl m.table)

  stop_scope-Advances : (s : Scope) (m : Manager) → Steps m (stop_scope world s now m)
  unfolding stop_scope
  stop_scope-Advances (worker_scope p) m = stop_current-Advances p m
  stop_scope-Advances (app_scope c) m =
      each-Advances (m.cycle c).members (stop_current world now) m stop_current-Advances

  conclude-Advances :
      (s : Scope) (e : Event) (index : ℕ) (succeeded : Bool) (o : Option Run) (m : Manager)
      → Steps m (conclude world s e index succeeded now o m)
  unfolding conclude store_run
  conclude-Advances s e index succeeded none m = Advances-refl m.table
  conclude-Advances s e index succeeded (some old) m =
      Steps-if m _ (stop_scope world s now _) _ (λ h. stop_scope-Advances s _)
        (λ h. Advances-refl m.table)

  action_result-Advances :
      (s : Scope) (e : Event) (index : ℕ) (succeeded : Bool) (m : Manager)
      → Steps m (action_result world s e index succeeded now m)
  unfolding action_result
  action_result-Advances s e index succeeded m =
      conclude-Advances s e index succeeded (get_elem? (run_list s e m) index) m

  handle_exit-Advances :
      (p : ℕ) (code : Option ℤ) (cleanup_failed : Bool) (m : Manager)
      → Steps m (handle_exit world p code cleanup_failed now m)
  unfolding handle_exit
  handle_exit-Advances p code cleanup_failed m =
      Advances-trans
        (Advances-process p (mark_exited code) m (mark_exited-Evolves code (m.table.process p)))
        (Advances-trans
          (Advances-same _ _
            (sym (retire-table (m.table.process p).cycle _ ∙ replace_exited-table p now _)))
          (lifecycle-Advances world p now _))

  handle_handshake-Advances :
      (p : ℕ) (protocol : Bool) (m : Manager) → Steps m (handle_handshake world p protocol now m)
  unfolding handle_handshake
  handle_handshake-Advances p protocol m =
      Advances-trans
        (Advances-process p (mark_handshake protocol now) m
          (mark_handshake-Evolves protocol now (m.table.process p)))
        (Steps-if (with_process p (mark_handshake protocol now) m) _ (stop_failed world p now _) _
          (λ h. stop_failed-Advances p _) (λ h. Advances-refl _))

  request_start-Advances :
      (p : ℕ) (id : Text) (m : Manager) → Steps m (request_start world p id now m)
  unfolding request_start
  request_start-Advances p id m =
      Steps-if m _ (stop_failed world p now m) (with_process p (begin_request id now) m)
        (λ h. stop_failed-Advances p m)
        (λ h.
          Advances-process p (begin_request id now) m
            (begin_request-Evolves id now (m.table.process p)))

  request_end-Advances : (p : ℕ) (id : Text) (m : Manager) → Steps m (request_end world p id now m)
  unfolding request_end
  request_end-Advances p id m =
      Steps-if m _ (stop_failed world p now m) (with_process p (end_request id now) m)
        (λ h. stop_failed-Advances p m)
        (λ h.
          Advances-process p (end_request id now) m
            (end_request-Evolves id now (m.table.process p)))

  handle_event-Advances :
      (p : ℕ) (event : WireEvent) (m : Manager) → Steps m (handle_event world p event now m)
  unfolding handle_event
  handle_event-Advances p event m =
      let starts = text_eq event.type (codes "start") in
      let ends = text_eq event.type (codes "end") in
      let last = if ends then request_end world p event.id now m else m in
      let later = if starts then request_start world p event.id now m else last in
      Steps-if m (text_eq event.type (codes "ready")) (stop_failed world p now m) later
        (λ h. stop_failed-Advances p m)
        (λ h.
          Steps-if m starts (request_start world p event.id now m) last
            (λ h. request_start-Advances p event.id m)
            (λ h.
              Steps-if m ends (request_end world p event.id now m) m
                (λ h. request_end-Advances p event.id m) (λ h. Advances-refl m.table)))

  handle_news-Advances :
      (p : ℕ) (news : News) (m : Manager) → Steps m (handle_news world p news now m)
  unfolding handle_news
  handle_news-Advances p (exited code cleanup_failed) m =
      handle_exit-Advances p code cleanup_failed m
  handle_news-Advances p (probed passed) m =
      Advances-process p (mark_probed passed now) m
        (mark_probed-Evolves passed now (m.table.process p))
  handle_news-Advances p (handshake protocol) m = handle_handshake-Advances p protocol m
  handle_news-Advances p stream_failed m =
      Steps-if m _ (stop_failed world p now m) m (λ h. stop_failed-Advances p m)
        (λ h. Advances-refl m.table)
  handle_news-Advances p (telemetry event) m = handle_event-Advances p event m

  -- `handle` advances the table, whatever the message.
  pub handle-Advances : (message : Message) (m : Manager) → Steps m (handle world message now m)
  unfolding handle observe_service
  handle-Advances (action_done s e index succeeded) m = action_result-Advances s e index succeeded m
  handle-Advances poll_failed m = Advances-refl m.table
  handle-Advances (polled events) m = Advances-same _ _ (sym (listener_events-table now events m))
  handle-Advances (worker p news) m =
      Steps-if m _ (observe_service world _ now (handle_news world p news now m)) m
        (λ h. handle_news-Advances p news m) (λ h. Advances-refl m.table)
