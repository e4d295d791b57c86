-- ===== src/Stream/Phases/Life.antt =====
-- The life of a stream, from `onCreate` to `onDelete`: which phases have run when it ends.
use modsecurity_proxy_wasm.Base.{◌≡◌, true, List, [], ◌∷◌, if-ind, if◌then◌else◌}
use modsecurity_proxy_wasm.Stream.{Root, Host, is_some, request_body_phase, response_body_phase}
use modsecurity_proxy_wasm.Stream.Record.{State}
use modsecurity_proxy_wasm.Stream.Interrupt.{
  run_logging_phase_if_needed, run_request_body_phase, finalize_response_body_phase,
}
use modsecurity_proxy_wasm.Stream.Events.{
  Callback, request_body, request_trailers, response_headers, response_body, response_trailers, log,
  on_log, finish_request, finish_response, finish_phases, handle, handle_all,
}
use modsecurity_proxy_wasm.Stream.Phases.{view, Steps, here, trans}
use modsecurity_proxy_wasm.Stream.Phases.Frame.{maybe_annotate_export-view}
use modsecurity_proxy_wasm.Stream.Phases.Handlers.{
  Steps-has, trans_same, run_logging-Steps, run_request-Steps, finalize-Steps, process-Near,
  Near-Steps,
}
use modsecurity_proxy_wasm.Stream.Phases.Requests.{on_request_body-Steps, on_request_trailers-Steps}
use modsecurity_proxy_wasm.Stream.Phases.Responses.{on_response_headers-Steps}
use modsecurity_proxy_wasm.Stream.Phases.Bodies.{on_response_body-Steps, on_response_trailers-Steps}

module _ (r : Root) where
  on_log-Steps : (h : Host) (w : State r) → Steps (view w) (view (on_log r h w))
  unfolding on_log
  on_log-Steps h w =
      let logged =
        if is_some w.transaction
        then run_logging_phase_if_needed r h (record w { is_active = true })
        else w in
      trans_same
        (if-ind (λ (x : State r). Steps (view w) (view x)) (is_some w.transaction)
          (λ has. run_logging-Steps r h (record w { is_active = true }) has) (λ _. here))
        (maybe_annotate_export-view r h logged)

  handle-Steps : (h : Host) (c : Callback) (w : State r) → Steps (view w) (view (handle r h c w))
  unfolding handle
  handle-Steps h (request_body size eos) w = on_request_body-Steps r h size eos w
  handle-Steps h request_trailers w = on_request_trailers-Steps r h w
  handle-Steps h (response_headers eos) w = on_response_headers-Steps r h eos w
  handle-Steps h (response_body size eos) w = on_response_body-Steps r h size eos w
  handle-Steps h response_trailers w = on_response_trailers-Steps r h w
  handle-Steps h log w = on_log-Steps h w

  pub handle_all-Steps :
      (cs : List (Host × Callback)) (w : State r) → Steps (view w) (view (handle_all r cs w))
  unfolding handle_all
  handle_all-Steps [] w = here
  handle_all-Steps ((h, c) ∷ cs) w =
      trans (handle-Steps h c w) (handle_all-Steps cs (handle r h c w))

  pub finish_request-Steps :
      (h : Host) (w : State r)
      → (view w).has_transaction ≡ true
      → Steps (view w) (view (finish_request r h w))
  unfolding finish_request
  finish_request-Steps h w has =
      let ran = run_request_body_phase r h w in
      if-ind (λ (x : State r). Steps (view w) (view x)) w.request_body_processed (λ _. here)
        λ f.
          trans (run_request-Steps r h w (record { has = has; not_done = f }))
            (Near-Steps r h (process-Near r h request_body_phase ran))

  pub finish_response-Steps :
      (h : Host) (w : State r)
      → (view w).has_transaction ≡ true
      → Steps (view w) (view (finish_response r h w))
  unfolding finish_response
  finish_response-Steps h w has =
      let final = finalize_response_body_phase r h w in
      if-ind (λ (x : State r). Steps (view w) (view x)) w.response_body_processed (λ _. here)
        λ _.
          trans (finalize-Steps r h w has)
            (Near-Steps r h (process-Near r h response_body_phase final))

  pub finish_phases-Steps :
      (h : Host) (w : State r)
      → (view w).has_transaction ≡ true
      → Steps (view w) (view (finish_phases r h w))
  unfolding finish_phases
  finish_phases-Steps h w has =
      let asked = finish_request r h (record w { is_active = true }) in
      let answered = finish_response r h asked in
      let logged = run_logging_phase_if_needed r h answered in
      let first = finish_request-Steps h (record w { is_active = true }) has in
      let second = trans first (finish_response-Steps h asked (Steps-has first has)) in
      let third = trans second (run_logging-Steps r h answered (Steps-has second has)) in
      trans_same third (maybe_annotate_export-view r h logged)
