-- ===== src/Stream/Events.antt =====
-- src/modsecurity_proxy_wasm.cc: the end of a stream, and whole streams as lists of callbacks.
use modsecurity_proxy_wasm.Base.{ℕ, Bool, true, false, not, List, [], ◌∷◌, none, if◌then◌else◌}
use modsecurity_proxy_wasm.Metrics.{Metrics, count_tx_allowed}
use modsecurity_proxy_wasm.Stream.{
  Root, Host, is_some, delete_transaction, emit, created, on_create, request_body_phase,
  response_body_phase,
}
use modsecurity_proxy_wasm.Stream.Record.{State, maybe_annotate_export}
use modsecurity_proxy_wasm.Stream.Interrupt.{
  run_logging_phase_if_needed, run_request_body_phase, process_intervention,
  finalize_response_body_phase,
}
use modsecurity_proxy_wasm.Stream.Body.{on_request_body, on_request_trailers}
use modsecurity_proxy_wasm.Stream.Request.{on_request_headers}
use modsecurity_proxy_wasm.Stream.Response.{
  on_response_headers, on_response_body, on_response_trailers,
}

-- The callbacks of a stream behind `onRequestHeaders`, in any order and as often as they come.
pub data Callback : Type 0 where
  request_body : ℕ → Bool → Callback
  request_trailers : Callback
  response_headers : Bool → Callback
  response_body : ℕ → Bool → Callback
  response_trailers : Callback
  log : Callback

module _ (r : Root) where
  -- `onLog`
  unfoldable pub on_log : Host → State r → State r
  on_log h w =
      let logged =
        if is_some w.transaction
        then run_logging_phase_if_needed r h (record w { is_active = true })
        else w in
      maybe_annotate_export r h logged

  unfoldable pub finish_request : Host → State r → State r
  finish_request h w =
      if w.request_body_processed
      then w
      else (process_intervention r h request_body_phase (run_request_body_phase r h w)).1

  unfoldable pub finish_response : Host → State r → State r
  finish_response h w =
      if w.response_body_processed
      then w
      else (process_intervention r h response_body_phase (finalize_response_body_phase r h w)).1

  -- The phases that no callback ran, on a stream with a transaction.
  unfoldable pub finish_phases : Host → State r → State r
  finish_phases h w = maybe_annotate_export r h (
      run_logging_phase_if_needed r h
        (finish_response h (finish_request h (record w { is_active = true }))))

  -- `onDelete`; the context stops being the active one, if it was.
  unfoldable pub on_delete : Host → State r → State r
  on_delete h w =
      let finished = finish_phases h w in
      let counted =
        if not finished.interrupted
        then record finished { metrics = count_tx_allowed h.metric finished.metrics }
        else finished in
      if is_some w.transaction
      then record (emit delete_transaction counted) { is_active = false; transaction = none }
      else record w { is_active = false }

  unfoldable pub handle : Host → Callback → State r → State r
  handle h (request_body size eos) w = (on_request_body r h size eos w).1
  handle h request_trailers w = (on_request_trailers r h w).1
  handle h (response_headers eos) w = (on_response_headers r h eos w).1
  handle h (response_body size eos) w = (on_response_body r h size eos w).1
  handle h response_trailers w = (on_response_trailers r h w).1
  handle h log w = on_log h w

  unfoldable pub handle_all : List (Host × Callback) → State r → State r
  handle_all [] w = w
  handle_all ((h, c) ∷ cs) w = handle_all cs (handle h c w)

  -- A stream up to its last callback before `onDelete`.
  unfoldable pub stream : Host → Bool → List (Host × Callback) → Metrics → State r
  stream h end_of_stream cs m =
      handle_all cs (on_request_headers r h end_of_stream (on_create (created m))).1
