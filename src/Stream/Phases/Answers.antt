-- ===== src/Stream/Phases/Answers.antt =====
-- The status that a callback returns, against the local replies that it sends.
use mathlib.Core.Path.{subst}
use modsecurity_proxy_wasm.Base.{
  ℕ, ◌+◌, ◌≡◌, refl, ◌∙◌, ap, ◌⊎◌, inl, inr, Bool, true, false, not, ◌||◌, [], ◌∷◌, arith, if-ind,
  Option-cases, is_zero, pos,
}
use modsecurity_proxy_wasm.Text.{Bytes}
use modsecurity_proxy_wasm.Http.{modsec_http_protocol}
use modsecurity_proxy_wasm.Stream.{
  Root, Host, Stream, is_some, process_request_headers, process_response_headers,
  append_response_body, FilterStatus, continue, stop_iteration, request_headers_phase,
  request_body_phase, response_headers_phase, response_body_phase,
}
use modsecurity_proxy_wasm.Stream.Record.{State, call_engine}
use modsecurity_proxy_wasm.Stream.Interrupt.{
  process_intervention, unless_blocked, log_and_continue, run_request_body_phase,
  run_logging_phase_if_needed, finalize_response_body_phase, log_request_body_processor_errors,
}
use modsecurity_proxy_wasm.Stream.Body.{
  append_buffered_request_body, on_request_trailers, end_request_body,
}
use modsecurity_proxy_wasm.Stream.Request.{
  HeaderInfo, needs_body_buffer, identify, inspect_request_headers, run_request_headers,
  begin_transaction, connect, send_uri, read_request_headers, finish_request_headers,
  on_request_headers, value_or,
}
use modsecurity_proxy_wasm.Stream.Response.{
  ResponseInfo, add_response_headers, catch_up_request_body, finalize_headers,
  finish_response_headers, read_response_headers, on_response_headers, response_needs_body_buffer,
}
use modsecurity_proxy_wasm.Stream.Phases.{View, view}
use modsecurity_proxy_wasm.Stream.Phases.Frame.{
  call_engine-quiet, process_intervention-Asked, send_block_local_response-view,
  run_request_body_phase-view, finalize_response_body_phase-view, run_logging_phase_if_needed-view,
}
use modsecurity_proxy_wasm.Stream.Phases.Requests.{
  read_request_headers-view, connect-view, send_uri-view, begin_transaction-view,
  append_buffered_request_body-view,
}
use modsecurity_proxy_wasm.Stream.Phases.Responses.{add_response_headers-view}

abbrev replies_of : View → ℕ
replies_of p = p.replies

-- From `n` replies on: either the callback continues and sends none, or it returns `stop` and has
-- sent one.
abbrev pub Answers : {Tx : Type 0} → FilterStatus → ℕ → FilterStatus × Stream Tx → Type 0
Answers stop n (st, w) =
    ((st ≡ continue) × ((view w).replies ≡ n)) ⊎ ((st ≡ stop) × ((view w).replies ≡ n + 1))

module _ (r : Root) (h : Host) where
  asked-replies :
      (phase : Bytes) (w : State r)
      → (view (process_intervention r h phase w).1).replies ≡ (view w).replies
  asked-replies phase w = elim (process_intervention-Asked r h phase w) [
    | inl (z, e) ↦ ap replies_of e
    | inr e ↦ ap replies_of e
  ]

  unless_blocked-Answers :
      (stop : FilterStatus) (phase : Bytes) (go : State r → FilterStatus × State r) (w : State r)
      {n : ℕ}
      → (view w).replies ≡ n
      → ((w' : State r) → Answers stop (view w').replies (go w'))
      → Answers stop n (unless_blocked r h phase stop go w)
  unfolding unless_blocked
  unless_blocked-Answers stop phase go w {n} same k =
      let st = (process_intervention r h phase w).0 in
      let w' = (process_intervention r h phase w).1 in
      let asked = asked-replies phase w ∙ same in
      if-ind (λ (x : FilterStatus × State r). Answers stop n x) (is_zero st)
        (λ _. subst (λ m. Answers stop m (go w')) asked (k w'))
        (λ _.
          inr (
            refl,
            ap replies_of (send_block_local_response-view r h st w') ∙ ap (λ m. m + 1) asked,
          ))

  log_and_continue-Answers :
      (stop : FilterStatus) (w : State r) → Answers stop (view w).replies (log_and_continue r h w)
  unfolding log_and_continue run_logging_phase_if_needed
  log_and_continue-Answers stop w = elim (Option-cases w.transaction) [
    | inl e ↦ inl (refl, ground arith)
    | inr (tx, e) ↦ inl (refl, ground (arith, run_logging_phase_if_needed-view r h w e))
  ]

  run_request_body_phase-replies :
      (w : State r) → (view (run_request_body_phase r h w)).replies ≡ (view w).replies
  unfolding run_request_body_phase call_engine log_request_body_processor_errors
  run_request_body_phase-replies w = elim (Option-cases w.transaction) [
    | inl e ↦ ground arith
    | inr (tx, e) ↦ ap replies_of (run_request_body_phase-view r h w e)
  ]

  finalize_response_body_phase-replies :
      (w : State r) → (view (finalize_response_body_phase r h w)).replies ≡ (view w).replies
  unfolding finalize_response_body_phase
  finalize_response_body_phase-replies w = elim (Option-cases w.transaction) [
    | inl e ↦ ground arith
    | inr (tx, e) ↦ ground (arith, finalize_response_body_phase-view r h w e)
  ]

  -- Phase 2, and the answer to it.
  phase_two-Answers :
      (stop : FilterStatus) (w ran : State r)
      → (view ran).replies ≡ (view (run_request_body_phase r h w)).replies
      → Answers stop
          (view w).replies
          (unless_blocked r h request_body_phase stop (log_and_continue r h) ran)
  phase_two-Answers stop w ran e =
      unless_blocked-Answers stop request_body_phase (log_and_continue r h) ran
        (e ∙ run_request_body_phase-replies w) (log_and_continue-Answers stop)

  finish_request_headers-Answers :
      (eos : Bool) (i : HeaderInfo) (w : State r)
      → Answers stop_iteration (view w).replies (finish_request_headers r h eos i w)
  unfolding finish_request_headers
  finish_request_headers-Answers eos i w =
      if-ind (Answers stop_iteration (view w).replies) (needs_body_buffer eos i w.method)
        (λ _. inl (refl, refl))
        (λ _. phase_two-Answers stop_iteration w (run_request_body_phase r h w) refl)

  run_request_headers-Answers :
      (eos : Bool) (i : HeaderInfo) (w : State r)
      → Answers stop_iteration (view w).replies (run_request_headers r h eos i w)
  unfolding run_request_headers
  run_request_headers-Answers eos i w =
      unless_blocked-Answers stop_iteration request_headers_phase (finish_request_headers r h eos i)
        (call_engine r h process_request_headers w)
        (ap replies_of (call_engine-quiet r h process_request_headers w refl refl refl))
        (finish_request_headers-Answers eos i)

  inspect_request_headers-Answers :
      (eos : Bool) (w : State r)
      → Answers stop_iteration (view w).replies (inspect_request_headers r h eos w)
  unfolding inspect_request_headers
  inspect_request_headers-Answers eos w =
      let i = (read_request_headers r h w).0 in
      unless_blocked-Answers stop_iteration request_headers_phase (run_request_headers r h eos i)
        (read_request_headers r h w).1 (ap replies_of (read_request_headers-view r h w))
        (run_request_headers-Answers eos i)

  identify-Answers :
      (eos : Bool) (w : State r) → Answers stop_iteration (view w).replies (identify r h eos w)
  unfolding identify
  identify-Answers eos w =
      unless_blocked-Answers stop_iteration request_headers_phase (inspect_request_headers r h eos)
        (send_uri r h w) (ap replies_of (send_uri-view r h w)) (inspect_request_headers-Answers eos)

  -- `onRequestHeaders` returns Continue and sends no local reply, or it returns StopIteration and
  -- sends exactly one.
  pub on_request_headers-Answers :
      (eos : Bool) (w : State r)
      → Answers stop_iteration (view w).replies (on_request_headers r h eos w)
  unfolding on_request_headers
  on_request_headers-Answers eos w =
      let begun = begin_transaction r h w in
      if-ind (Answers stop_iteration (view w).replies) r.ready
        (λ _.
          unless_blocked-Answers stop_iteration request_headers_phase (identify r h eos)
            (connect r h begun)
            (ap replies_of (connect-view r h begun) ∙ ap replies_of (begin_transaction-view r h w))
            (identify-Answers eos))
        (λ _. inl (refl, refl))

  -- `onRequestTrailers` returns Continue and sends no local reply, or it returns StopIteration and
  -- sends exactly one.
  pub on_request_trailers-Answers :
      (w : State r) → Answers stop_iteration (view w).replies (on_request_trailers r h w)
  unfolding on_request_trailers
  on_request_trailers-Answers w =
      let active = record w { is_active = true } in
      let appended = append_buffered_request_body r h active in
      if-ind (Answers stop_iteration (view w).replies)
        (not (is_some w.transaction) || w.request_body_processed) (λ _. inl (refl, refl))
        (λ _.
          subst (λ n. Answers stop_iteration n (end_request_body r h stop_iteration appended))
            (ap replies_of (append_buffered_request_body-view r h active))
            (phase_two-Answers stop_iteration appended
              (record (run_request_body_phase r h appended) { request_body_received = 0 }) refl))

  catch_up_request_body-Answers :
      (go : State r → FilterStatus × State r) (w : State r)
      → ((w' : State r) → Answers stop_iteration (view w').replies (go w'))
      → Answers stop_iteration (view w).replies (catch_up_request_body r h go w)
  unfolding catch_up_request_body
  catch_up_request_body-Answers go w k =
      if-ind (Answers stop_iteration (view w).replies) w.request_body_processed (λ _. k w)
        (λ _.
          unless_blocked-Answers stop_iteration request_body_phase go (run_request_body_phase r h w)
            (run_request_body_phase-replies w) k)

  finalize_headers-Answers :
      (w : State r) → Answers stop_iteration (view w).replies (finalize_headers r h w)
  unfolding finalize_headers
  finalize_headers-Answers w =
      unless_blocked-Answers stop_iteration response_body_phase (log_and_continue r h)
        (finalize_response_body_phase r h w) (finalize_response_body_phase-replies w)
        (log_and_continue-Answers stop_iteration)

  finish_response_headers-Answers :
      (eos : Bool) (i : ResponseInfo) (w : State r)
      → Answers stop_iteration (view w).replies (finish_response_headers r h eos i w)
  unfolding finish_response_headers
  finish_response_headers-Answers eos i w =
      let c = append_response_body (0 ∷ []) in
      if-ind (Answers stop_iteration (view w).replies) (response_needs_body_buffer eos i)
        (λ _. inl (refl, refl))
        (λ _.
          unless_blocked-Answers stop_iteration response_body_phase (finalize_headers r h)
            (call_engine r h c w) (ap replies_of (call_engine-quiet r h c w refl refl refl))
            finalize_headers-Answers)

  read_response_headers-Answers :
      (eos : Bool) (w : State r)
      → Answers stop_iteration (view w).replies (read_response_headers r h eos w)
  unfolding read_response_headers
  read_response_headers-Answers eos w =
      let pairs = value_or h.response_header_pairs [] in
      let none_yet : ResponseInfo = record {
        body_size = 0;
        chunked = false;
        status_code = pos 200;
      } in
      let i = (add_response_headers r h pairs none_yet w).0 in
      let added = (add_response_headers r h pairs none_yet w).1 in
      let c =
        process_response_headers i.status_code (modsec_http_protocol added.http_version_token) in
      unless_blocked-Answers stop_iteration response_headers_phase
        (finish_response_headers r h eos i) (call_engine r h c added)
        (ap replies_of (call_engine-quiet r h c added refl refl refl)
          ∙ ap replies_of (add_response_headers-view r h pairs none_yet w))
        (finish_response_headers-Answers eos i)

  -- `onResponseHeaders` returns Continue and sends no local reply, or it returns StopIteration and
  -- sends exactly one.
  pub on_response_headers-Answers :
      (eos : Bool) (w : State r)
      → Answers stop_iteration (view w).replies (on_response_headers r h eos w)
  unfolding on_response_headers
  on_response_headers-Answers eos w =
      if-ind (Answers stop_iteration (view w).replies) (not (is_some w.transaction))
        (λ _. inl (refl, refl))
        (λ _.
          catch_up_request_body-Answers (read_response_headers r h eos)
            (record w { is_active = true }) (read_response_headers-Answers eos))
