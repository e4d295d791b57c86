-- ===== src/Stream/Phases/Responses.antt =====
-- The callbacks of a response move the view by steps.
use modsecurity_proxy_wasm.Base.{
  ◌≡◌, refl, ◌∙◌, Bool, true, false, not, List, [], ◌∷◌, arith, if-ind, pos,
}
use modsecurity_proxy_wasm.Text.{Bytes}
use modsecurity_proxy_wasm.Http.{modsec_http_protocol}
use modsecurity_proxy_wasm.Stream.{
  Root, Host, is_some, add_response_header, process_response_headers, append_response_body,
  FilterStatus, stop_iteration, request_body_phase, response_headers_phase, response_body_phase,
}
use modsecurity_proxy_wasm.Stream.Record.{State, call_engine}
use modsecurity_proxy_wasm.Stream.Interrupt.{
  unless_blocked, log_and_continue, run_request_body_phase, finalize_response_body_phase,
}
use modsecurity_proxy_wasm.Stream.Request.{value_or}
use modsecurity_proxy_wasm.Stream.Response.{
  ResponseInfo, note_response_header, add_response_headers, catch_up_request_body, finalize_headers,
  finish_response_headers, read_response_headers, on_response_headers, response_needs_body_buffer,
}
use modsecurity_proxy_wasm.Stream.Phases.{View, view, Steps, here, trans}
use modsecurity_proxy_wasm.Stream.Phases.Frame.{call_engine-quiet}
use modsecurity_proxy_wasm.Stream.Phases.Handlers.{
  Steps-same, Steps-has, run_logging-Steps, run_request-Steps, finalize-Steps, Near-Steps,
  unless_blocked-Steps,
}

module _ (r : Root) (h : Host) where
  -- A function that keeps to the steps on a stream with a transaction.
  abbrev Keeps : (State r → FilterStatus × State r) → Type 0
  Keeps f = (w : State r) → (view w).has_transaction ≡ true → Steps (view w) (view (f w).1)

  -- What follows a part that keeps to the steps, unless the engine interrupts.
  chain-Steps :
      {p : View} (phase : Bytes) (go : State r → FilterStatus × State r) (w : State r)
      → p.has_transaction ≡ true
      → Steps p (view w)
      → Keeps go
      → Steps p (view (unless_blocked r h phase stop_iteration go w).1)
  chain-Steps phase go w has s k = unless_blocked-Steps r h phase stop_iteration go w s λ v near.
      let before = trans s (Near-Steps r h near) in trans before (k v (Steps-has before has))

  log_and_continue-Keeps : Keeps (log_and_continue r h)
  unfolding log_and_continue
  log_and_continue-Keeps w has = run_logging-Steps r h w has

  catch_up_request_body-Keeps :
      (go : State r → FilterStatus × State r) → Keeps go → Keeps (catch_up_request_body r h go)
  unfolding catch_up_request_body
  catch_up_request_body-Keeps go k w has =
      if-ind (λ (x : FilterStatus × State r). Steps (view w) (view x.1)) w.request_body_processed
        (λ _. k w has)
        (λ n.
          chain-Steps request_body_phase go (run_request_body_phase r h w) has
            (run_request-Steps r h w (record { has = has; not_done = n })) k)

  finalize_headers-Keeps : Keeps (finalize_headers r h)
  unfolding finalize_headers
  finalize_headers-Keeps w has =
      chain-Steps response_body_phase (log_and_continue r h) (finalize_response_body_phase r h w)
        has (finalize-Steps r h w has) log_and_continue-Keeps

  finish_response_headers-Keeps :
      (eos : Bool) (i : ResponseInfo) → Keeps (finish_response_headers r h eos i)
  unfolding finish_response_headers
  finish_response_headers-Keeps eos i w has =
      let c = append_response_body (0 ∷ []) in
      if-ind (λ (x : FilterStatus × State r). Steps (view w) (view x.1))
        (response_needs_body_buffer eos i) (λ _. here)
        (λ _.
          chain-Steps response_body_phase (finalize_headers r h) (call_engine r h c w) has
            (Steps-same (call_engine-quiet r h c w refl refl refl)) finalize_headers-Keeps)

  pub add_response_headers-view :
      (pairs : List (Bytes × Bytes)) (i : ResponseInfo) (w : State r)
      → view (add_response_headers r h pairs i w).1 ≡ view w
  unfolding add_response_headers
  add_response_headers-view [] i w = refl
  add_response_headers-view ((name, value) ∷ pairs) i w =
      let c = add_response_header name value in
      add_response_headers-view pairs (note_response_header name value i) (call_engine r h c w)
      ∙ call_engine-quiet r h c w refl refl refl

  read_response_headers-Keeps : (eos : Bool) → Keeps (read_response_headers r h eos)
  unfolding read_response_headers
  read_response_headers-Keeps eos w has =
      let pairs = value_or h.response_header_pairs [] in
      let none_yet : ResponseInfo = record {
        body_size = 0;
        chunked = false;
        status_code = pos 200;
      } in
      let i = (add_response_headers r h pairs none_yet w).0 in
      let added = (add_response_headers r h pairs none_yet w).1 in
      let c =
        process_response_headers i.status_code (modsec_http_protocol added.http_version_token) in
      chain-Steps response_headers_phase (finish_response_headers r h eos i)
        (call_engine r h c added) has
        (Steps-same (
          call_engine-quiet r h c added refl refl refl
          ∙ add_response_headers-view pairs none_yet w))
        (finish_response_headers-Keeps eos i)

  pub on_response_headers-Steps :
      (eos : Bool) (w : State r) → Steps (view w) (view (on_response_headers r h eos w).1)
  unfolding on_response_headers
  on_response_headers-Steps eos w =
      let active = record w { is_active = true } in
      if-ind (λ (x : FilterStatus × State r). Steps (view w) (view x.1))
        (not (is_some w.transaction)) (λ _. here)
        λ n.
          let has : is_some w.transaction ≡ true = ground arith in
          catch_up_request_body-Keeps (read_response_headers r h eos)
            (read_response_headers-Keeps eos) active has
