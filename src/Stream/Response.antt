-- ===== src/Stream/Response.antt =====
-- src/modsecurity_proxy_wasm.cc: the callbacks of a response.
use modsecurity_proxy_wasm.Base.{
  ℕ, ◌+◌, Bool, true, false, not, ◌&&◌, ◌||◌, List, [], ◌∷◌, none, some, if◌then◌else◌, ltb, length,
  ℤ, pos, is_zero,
}
use modsecurity_proxy_wasm.Text.{Bytes, codes, equal}
use modsecurity_proxy_wasm.Http.{
  status_may_have_body, header_name_equals, is_chunked_transfer_encoding, parse_content_length,
  parse_status, modsec_http_protocol,
}
use modsecurity_proxy_wasm.Stream.{
  Root, Host, is_some, http_response_body, add_response_header, process_response_headers,
  append_response_body, FilterStatus, continue, stop_iteration, stop_iteration_and_buffer,
  request_body_phase, response_headers_phase, response_body_phase,
}
use modsecurity_proxy_wasm.Stream.Record.{State, call_engine}
use modsecurity_proxy_wasm.Stream.Interrupt.{
  run_logging_phase_if_needed, log_and_continue, run_request_body_phase, unless_blocked,
  process_intervention, finalize_response_body_phase, sanitize_interrupted_response_body,
}
use modsecurity_proxy_wasm.Stream.Body.{new_bytes, append_buffered_response_body}
use modsecurity_proxy_wasm.Stream.Request.{value_or}

pub record ResponseInfo : Type 0 where
  pub body_size : ℕ
  pub chunked : Bool
  pub status_code : ℤ

unfoldable pub note_response_header : Bytes → Bytes → ResponseInfo → ResponseInfo
note_response_header name value i = record {
  body_size =
      if header_name_equals name (codes "content-length")
      then parse_content_length value
      else i.body_size;
  chunked =
      header_name_equals name (codes "transfer-encoding") && is_chunked_transfer_encoding value
      || i.chunked;
  status_code =
      if equal name (codes ":status") then parse_status i.status_code value else i.status_code;
}

abbrev pub response_needs_body_buffer : Bool → ResponseInfo → Bool
response_needs_body_buffer end_of_stream i =
    let has_known_body = ltb 0 i.body_size || i.chunked in
    let may_receive_body = status_may_have_body i.status_code && not end_of_stream in
    has_known_body || may_receive_body

module _ (r : Root) where
  unfoldable pub add_response_headers :
      Host → List (Bytes × Bytes) → ResponseInfo → State r → ResponseInfo × State r
  add_response_headers h [] i w = (i, w)
  add_response_headers h ((name, value) ∷ pairs) i w =
      add_response_headers h pairs (note_response_header name value i)
        (call_engine r h (add_response_header name value) w)

  -- Phase 2, if no earlier callback ran it.
  unfoldable pub catch_up_request_body :
      Host → (State r → FilterStatus × State r) → State r → FilterStatus × State r
  catch_up_request_body h next w =
      if w.request_body_processed
      then next w
      else unless_blocked r h request_body_phase stop_iteration next (run_request_body_phase r h w)

  unfoldable pub finalize_headers : Host → State r → FilterStatus × State r
  finalize_headers h w =
      unless_blocked r h response_body_phase stop_iteration (log_and_continue r h)
        (finalize_response_body_phase r h w)

  -- A response with no body runs phase 4 at once, on a single null byte.
  unfoldable pub finish_response_headers :
      Host → Bool → ResponseInfo → State r → FilterStatus × State r
  finish_response_headers h end_of_stream i w =
      if response_needs_body_buffer end_of_stream i
      then (continue, w)
      else unless_blocked r h response_body_phase stop_iteration (finalize_headers h)
          (call_engine r h (append_response_body (0 ∷ [])) w)

  -- Phase 3 and what follows it.
  unfoldable pub read_response_headers : Host → Bool → State r → FilterStatus × State r
  read_response_headers h end_of_stream w =
      let (i, added) =
        add_response_headers h (value_or h.response_header_pairs [])
          (record { body_size = 0; chunked = false; status_code = pos 200 }) w in
      unless_blocked r h response_headers_phase stop_iteration
        (finish_response_headers h end_of_stream i)
        (call_engine r h
          (process_response_headers i.status_code (modsec_http_protocol added.http_version_token))
          added)

  -- `onResponseHeaders`
  unfoldable pub on_response_headers : Host → Bool → State r → FilterStatus × State r
  on_response_headers h end_of_stream w =
      if not (is_some w.transaction)
      then (continue, w)
      else catch_up_request_body h (read_response_headers h end_of_stream)
          (record w { is_active = true })

  -- Phase 4 at the end of a body of `size` bytes, and phase 5.
  unfoldable pub finalize_trailers : Host → ℕ → State r → State r
  finalize_trailers h size w =
      let (st, w') =
        process_intervention r h response_body_phase (finalize_response_body_phase r h w) in
      run_logging_phase_if_needed r h
        (if is_zero st then w' else (sanitize_interrupted_response_body r h size w').1)

  unfoldable pub sanitize_trailers : Host → State r → State r
  sanitize_trailers h w = elim (h.buffer_size http_response_body) [
    | none ↦ w
    | some size ↦ (sanitize_interrupted_response_body r h size w).1
  ]

  unfoldable pub inspect_trailers : Host → State r → State r
  inspect_trailers h w =
      let (size, appended) = append_buffered_response_body r h w in
      let (st, w') = process_intervention r h response_body_phase appended in
      if is_zero st
      then finalize_trailers h size w'
      else (sanitize_interrupted_response_body r h size
          (record w' { response_body_processed = true })).1

  -- `onResponseTrailers`
  unfoldable pub on_response_trailers : Host → State r → FilterStatus × State r
  on_response_trailers h w =
      let active = record w { is_active = true } in
      if not (is_some w.transaction) || w.response_body_processed
      then (continue, w)
      else if w.response_body_interrupted
      then (continue, sanitize_trailers h active)
      else (continue, inspect_trailers h active)

  -- Phase 4 at the end of the body; an interruption replaces what is buffered.
  unfoldable pub end_response_body : Host → ℕ → Bool → State r → FilterStatus × State r
  end_response_body h body_buffer_length end_of_stream w =
      let (st, w') =
        process_intervention r h response_body_phase (finalize_response_body_phase r h w) in
      if not end_of_stream
      then (stop_iteration_and_buffer, w)
      else if is_zero st
      then log_and_continue r h w'
      else sanitize_interrupted_response_body r h body_buffer_length w'

  -- The new bytes of a response body, which may be interrupted at once.
  unfoldable pub take_response_chunk : Host → ℕ → Bool → Bytes → State r → FilterStatus × State r
  take_response_chunk h body_buffer_length end_of_stream body w =
      let given = call_engine r h (append_response_body body) w in
      let counted = record given {
        response_body_received = given.response_body_received + length body;
      } in
      let (st, w') = process_intervention r h response_body_phase counted in
      if is_zero st
      then end_response_body h body_buffer_length end_of_stream w'
      else sanitize_interrupted_response_body r h body_buffer_length
          (record w' { response_body_processed = true })

  unfoldable pub inspect_response_chunk : Host → ℕ → Bool → State r → FilterStatus × State r
  inspect_response_chunk h body_buffer_length end_of_stream w =
      elim (new_bytes h http_response_body w.response_body_received body_buffer_length) [
        | none ↦
            end_response_body h body_buffer_length end_of_stream
              (record w { response_body_received = body_buffer_length })
        | some body ↦ take_response_chunk h body_buffer_length end_of_stream body w
      ]

  -- `onResponseBody`
  unfoldable pub on_response_body : Host → ℕ → Bool → State r → FilterStatus × State r
  on_response_body h body_buffer_length end_of_stream w =
      let active = record w { is_active = true } in
      if not (is_some w.transaction)
      then (continue, w)
      else if w.response_body_interrupted
      then sanitize_interrupted_response_body r h body_buffer_length active
      else if w.response_body_processed
      then (continue, active)
      else if ltb w.response_body_received body_buffer_length
      then inspect_response_chunk h body_buffer_length end_of_stream active
      else end_response_body h body_buffer_length end_of_stream active
