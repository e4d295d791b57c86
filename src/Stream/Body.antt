-- ===== src/Stream/Body.antt =====
-- src/modsecurity_proxy_wasm.cc: bodies handed to the engine, and the callbacks of a request's body
-- and trailers.
use modsecurity_proxy_wasm.Base.{
  ℕ, ◌+◌, ◌-◌, Bool, true, not, ◌||◌, [], ◌∷◌, Option, none, some, if◌then◌else◌, ltb, length,
}
use modsecurity_proxy_wasm.Text.{Bytes}
use modsecurity_proxy_wasm.Fullwidth.{normalize_fullwidth}
use modsecurity_proxy_wasm.Stream.{
  Root, Host, is_some, Buffer, http_request_body, http_response_body, append_request_body,
  append_response_body, FilterStatus, continue, stop_iteration, stop_iteration_and_buffer,
  stop_iteration_no_buffer, request_body_phase,
}
use modsecurity_proxy_wasm.Stream.Record.{State, call_engine}
use modsecurity_proxy_wasm.Stream.Interrupt.{
  log_and_continue, run_request_body_phase, unless_blocked,
}

-- What `getBufferBytes` gives from `received` on, if it is not empty.
unfoldable pub new_bytes : Host → Buffer → ℕ → ℕ → Option Bytes
new_bytes h b received size = elim (h.buffer_bytes b received (size - received)) [
  | none ↦ none
  | some [] ↦ none
  | some (c ∷ s) ↦ some (c ∷ s)
]

module _ (r : Root) where
  -- The body's text as the engine gets it.
  abbrev pub folded : Bytes → Bytes
  folded body = if r.options.fullwidth_normalize then normalize_fullwidth body else body

  -- What is new in a buffered body of `size` bytes; the source has this text twice.
  unfoldable pub append_request_chunk : Host → ℕ → State r → State r
  append_request_chunk h size w =
      let taken : State r = elim (new_bytes h http_request_body w.request_body_received size) [
        | some body ↦
            let w' = call_engine r h (append_request_body (folded body)) w in
            record w' { request_body_received = w'.request_body_received + length body }
        | none ↦ record w { request_body_received = size }
      ] in
      if ltb w.request_body_received size then taken else w

  -- `appendBufferedRequestBody`
  unfoldable pub append_buffered_request_body : Host → State r → State r
  append_buffered_request_body h w = elim (h.buffer_size http_request_body) [
    | none ↦ w
    | some size ↦ append_request_chunk h size w
  ]

  -- `appendBufferedResponseBody`: the buffer's size, 0 where it is not known
  unfoldable pub append_buffered_response_body : Host → State r → ℕ × State r
  append_buffered_response_body h w = elim (h.buffer_size http_response_body) [
    | none ↦ (0, w)
    | some size ↦
        let taken : State r = elim (new_bytes h http_response_body w.response_body_received size) [
          | some body ↦
              let w' = call_engine r h (append_response_body body) w in
              record w' { response_body_received = w'.response_body_received + length body }
          | none ↦ record w { response_body_received = size }
        ] in
        (size, if ltb w.response_body_received size then taken else w)
  ]

  -- Phase 2 at the end of a request's body, and phase 5 where nothing interrupts.
  abbrev pub end_request_body : Host → FilterStatus → State r → FilterStatus × State r
  end_request_body h blocked w =
      unless_blocked r h request_body_phase blocked (log_and_continue r h)
        (record (run_request_body_phase r h w) { request_body_received = 0 })

  -- `onRequestTrailers`
  unfoldable pub on_request_trailers : Host → State r → FilterStatus × State r
  on_request_trailers h w =
      if not (is_some w.transaction) || w.request_body_processed
      then (continue, w)
      else end_request_body h stop_iteration
          (append_buffered_request_body h (record w { is_active = true }))

  -- `onRequestBody`
  unfoldable pub on_request_body : Host → ℕ → Bool → State r → FilterStatus × State r
  on_request_body h body_buffer_length end_of_stream w =
      let active = record w { is_active = true } in
      let appended = append_request_chunk h body_buffer_length active in
      if not (is_some w.transaction)
      then (continue, w)
      else if w.request_body_processed
      then (continue, active)
      else if not end_of_stream
      then (stop_iteration_and_buffer, appended)
      else end_request_body h stop_iteration_no_buffer appended
