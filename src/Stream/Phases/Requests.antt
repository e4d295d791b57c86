-- ===== src/Stream/Phases/Requests.antt =====
-- The callbacks of a request move the view by steps.
use modsecurity_proxy_wasm.Base.{
  ℕ, ◌≡◌, refl, ◌∙◌, inl, inr, Bool, true, false, ◌||◌, not, List, [], ◌∷◌, arith, if-ind,
  Option-cases, Bool-cases,
}
use modsecurity_proxy_wasm.Text.{Bytes, codes, is_empty}
use modsecurity_proxy_wasm.Http.{modsec_http_version_token}
use modsecurity_proxy_wasm.Stream.{
  Root, Host, is_some, process_uri, add_request_header, process_request_headers, process_connection,
  append_request_body, FilterStatus, stop_iteration, stop_iteration_no_buffer,
  request_headers_phase, request_body_phase, http_request_body,
}
use modsecurity_proxy_wasm.Stream.Record.{State, call_engine}
use modsecurity_proxy_wasm.Stream.Interrupt.{
  unless_blocked, log_and_continue, run_request_body_phase,
}
use modsecurity_proxy_wasm.Stream.Body.{
  append_request_chunk, append_buffered_request_body, on_request_trailers, on_request_body,
  end_request_body, new_bytes, folded,
}
use modsecurity_proxy_wasm.Stream.Request.{
  port_of, HeaderInfo, needs_body_buffer, identify, inspect_request_headers, run_request_headers,
  note_header, add_request_headers, add_host, begin_transaction, connect, send_uri,
  read_request_headers, finish_request_headers, on_request_headers, host_of_authority, value_or,
  no_headers,
}
use modsecurity_proxy_wasm.Stream.Request
use modsecurity_proxy_wasm.Stream.Phases.{View, view, Steps, here, trans}
use modsecurity_proxy_wasm.Stream.Phases.Frame.{call_engine-quiet}
use modsecurity_proxy_wasm.Stream.Phases.Handlers.{
  Steps-same, Steps-has, trans_same, IsFresh, Near-IsFresh, run_logging-Steps, run_request-Steps,
  Near-Steps, unless_blocked-Steps,
}

module _ (r : Root) (h : Host) where
  pub append_request_chunk-view :
      (size : ℕ) (w : State r) → view (append_request_chunk r h size w) ≡ view w
  unfolding append_request_chunk
  append_request_chunk-view size w =
      elim (Option-cases (new_bytes h http_request_body w.request_body_received size)) [
        | inl e ↦ ground arith
        | inr (body, e) ↦
            ground
              (arith, call_engine-quiet r h (append_request_body (folded r body)) w refl refl refl)
      ]

  pub append_buffered_request_body-view :
      (w : State r) → view (append_buffered_request_body r h w) ≡ view w
  unfolding append_buffered_request_body
  append_buffered_request_body-view w = elim (Option-cases (h.buffer_size http_request_body)) [
    | inl e ↦ ground arith
    | inr (size, e) ↦ ground (arith, append_request_chunk-view size w)
  ]

  log_and_continue-Steps :
      (w : State r)
      → (view w).has_transaction ≡ true
      → Steps (view w) (view (log_and_continue r h w).1)
  unfolding log_and_continue
  log_and_continue-Steps w has = run_logging-Steps r h w has

  -- Phase 2, a possible block, and phase 5.
  phase_two-Steps :
      (blocked : FilterStatus) (w ran : State r)
      → IsFresh (view w)
      → view ran ≡ view (run_request_body_phase r h w)
      → Steps
          (view w)
          (view (unless_blocked r h request_body_phase blocked (log_and_continue r h) ran).1)
  phase_two-Steps blocked w ran f same =
      let ran_steps = trans_same (run_request-Steps r h w f) same in
      unless_blocked-Steps r h request_body_phase blocked (log_and_continue r h) ran ran_steps
        λ w' near.
          let before = trans ran_steps (Near-Steps r h near) in
          trans before (log_and_continue-Steps w' (Steps-has before f.has))

  end_request_body-Steps :
      (blocked : FilterStatus) (w : State r)
      → IsFresh (view w)
      → Steps (view w) (view (end_request_body r h blocked w).1)
  end_request_body-Steps blocked w f =
      let ran = record (run_request_body_phase r h w) { request_body_received = 0 } in
      phase_two-Steps blocked w ran f refl

  finish_request_headers-Steps :
      (eos : Bool) (i : HeaderInfo) (w : State r)
      → IsFresh (view w)
      → Steps (view w) (view (finish_request_headers r h eos i w).1)
  unfolding finish_request_headers
  finish_request_headers-Steps eos i w f = elim (Bool-cases (needs_body_buffer eos i w.method)) [
    | inl e ↦ rw e here
    | inr e ↦ rw e (phase_two-Steps stop_iteration w (run_request_body_phase r h w) f refl)
  ]

  IsFresh-same : {p q : View} → q ≡ p → IsFresh p → IsFresh q
  IsFresh-same e f = rw e f

  pub on_request_body-Steps :
      (size : ℕ) (eos : Bool) (w : State r)
      → Steps (view w) (view (on_request_body r h size eos w).1)
  unfolding on_request_body
  on_request_body-Steps size eos w =
      let P : FilterStatus × State r → Type 0 = λ x. Steps (view w) (view x.1) in
      let active = record w { is_active = true } in
      let appended = append_request_chunk-view size active in
      if-ind P (not (is_some w.transaction)) (λ _. here)
        λ n.
          let has : is_some w.transaction ≡ true = ground arith in
          if-ind P w.request_body_processed (λ _. here)
            λ d.
              if-ind P (not eos) (λ _. Steps-same appended)
                λ _. trans (Steps-same appended) (
                  end_request_body-Steps stop_iteration_no_buffer
                    (append_request_chunk r h size active)
                    (IsFresh-same appended (record { has = has; not_done = d })))

  pub on_request_trailers-Steps :
      (w : State r) → Steps (view w) (view (on_request_trailers r h w).1)
  unfolding on_request_trailers
  on_request_trailers-Steps w =
      let active = record w { is_active = true } in
      let appended = append_buffered_request_body-view active in
      if-ind (λ (x : FilterStatus × State r). Steps (view w) (view x.1))
        (not (is_some w.transaction) || w.request_body_processed) (λ _. here)
        λ n.
          let has : is_some w.transaction ≡ true = ground arith in
          let not_done : w.request_body_processed ≡ false = ground arith in
          trans (Steps-same appended) (
            end_request_body-Steps stop_iteration (append_buffered_request_body r h active)
              (IsFresh-same appended (record { has = has; not_done = not_done })))

  note-view :
      (w : State r) (pairs : List (Bytes × Bytes)) (i : HeaderInfo)
      → view (add_request_headers r h pairs i w).1 ≡ view w
  unfolding add_request_headers
  note-view w [] i = refl
  note-view w ((name, value) ∷ pairs) i =
      note-view (call_engine r h (add_request_header name (Request.folded r value)) w) pairs
        (note_header name (Request.folded r value) i)
      ∙ call_engine-quiet r h (add_request_header name (Request.folded r value)) w refl refl refl

  add_host-view : (w : State r) → view (add_host r h w) ≡ view w
  unfolding add_host
  add_host-view w =
      let property =
        value_or (h.value (codes "request" ∷ codes "headers" ∷ codes ":authority" ∷ [])) [] in
      let authority = value_or (h.request_header (codes ":authority")) property in
      if-ind (λ (x : State r). view x ≡ view w) (is_empty authority) (λ _. refl)
        (λ _.
          call_engine-quiet r h (add_request_header (codes "Host") (host_of_authority authority)) w
            refl refl refl)

  pub read_request_headers-view : (w : State r) → view (read_request_headers r h w).1 ≡ view w
  unfolding read_request_headers
  read_request_headers-view w =
      let pairs = value_or h.request_header_pairs [] in
      let i = (add_request_headers r h pairs no_headers w).0 in
      let added = (add_request_headers r h pairs no_headers w).1 in
      if-ind (λ (x : State r). view x ≡ view w) i.has_host (λ _. note-view w pairs no_headers)
        (λ _. add_host-view added ∙ note-view w pairs no_headers)

  pub connect-view : (w : State r) → view (connect r h w) ≡ view w
  unfolding connect
  connect-view w =
      let server =
        value_or (h.value (codes "destination" ∷ codes "address" ∷ [])) (codes "127.0.0.1") in
      call_engine-quiet r h
        (process_connection w.client_ip (port_of h (codes "source")) server
          (port_of h (codes "destination")))
        w refl refl refl

  pub send_uri-view : (w : State r) → view (send_uri r h w) ≡ view w
  unfolding send_uri
  send_uri-view w =
      let token =
        modsec_http_version_token
          (value_or (h.value (codes "request" ∷ codes "protocol" ∷ [])) []) in
      call_engine-quiet r h (process_uri w.path w.method token)
        (record w { http_version_token = token }) refl refl refl

  -- A callback of the chain: a quiet part, and what follows unless the engine interrupts.
  chain-Steps :
      {p : View} (next : State r → FilterStatus × State r) (w w' : State r)
      → IsFresh (view w)
      → Steps p (view w)
      → view w' ≡ view w
      → ((v : State r) → IsFresh (view v) → Steps (view v) (view (next v).1))
      → Steps p (view (unless_blocked r h request_headers_phase stop_iteration next w').1)
  chain-Steps next w w' f s e k =
      unless_blocked-Steps r h request_headers_phase stop_iteration next w' (trans_same s e)
        λ v near.
          trans (trans (trans_same s e) (Near-Steps r h near))
            (k v (Near-IsFresh near (IsFresh-same e f)))

  run_request_headers-Steps :
      (eos : Bool) (i : HeaderInfo) (w : State r)
      → IsFresh (view w)
      → Steps (view w) (view (run_request_headers r h eos i w).1)
  unfolding run_request_headers
  run_request_headers-Steps eos i w f =
      chain-Steps (finish_request_headers r h eos i) w (call_engine r h process_request_headers w) f
        here (call_engine-quiet r h process_request_headers w refl refl refl)
        (finish_request_headers-Steps eos i)

  inspect_request_headers-Steps :
      (eos : Bool) (w : State r)
      → IsFresh (view w)
      → Steps (view w) (view (inspect_request_headers r h eos w).1)
  unfolding inspect_request_headers
  inspect_request_headers-Steps eos w f =
      let i = (read_request_headers r h w).0 in
      chain-Steps (run_request_headers r h eos i) w (read_request_headers r h w).1 f here
        (read_request_headers-view w) (run_request_headers-Steps eos i)

  identify-Steps :
      (eos : Bool) (w : State r) → IsFresh (view w) → Steps (view w) (view (identify r h eos w).1)
  unfolding identify
  identify-Steps eos w f =
      chain-Steps (inspect_request_headers r h eos) w (send_uri r h w) f here (send_uri-view w)
        (inspect_request_headers-Steps eos)

  pub begin_transaction-view :
      (w : State r) → view (begin_transaction r h w) ≡ record (view w) { has_transaction = true }
  unfolding begin_transaction
  begin_transaction-view w = ground arith

  -- On a plugin that is ready the callback begins a transaction and moves its view by steps.
  pub on_request_headers-Steps :
      (eos : Bool) (w : State r)
      → r.ready ≡ true
      → w.request_body_processed ≡ false
      → Steps (record (view w) { has_transaction = true }) (view (on_request_headers r h eos w).1)
  unfolding on_request_headers
  on_request_headers-Steps eos w ready f =
      let begun = begin_transaction r h w in
      let fresh : IsFresh (view begun) =
        rw (begin_transaction-view w) (record { has = refl; not_done = f }) in
      if-ind
        (λ (x : FilterStatus × State r).
          Steps (record (view w) { has_transaction = true }) (view x.1))
        r.ready
        (λ _.
          chain-Steps (identify r h eos) begun (connect r h begun) fresh
            (Steps-same (begin_transaction-view w)) (connect-view begun) (identify-Steps eos))
        (λ n. ground arith)
