-- ===== src/Stream/Phases/Bodies.antt =====
-- The body and the trailers of a response move the view by steps.
use modsecurity_proxy_wasm.Base.{
  ℕ, ◌+◌, ◌≡◌, refl, ◌∙◌, ap, inl, inr, Bool, true, false, ◌||◌, not, arith, if-ind, Option-cases,
  ltb, length, is_zero, if◌then◌else◌,
}
use modsecurity_proxy_wasm.Text.{Bytes}
use modsecurity_proxy_wasm.Stream.{
  Root, Host, is_some, http_response_body, append_response_body, FilterStatus, response_body_phase,
}
use modsecurity_proxy_wasm.Stream.Record.{State, call_engine}
use modsecurity_proxy_wasm.Stream.Interrupt.{
  run_logging_phase_if_needed, log_and_continue, process_intervention, finalize_response_body_phase,
  sanitize_interrupted_response_body,
}
use modsecurity_proxy_wasm.Stream.Body.{new_bytes, append_buffered_response_body}
use modsecurity_proxy_wasm.Stream.Response.{
  finalize_trailers, sanitize_trailers, inspect_trailers, on_response_trailers, end_response_body,
  inspect_response_chunk, take_response_chunk, on_response_body,
}
use modsecurity_proxy_wasm.Stream.Phases.{View, view, Steps, response_skipped, here, next, trans}
use modsecurity_proxy_wasm.Stream.Phases.Frame.{
  call_engine-quiet, process_intervention-Asked, sanitize_interrupted_response_body-view,
}
use modsecurity_proxy_wasm.Stream.Phases.Handlers.{
  Steps-same, Steps-has, trans_same, run_logging-Steps, finalize-Steps, process-Near, Near-Steps,
}

module _ (r : Root) (h : Host) where
  -- The steps of asking for an intervention, and the logging phase behind them.
  asked-Steps :
      {p : View} (w : State r)
      → Steps p (view w)
      → Steps p (view (process_intervention r h response_body_phase w).1)
  asked-Steps w s = trans s (Near-Steps r h (process-Near r h response_body_phase w))

  logged-Steps :
      {p : View} (w : State r)
      → p.has_transaction ≡ true
      → Steps p (view w)
      → Steps p (view (run_logging_phase_if_needed r h w))
  logged-Steps w has s = trans s (run_logging-Steps r h w (Steps-has s has))

  log_and_continue-Steps :
      {p : View} (w : State r)
      → p.has_transaction ≡ true
      → Steps p (view w)
      → Steps p (view (log_and_continue r h w).1)
  unfolding log_and_continue
  log_and_continue-Steps w has s = logged-Steps w has s

  -- An interruption before phase 4 has run skips it.
  skipped-Steps :
      {p : View} (w : State r)
      → is_zero (process_intervention r h response_body_phase w).0 ≡ false
      → w.response_body_processed ≡ false
      → Steps p (view w)
      → Steps p (
          view (record (process_intervention r h response_body_phase w).1 {
            response_body_processed = true;
          }))
  skipped-Steps w n f s =
      let w' = (process_intervention r h response_body_phase w).1 in
      elim (process_intervention-Asked r h response_body_phase w) [
        | inl (z, e) ↦ ground arith
        | inr e ↦
            next (asked-Steps w s)
              (response_skipped (ap (λ x. x.response_done) e ∙ f) (ap (λ x. x.interrupted) e))
      ]

  finalize_trailers-Steps :
      (size : ℕ) (w : State r)
      → (view w).has_transaction ≡ true
      → Steps (view w) (view (finalize_trailers r h size w))
  unfolding finalize_trailers
  finalize_trailers-Steps size w has =
      let final = finalize_response_body_phase r h w in
      let st = (process_intervention r h response_body_phase final).0 in
      let w' = (process_intervention r h response_body_phase final).1 in
      let asked = asked-Steps final (finalize-Steps r h w has) in
      let replaced = (sanitize_interrupted_response_body r h size w').1 in
      logged-Steps (if is_zero st then w' else replaced) has (
        if-ind (λ (x : State r). Steps (view w) (view x)) (is_zero st) (λ _. asked)
          (λ _. trans_same asked (sanitize_interrupted_response_body-view r h size w')))

  append_buffered_response_body-view :
      (w : State r) → view (append_buffered_response_body r h w).1 ≡ view w
  unfolding append_buffered_response_body
  append_buffered_response_body-view w = elim (Option-cases (h.buffer_size http_response_body)) [
    | inl e ↦ ground arith
    | inr (size, e) ↦
        elim (Option-cases (new_bytes h http_response_body w.response_body_received size)) [
          | inl e' ↦ ground arith
          | inr (body, e') ↦
              ground (arith, call_engine-quiet r h (append_response_body body) w refl refl refl)
        ]
  ]

  inspect_trailers-Steps :
      (w : State r)
      → (view w).has_transaction ≡ true
      → w.response_body_processed ≡ false
      → Steps (view w) (view (inspect_trailers r h w))
  unfolding inspect_trailers
  inspect_trailers-Steps w has f =
      let size = (append_buffered_response_body r h w).0 in
      let appended = (append_buffered_response_body r h w).1 in
      let same = append_buffered_response_body-view w in
      let st = (process_intervention r h response_body_phase appended).0 in
      let w' = (process_intervention r h response_body_phase appended).1 in
      let asked = asked-Steps appended (Steps-same same) in
      if-ind (λ (x : State r). Steps (view w) (view x)) (is_zero st)
        (λ _. trans asked (finalize_trailers-Steps size w' (Steps-has asked has)))
        (λ n.
          trans_same
            (skipped-Steps appended n (ap (λ x. x.response_done) same ∙ f) (Steps-same same))
            (sanitize_interrupted_response_body-view r h size
              (record w' { response_body_processed = true })))

  sanitize_trailers-view : (w : State r) → view (sanitize_trailers r h w) ≡ view w
  unfolding sanitize_trailers
  sanitize_trailers-view w = elim (Option-cases (h.buffer_size http_response_body)) [
    | inl e ↦ ground arith
    | inr (size, e) ↦ ground (arith, sanitize_interrupted_response_body-view r h size w)
  ]

  pub on_response_trailers-Steps :
      (w : State r) → Steps (view w) (view (on_response_trailers r h w).1)
  unfolding on_response_trailers
  on_response_trailers-Steps w =
      let P : FilterStatus × State r → Type 0 = λ x. Steps (view w) (view x.1) in
      let active = record w { is_active = true } in
      if-ind P (not (is_some w.transaction) || w.response_body_processed) (λ _. here)
        λ n.
          let has : is_some w.transaction ≡ true = ground arith in
          let not_done : w.response_body_processed ≡ false = ground arith in
          if-ind P w.response_body_interrupted (λ _. Steps-same (sanitize_trailers-view active))
            (λ _. inspect_trailers-Steps active has not_done)

  end_response_body-Steps :
      (size : ℕ) (eos : Bool) (w : State r)
      → (view w).has_transaction ≡ true
      → Steps (view w) (view (end_response_body r h size eos w).1)
  unfolding end_response_body
  end_response_body-Steps size eos w has =
      let P : FilterStatus × State r → Type 0 = λ x. Steps (view w) (view x.1) in
      let final = finalize_response_body_phase r h w in
      let st = (process_intervention r h response_body_phase final).0 in
      let w' = (process_intervention r h response_body_phase final).1 in
      let asked = asked-Steps final (finalize-Steps r h w has) in
      if-ind P (not eos) (λ _. here)
        λ _.
          if-ind P (is_zero st) (λ _. log_and_continue-Steps w' has asked)
            (λ _. trans_same asked (sanitize_interrupted_response_body-view r h size w'))

  take_response_chunk-Steps :
      (size : ℕ) (eos : Bool) (body : Bytes) (w : State r)
      → (view w).has_transaction ≡ true
      → w.response_body_processed ≡ false
      → Steps (view w) (view (take_response_chunk r h size eos body w).1)
  unfolding take_response_chunk
  take_response_chunk-Steps size eos body w has f =
      let given = call_engine r h (append_response_body body) w in
      let same = call_engine-quiet r h (append_response_body body) w refl refl refl in
      let counted = record given {
        response_body_received = given.response_body_received + length body;
      } in
      let st = (process_intervention r h response_body_phase counted).0 in
      let w' = (process_intervention r h response_body_phase counted).1 in
      let asked = asked-Steps counted (Steps-same same) in
      if-ind (λ (x : FilterStatus × State r). Steps (view w) (view x.1)) (is_zero st)
        (λ _. trans asked (end_response_body-Steps size eos w' (Steps-has asked has)))
        (λ n.
          trans_same
            (skipped-Steps counted n (ap (λ x. x.response_done) same ∙ f) (Steps-same same))
            (sanitize_interrupted_response_body-view r h size
              (record w' { response_body_processed = true })))

  inspect_response_chunk-Steps :
      (size : ℕ) (eos : Bool) (w : State r)
      → (view w).has_transaction ≡ true
      → w.response_body_processed ≡ false
      → Steps (view w) (view (inspect_response_chunk r h size eos w).1)
  unfolding inspect_response_chunk
  inspect_response_chunk-Steps size eos w has f =
      elim (Option-cases (new_bytes h http_response_body w.response_body_received size)) [
        | inl e ↦
            rw (e, inspect_response_chunk)
              (end_response_body-Steps size eos (record w { response_body_received = size }) has)
        | inr (body, e) ↦
            rw (e, inspect_response_chunk) (take_response_chunk-Steps size eos body w has f)
      ]

  pub on_response_body-Steps :
      (size : ℕ) (eos : Bool) (w : State r)
      → Steps (view w) (view (on_response_body r h size eos w).1)
  unfolding on_response_body
  on_response_body-Steps size eos w =
      let P : FilterStatus × State r → Type 0 = λ x. Steps (view w) (view x.1) in
      let active = record w { is_active = true } in
      if-ind P (not (is_some w.transaction)) (λ _. here)
        λ n.
          let has : is_some w.transaction ≡ true = ground arith in
          if-ind P w.response_body_interrupted
            (λ _. Steps-same (sanitize_interrupted_response_body-view r h size active))
            λ _.
              if-ind P w.response_body_processed (λ _. here)
                λ f.
                  if-ind P (ltb w.response_body_received size)
                    (λ _. inspect_response_chunk-Steps size eos active has f)
                    (λ _. end_response_body-Steps size eos active has)
