-- ===== src/Stream/Phases/Idle.antt =====
-- Streams of a plugin without engine or rules: nothing happens.
use mathlib.Core.Path.{subst}
use modsecurity_proxy_wasm.Base.{
  ◌≡◌, refl, sym, ◌∙◌, ap, Bool, true, false, not, ◌&&◌, ◌||◌, List, [], ◌∷◌, arith, absurd,
  true≢false, if-ind, length, ltb, if◌then◌else◌,
}
use modsecurity_proxy_wasm.Text.{codes, equal, decimal}
use modsecurity_proxy_wasm.Telemetry.{sample_at}
use modsecurity_proxy_wasm.Metrics.{Metrics}
use modsecurity_proxy_wasm.Stream.{Root, Host, FilterStatus, continue, is_some, created, on_create}
use modsecurity_proxy_wasm.Stream.Record.{State, maybe_annotate_export}
use modsecurity_proxy_wasm.Stream.Body.{on_request_body, on_request_trailers}
use modsecurity_proxy_wasm.Stream.Request.{on_request_headers}
use modsecurity_proxy_wasm.Stream.Response.{
  on_response_headers, on_response_body, on_response_trailers,
}
use modsecurity_proxy_wasm.Stream.Events.{
  Callback, request_body, request_trailers, response_headers, response_body, response_trailers, log,
  on_log, on_delete, handle, handle_all, stream,
}
use modsecurity_proxy_wasm.Stream.Phases.Once.{on_request_headers-idle}

module _ (r : Root) where
  -- No transaction, and nothing to export.
  record IsIdle (w : State r) : Type 0 where
    pub no_transaction : is_some w.transaction ≡ false
    pub no_match : w.export_matches ≡ []
    pub calm : w.interrupted ≡ false

  maybe_annotate_export-idle : (h : Host) (w : State r) → IsIdle w → maybe_annotate_export r h w ≡ w
  unfolding maybe_annotate_export
  maybe_annotate_export-idle h w i =
      let tel = r.options.telemetry in
      let rate = if w.interrupted then tel.sample_disruptive else tel.sample_rate in
      let found = ltb 0 (length w.export_matches) || w.interrupted in
      let nothing : found ≡ false = rw (i.no_match, i.calm) refl in
      if-ind (λ (x : State r). x ≡ w)
        (equal tel.mode (codes "Managed")
          && tel.traces_enabled
          && found
          && sample_at r.floats rate (decimal h.stream_id))
        (λ e. let clash : true ≡ false = ground arith in absurd (true≢false clash)) (λ _. refl)

  -- The guard that every callback begins with.
  unguarded : (w : State r) → IsIdle w → not (is_some w.transaction) ≡ false → ⊥
  unguarded w i n =
      let none_yet = i.no_transaction in let clash : true ≡ false = ground arith in true≢false clash

  handle-idle : (h : Host) (c : Callback) (w : State r) → IsIdle w → handle r h c w ≡ w
  unfolding handle on_request_body on_request_trailers on_response_headers on_response_body
      on_response_trailers on_log
  handle-idle h (request_body size eos) w i =
      if-ind (λ (x : FilterStatus × State r). x.1 ≡ w) (not (is_some w.transaction)) (λ _. refl)
        (λ n. absurd (unguarded w i n))
  handle-idle h request_trailers w i =
      if-ind (λ (x : FilterStatus × State r). x.1 ≡ w)
        (not (is_some w.transaction) || w.request_body_processed) (λ _. refl)
        (λ n. absurd (unguarded w i (ground arith)))
  handle-idle h (response_headers eos) w i =
      if-ind (λ (x : FilterStatus × State r). x.1 ≡ w) (not (is_some w.transaction)) (λ _. refl)
        (λ n. absurd (unguarded w i n))
  handle-idle h (response_body size eos) w i =
      if-ind (λ (x : FilterStatus × State r). x.1 ≡ w) (not (is_some w.transaction)) (λ _. refl)
        (λ n. absurd (unguarded w i n))
  handle-idle h response_trailers w i =
      if-ind (λ (x : FilterStatus × State r). x.1 ≡ w)
        (not (is_some w.transaction) || w.response_body_processed) (λ _. refl)
        (λ n. absurd (unguarded w i (ground arith)))
  handle-idle h log w i =
      let none_yet = i.no_transaction in
      if-ind (λ (x : State r). maybe_annotate_export r h x ≡ w) (is_some w.transaction)
        (λ e. let clash : true ≡ false = sym e ∙ none_yet in absurd (true≢false clash))
        (λ _. maybe_annotate_export-idle h w i)

  handle_all-idle : (cs : List (Host × Callback)) (w : State r) → IsIdle w → handle_all r cs w ≡ w
  unfolding handle_all
  handle_all-idle [] w i = refl
  handle_all-idle ((h, c) ∷ cs) w i =
      ap (handle_all r cs) (handle-idle h c w i) ∙ handle_all-idle cs w i

  -- The callback lets the stream go on. `onLog` returns no status.
  abbrev pub Lets : Host → Callback → State r → Type 0
  Lets h (request_body size eos) w = (on_request_body r h size eos w).0 ≡ continue
  Lets h request_trailers w = (on_request_trailers r h w).0 ≡ continue
  Lets h (response_headers eos) w = (on_response_headers r h eos w).0 ≡ continue
  Lets h (response_body size eos) w = (on_response_body r h size eos w).0 ≡ continue
  Lets h response_trailers w = (on_response_trailers r h w).0 ≡ continue
  Lets h log w = Unit

  -- So does every callback of a list, each in the state that those before it have left.
  abbrev pub AllLet : List (Host × Callback) → State r → Type 0
  AllLet [] w = Unit
  AllLet ((h, c) ∷ cs) w = Lets h c w × AllLet cs (handle r h c w)

  handle-Lets : (h : Host) (c : Callback) (w : State r) → IsIdle w → Lets h c w
  unfolding on_request_body on_request_trailers on_response_headers on_response_body
      on_response_trailers
  handle-Lets h (request_body size eos) w i =
      if-ind (λ (x : FilterStatus × State r). x.0 ≡ continue) (not (is_some w.transaction))
        (λ _. refl) (λ n. absurd (unguarded w i n))
  handle-Lets h request_trailers w i =
      if-ind (λ (x : FilterStatus × State r). x.0 ≡ continue)
        (not (is_some w.transaction) || w.request_body_processed) (λ _. refl)
        (λ n. absurd (unguarded w i (ground arith)))
  handle-Lets h (response_headers eos) w i =
      if-ind (λ (x : FilterStatus × State r). x.0 ≡ continue) (not (is_some w.transaction))
        (λ _. refl) (λ n. absurd (unguarded w i n))
  handle-Lets h (response_body size eos) w i =
      if-ind (λ (x : FilterStatus × State r). x.0 ≡ continue) (not (is_some w.transaction))
        (λ _. refl) (λ n. absurd (unguarded w i n))
  handle-Lets h response_trailers w i =
      if-ind (λ (x : FilterStatus × State r). x.0 ≡ continue)
        (not (is_some w.transaction) || w.response_body_processed) (λ _. refl)
        (λ n. absurd (unguarded w i (ground arith)))
  handle-Lets h log w i = tt

  handle_all-AllLet : (cs : List (Host × Callback)) (w : State r) → IsIdle w → AllLet cs w
  handle_all-AllLet [] w i = tt
  handle_all-AllLet ((h, c) ∷ cs) w i = (
    handle-Lets h c w i,
    subst (AllLet cs) (sym (handle-idle h c w i)) (handle_all-AllLet cs w i),
  )

  -- The stream goes on behind `onRequestHeaders` and behind every later callback.
  abbrev pub GoesOn : Host → Bool → List (Host × Callback) → Metrics → Type 0
  GoesOn h eos cs m =
      ((on_request_headers r h eos (on_create (created m))).0 ≡ continue)
      × AllLet cs (on_request_headers r h eos (on_create (created m))).1

  created-IsIdle : (m : Metrics) → IsIdle (on_create (created m))
  unfolding on_create
  created-IsIdle m = record { no_transaction = refl; no_match = refl; calm = refl }

  stream-GoesOn :
      (h : Host) (eos : Bool) (cs : List (Host × Callback)) (m : Metrics)
      → r.ready ≡ false
      → GoesOn h eos cs m
  stream-GoesOn h eos cs m n =
      let e = on_request_headers-idle r h eos (on_create (created m)) n in
      (
        ap (λ x. x.0) e,
        subst (λ (x : FilterStatus × State r). AllLet cs x.1) (sym e)
            (handle_all-AllLet cs (on_create (created m)) (created-IsIdle m)),
      )

  stream-idle :
      (h : Host) (eos : Bool) (cs : List (Host × Callback)) (m : Metrics)
      → r.ready ≡ false
      → stream r h eos cs m ≡ on_create (created m)
  unfolding stream on_create
  stream-idle h eos cs m n =
      let w : State r = on_create (created m) in
      ap (λ x. handle_all r cs x.1) (on_request_headers-idle r h eos w n)
      ∙ handle_all-idle cs w (record { no_transaction = refl; no_match = refl; calm = refl })

  on_delete-idle :
      (h : Host) (w : State r)
      → is_some w.transaction ≡ false
      → on_delete r h w ≡ record w { is_active = false }
  unfolding on_delete
  on_delete-idle h w none_yet =
      if-ind (λ (x : State r). x ≡ record w { is_active = false }) (is_some w.transaction)
        (λ e. absurd (true≢false (sym e ∙ none_yet))) (λ _. refl)

  -- A plugin that is not ready lets every stream pass: `onRequestHeaders` and every callback behind it
  -- that returns a status returns Continue, whichever callbacks come, and up to `onDelete` the engine
  -- and the host get no call, and no metric changes.
  pub unready_does_nothing :
      (h h' : Host) (eos : Bool) (cs : List (Host × Callback)) (m : Metrics)
      → r.ready ≡ false
      → GoesOn h eos cs m
        × (((on_delete r h' (stream r h eos cs m)).effects ≡ [])
            × ((on_delete r h' (stream r h eos cs m)).metrics ≡ m))
  unfolding on_create
  unready_does_nothing h h' eos cs m n =
      let all_idle =
        ap (on_delete r h') (stream-idle h eos cs m n)
        ∙ on_delete-idle h' (on_create (created m)) refl in
      (stream-GoesOn h eos cs m n, (ap (λ x. x.effects) all_idle, ap (λ x. x.metrics) all_idle))
