-- ===== src/Stream/Phases/Handlers.antt =====
-- Every callback of a stream with a transaction moves its view by steps.
use modsecurity_proxy_wasm.Base.{
  ◌≡◌, refl, ap, ◌∙◌, inl, inr, true, false, some, arith, is_zero, if-ind,
}
use modsecurity_proxy_wasm.Text.{Bytes}
use modsecurity_proxy_wasm.Stream.{Root, Host, FilterStatus}
use modsecurity_proxy_wasm.Stream.Record.{State}
use modsecurity_proxy_wasm.Stream.Interrupt.{
  process_intervention, unless_blocked, finalize_response_body_phase, run_logging_phase_if_needed,
  run_request_body_phase,
}
use modsecurity_proxy_wasm.Stream.Phases.{
  View, view, Step, request_phase, response_phase, response_skipped, logging_phase, interrupt,
  reply, Steps, here, next, trans, Near,
}
use modsecurity_proxy_wasm.Stream.Phases.Frame.{
  process_intervention-Asked, send_block_local_response-view, run_request_body_phase-view,
  finalize_response_body_phase-view, run_logging_phase_if_needed-view,
}

-- A view that has not changed, and one step from an equation.
pub Steps-same : {p q : View} → q ≡ p → Steps p q
Steps-same {p} e = rw e here

pub Steps-one : {p q q' : View} → Step p q → q' ≡ q → Steps p q'
Steps-one s e = rw e (next here s)

pub trans_same : {p q q' : View} → Steps p q → q' ≡ q → Steps p q'
trans_same s e = rw e s

pub Near-has : {p q : View} → Near p q → q.has_transaction ≡ p.has_transaction
Near-has (inl e) = ap (λ x. x.has_transaction) e
Near-has (inr e) = ap (λ x. x.has_transaction) e

-- A stream with a transaction whose phase 2 has not run.
pub record IsFresh (p : View) : Type 0 where
  pub has : p.has_transaction ≡ true
  pub not_done : p.request_done ≡ false

pub Near-IsFresh : {p q : View} → Near p q → IsFresh p → IsFresh q
Near-IsFresh (inl e) f = rw e f
Near-IsFresh (inr e) f = rw e (record { has = f.has; not_done = f.not_done })

module _ (r : Root) (h : Host) where
  pub transaction_of :
      (w : State r)
      → (view w).has_transaction ≡ true
      → (tx : r.engine.Transaction) × (w.transaction ≡ some tx)
  transaction_of w e = ground arith

  pub run_logging-Steps :
      (w : State r)
      → (view w).has_transaction ≡ true
      → Steps (view w) (view (run_logging_phase_if_needed r h w))
  run_logging-Steps w has =
      let (tx, e) = transaction_of w has in
      rw (run_logging_phase_if_needed-view r h w e) (
        if-ind (Steps (view w)) w.logging_phase_done (λ _. here) (λ f. next here (logging_phase f)))

  pub finalize-Steps :
      (w : State r)
      → (view w).has_transaction ≡ true
      → Steps (view w) (view (finalize_response_body_phase r h w))
  finalize-Steps w has =
      let (tx, e) = transaction_of w has in
      rw (finalize_response_body_phase-view r h w e) (
        if-ind (Steps (view w)) w.response_body_processed (λ _. here)
          (λ f. next here (response_phase f)))

  pub run_request-Steps :
      (w : State r) → IsFresh (view w) → Steps (view w) (view (run_request_body_phase r h w))
  run_request-Steps w f =
      let (tx, e) = transaction_of w f.has in
      Steps-one (request_phase f.not_done) (run_request_body_phase-view r h w e)

  pub process-Near :
      (phase : Bytes) (w : State r) → Near (view w) (view (process_intervention r h phase w).1)
  process-Near phase w = elim (process_intervention-Asked r h phase w) [
    | inl (z, e) ↦ inl e
    | inr e ↦ inr e
  ]

  pub Near-Steps : {p q : View} → Near p q → Steps p q
  Near-Steps (inl e) = Steps-same e
  Near-Steps (inr e) = Steps-one interrupt e

  pub unless_blocked-Steps :
      {p : View} (phase : Bytes) (blocked : FilterStatus) (go : State r → FilterStatus × State r)
      (w : State r)
      → Steps p (view w)
      → ((w' : State r) → Near (view w) (view w') → Steps p (view (go w').1))
      → Steps p (view (unless_blocked r h phase blocked go w).1)
  unfolding unless_blocked
  unless_blocked-Steps {p} phase blocked go w s k =
      let st = (process_intervention r h phase w).0 in
      let w' = (process_intervention r h phase w).1 in
      elim (process_intervention-Asked r h phase w) [
        | inl (z, e) ↦ rw z (k w' (inl e))
        | inr e ↦
            if-ind (λ (x : FilterStatus × State r). Steps p (view x.1)) (is_zero st)
              (λ _. k w' (inr e))
              (λ _.
                let marked : Steps p (view w') = trans s (Steps-one interrupt e) in
                rw (send_block_local_response-view r h st w')
                  (next marked (reply (ap (λ x. x.interrupted) e))))
      ]

Step-has : {p q : View} → Step p q → q.has_transaction ≡ p.has_transaction
Step-has (request_phase f) = refl
Step-has (response_phase f) = refl
Step-has (response_skipped f g) = refl
Step-has (logging_phase f) = refl
Step-has interrupt = refl
Step-has (reply f) = refl

-- No step ends the transaction.
pub Steps-has : {p q : View} → Steps p q → p.has_transaction ≡ true → q.has_transaction ≡ true
Steps-has here e = e
Steps-has (next s st) e = Step-has st ∙ Steps-has s e
