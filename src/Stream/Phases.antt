-- ===== src/Stream/Phases.antt =====
-- An abstract view of a stream: which phases of the engine have run, how often, and the local
-- replies sent. `Step` is what a callback may do to it.
pub mod Frame
pub mod Handlers
pub mod Requests
pub mod Responses
pub mod Bodies
pub mod Life
pub mod Counts
pub mod Once
pub mod Answers
pub mod Idle
use modsecurity_proxy_wasm.Base.{
  ℕ, ◌+◌, ◌≡◌, refl, ◌⊎◌, inl, inr, Bool, true, false, List, [], ◌∷◌, Option, none, some,
}
use modsecurity_proxy_wasm.Stream.{
  Stream, is_some, Effect, engine_call, local_reply, EngineCall, process_request_body,
  process_response_body, process_logging,
}

-- The phases that may run once: 2, 4 and 5.
pub data Phase : Type 0 where
  request response logging : Phase

abbrev pub runs : Phase → Effect → ℕ
runs request (engine_call process_request_body) = 1
runs response (engine_call process_response_body) = 1
runs logging (engine_call process_logging) = 1
runs _ _ = 0

abbrev pub is_reply : Effect → ℕ
is_reply (local_reply code details headers) = 1
is_reply _ = 0

abbrev pub total : (Effect → ℕ) → List Effect → ℕ
total f [] = 0
total f (e ∷ es) = f e + total f es

pub record View : Type 0 where
  pub has_transaction : Bool
  pub request_done : Bool
  pub response_done : Bool
  pub logging_done : Bool
  pub interrupted : Bool
  pub requests : ℕ
  pub responses : ℕ
  pub loggings : ℕ
  pub replies : ℕ

abbrev pub view : {Tx : Type 0} → Stream Tx → View
view w = record {
  has_transaction = is_some w.transaction;
  request_done = w.request_body_processed;
  response_done = w.response_body_processed;
  logging_done = w.logging_phase_done;
  interrupted = w.interrupted;
  requests = total (runs request) w.effects;
  responses = total (runs response) w.effects;
  loggings = total (runs logging) w.effects;
  replies = total is_reply w.effects;
}

-- What may happen to a stream that has a transaction: a phase that has not run runs, the engine
-- interrupts, and once it has, phase 4 may be skipped and a local reply sent.
pub data Step (p : View) : View → Type 0 where
  request_phase :
      p.request_done ≡ false → Step p (record p { request_done = true; requests = p.requests + 1 })
  response_phase :
      p.response_done ≡ false
      → Step p (record p { response_done = true; responses = p.responses + 1 })
  response_skipped :
      p.response_done ≡ false → p.interrupted ≡ true → Step p (record p { response_done = true })
  logging_phase :
      p.logging_done ≡ false → Step p (record p { logging_done = true; loggings = p.loggings + 1 })
  interrupt : Step p (record p { interrupted = true })
  reply : p.interrupted ≡ true → Step p (record p { replies = p.replies + 1 })

pub data Steps (p : View) : View → Type 0 where
  here : Steps p p
  next : {q q' : View} → Steps p q → Step q q' → Steps p q'

pub trans : {p q q' : View} → Steps p q → Steps q q' → Steps p q'
trans s here = s
trans s (next t st) = next (trans s t) st

-- The engine may have interrupted in between, and nothing else has happened.
abbrev pub Near : View → View → Type 0
Near p q = (q ≡ p) ⊎ (q ≡ record p { interrupted = true })
