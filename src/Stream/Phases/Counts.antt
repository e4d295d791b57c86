-- ===== src/Stream/Phases/Counts.antt =====
-- What the steps keep: the counts of the phases agree with their flags, and flags stay set.
use modsecurity_proxy_wasm.Base.{ℕ, ◌≤◌, ◌≡◌, refl, Bool, true, false, arith, if◌then◌else◌}
use modsecurity_proxy_wasm.Stream.{Stream}
use modsecurity_proxy_wasm.Stream.Phases.{
  Phase, request, response, logging, runs, total, View, view, Step, request_phase, response_phase,
  response_skipped, logging_phase, interrupt, reply, Steps, here, next,
}

abbrev pub bit : Bool → ℕ
bit b = if b then 1 else 0

-- Each phase has run as often as its flag says, but for phase 4 after an interruption; without an
-- interruption no local reply was sent.
pub record IsCounted (p : View) : Type 0 where
  pub requests_met : p.requests ≡ bit p.request_done
  pub responses_at_most : p.responses ≤ bit p.response_done
  pub responses_met : p.interrupted ≡ false → p.responses ≡ bit p.response_done
  pub loggings_met : p.loggings ≡ bit p.logging_done
  pub no_reply : p.interrupted ≡ false → p.replies ≡ 0

Step-IsCounted : {p q : View} → Step p q → IsCounted p → IsCounted q
Step-IsCounted (request_phase f) c = record {
  requests_met = ground (arith, c.requests_met);
  responses_at_most = c.responses_at_most;
  responses_met = c.responses_met;
  loggings_met = c.loggings_met;
  no_reply = c.no_reply;
}
Step-IsCounted (response_phase f) c = record {
  requests_met = c.requests_met;
  responses_at_most = ground (arith, c.responses_at_most);
  responses_met = λ n. ground (arith, c.responses_met n);
  loggings_met = c.loggings_met;
  no_reply = c.no_reply;
}
Step-IsCounted (response_skipped f g) c = record {
  requests_met = c.requests_met;
  responses_at_most = ground (arith, c.responses_at_most);
  responses_met = λ n. ground arith;
  loggings_met = c.loggings_met;
  no_reply = c.no_reply;
}
Step-IsCounted (logging_phase f) c = record {
  requests_met = c.requests_met;
  responses_at_most = c.responses_at_most;
  responses_met = c.responses_met;
  loggings_met = ground (arith, c.loggings_met);
  no_reply = c.no_reply;
}
Step-IsCounted interrupt c = record {
  requests_met = c.requests_met;
  responses_at_most = c.responses_at_most;
  responses_met = λ n. ground arith;
  loggings_met = c.loggings_met;
  no_reply = λ n. ground arith;
}
Step-IsCounted (reply f) c = record {
  requests_met = c.requests_met;
  responses_at_most = c.responses_at_most;
  responses_met = c.responses_met;
  loggings_met = c.loggings_met;
  no_reply = λ n. ground arith;
}

pub Steps-IsCounted : {p q : View} → Steps p q → IsCounted p → IsCounted q
Steps-IsCounted here c = c
Steps-IsCounted (next s st) c = Step-IsCounted st (Steps-IsCounted s c)

-- No step takes a flag back.
pub record Grows (p q : View) : Type 0 where
  pub keeps_request : p.request_done ≡ true → q.request_done ≡ true
  pub keeps_response : p.response_done ≡ true → q.response_done ≡ true

Step-Grows : {p q : View} → Step p q → Grows p q
Step-Grows (request_phase f) = record { keeps_request = λ e. refl; keeps_response = λ e. e }
Step-Grows (response_phase f) = record { keeps_request = λ e. e; keeps_response = λ e. refl }
Step-Grows (response_skipped f g) = record { keeps_request = λ e. e; keeps_response = λ e. refl }
Step-Grows (logging_phase f) = record { keeps_request = λ e. e; keeps_response = λ e. e }
Step-Grows interrupt = record { keeps_request = λ e. e; keeps_response = λ e. e }
Step-Grows (reply f) = record { keeps_request = λ e. e; keeps_response = λ e. e }

pub Steps-Grows : {p q : View} → Steps p q → Grows p q
Steps-Grows here = record { keeps_request = λ e. e; keeps_response = λ e. e }
Steps-Grows (next s st) =
    let g = Steps-Grows s in
    let g' = Step-Grows st in
    record {
      keeps_request = λ e. g'.keeps_request (g.keeps_request e);
      keeps_response = λ e. g'.keeps_response (g.keeps_response e);
    }

abbrev count : Phase → View → ℕ
count request p = p.requests
count response p = p.responses
count logging p = p.loggings

at_most : {p : View} → IsCounted p → (phase : Phase) → count phase p ≤ 1
at_most c request = ground (arith, c.requests_met)
at_most c response = ground (arith, c.responses_at_most)
at_most c logging = ground (arith, c.loggings_met)

pub at_most_total :
    {Tx : Type 0} (w : Stream Tx)
    → IsCounted (view w)
    → (phase : Phase) → total (runs phase) w.effects ≤ 1
at_most_total w c request = at_most c request
at_most_total w c response = at_most c response
at_most_total w c logging = at_most c logging

abbrev pub IsDone : View → Type 0
IsDone p = (p.request_done ≡ true) × (p.response_done ≡ true) × (p.logging_done ≡ true)
