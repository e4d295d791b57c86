-- ===== src/Stream/Request.antt =====
-- src/modsecurity_proxy_wasm.cc: `onRequestHeaders`.
use modsecurity_proxy_wasm.Base.{
  ℕ, Bool, true, false, not, ◌&&◌, ◌||◌, List, [], ◌∷◌, ◌++◌, Option, none, some, if◌then◌else◌,
  ltb, ◌==◌, ℤ, pos, negsuc, ◌%◌, ◌^◌, ◌-◌,
}
use modsecurity_proxy_wasm.Text.{Bytes, split_at, codes, is_empty, equal, decimal}
use modsecurity_proxy_wasm.Http.{
  method_may_have_body, header_name_equals, is_chunked_transfer_encoding, parse_content_length,
  modsec_http_version_token,
}
use modsecurity_proxy_wasm.Fullwidth.{normalize_fullwidth}
use modsecurity_proxy_wasm.Metrics.{count_tx_total}
use modsecurity_proxy_wasm.Stream.{
  Root, Host, new_transaction, process_connection, process_uri, add_request_header,
  process_request_headers, emit, FilterStatus, continue, stop_iteration, request_headers_phase,
  request_body_phase,
}
use modsecurity_proxy_wasm.Stream.Record.{State, call_engine}
use modsecurity_proxy_wasm.Stream.Interrupt.{
  log_and_continue, run_request_body_phase, unless_blocked,
}

-- What `getValue` leaves in a variable.
abbrev pub value_or {ℓ} : {A : Type ℓ} → Option A → A → A
value_or none a = a
value_or (some b) a = b

abbrev is_text : Option Bytes → Bool
is_text none = false
is_text (some s) = not (is_empty s)

-- `:path`, else the first property that is not empty, else "/".
unfoldable pub request_path : Host → Bytes
request_path h =
    let headers = h.value (codes "request" ∷ codes "headers" ∷ codes ":path" ∷ []) in
    let path = h.value (codes "request" ∷ codes "path" ∷ []) in
    let url_path = h.value (codes "request" ∷ codes "url_path" ∷ []) in
    let first = value_or headers (codes "/") in
    let second = value_or path first in
    let property =
      if is_text headers
      then first
      else if is_text path
      then second
      else value_or url_path second in
    let found = value_or (h.request_header (codes ":path")) property in
    if is_empty found then codes "/" else found

unfoldable pub request_method : Host → Bytes
request_method h =
    value_or (h.request_header (codes ":method"))
      (value_or (h.value (codes "request" ∷ codes "headers" ∷ codes ":method" ∷ [])) (codes "GET"))

-- The request's id, or the transaction's.
unfoldable pub correlated_id : Host → Bytes → Bytes → Bytes
correlated_id h request_id tx_id =
    let property = value_or (h.value (codes "request" ∷ codes "id" ∷ [])) request_id in
    let envoy = value_or (h.request_header (codes "x-envoy-request-id")) property in
    let found = value_or (h.request_header (codes "x-request-id")) envoy in
    if is_empty found then tx_id else found

-- `static_cast<int>` of a `uint64_t`
abbrev to_int : ℕ → ℤ
to_int v = let low = v % 2 ^ 32 in if ltb low (2 ^ 31) then pos low else negsuc (2 ^ 32 - 1 - low)

-- The port that the host gives, and 0 where it gives none.
abbrev pub port_of : Host → Bytes → ℤ
port_of h side = to_int (value_or (h.port (side ∷ codes "port" ∷ [])) 0)

abbrev without_port : Bytes → Bytes
without_port host = elim (split_at b':' host) [
  | none ↦ host
  | some (name, port) ↦ elim (split_at b':' port) [ none ↦ name | some _ ↦ host ]
]

abbrev bracketed : Bytes → Bytes → Bytes
bracketed host rest = elim (split_at b']' rest) [ none ↦ host | some (name, port) ↦ name ]

-- The host of an authority: inside the brackets, or without a port behind a single colon.
unfoldable pub host_of_authority : Bytes → Bytes
unfolding split_at
host_of_authority [] = []
host_of_authority (c ∷ s) = if c == b'[' then bracketed (c ∷ s) s else without_port (c ∷ s)

-- What the loop over the headers finds out.
pub record HeaderInfo : Type 0 where
  pub body_size : ℕ
  pub has_host : Bool
  pub chunked : Bool

abbrev pub no_headers : HeaderInfo
no_headers = record { body_size = 0; has_host = false; chunked = false }

unfoldable pub note_header : Bytes → Bytes → HeaderInfo → HeaderInfo
note_header name value i = record {
  body_size =
      if header_name_equals name (codes "content-length")
      then parse_content_length value
      else i.body_size;
  has_host = equal name (codes "host") || equal name (codes "Host") || i.has_host;
  chunked =
      header_name_equals name (codes "transfer-encoding") && is_chunked_transfer_encoding value
      || i.chunked;
}

-- Whether `onRequestBody` will see a body: one is announced, or one may follow the headers.
abbrev pub needs_body_buffer : Bool → HeaderInfo → Bytes → Bool
needs_body_buffer end_of_stream i method =
    let has_known_body = ltb 0 i.body_size || i.chunked in
    let may_receive_body = method_may_have_body method && not end_of_stream in
    has_known_body || may_receive_body

module _ (r : Root) where
  abbrev pub folded : Bytes → Bytes
  folded s = if r.options.fullwidth_normalize then normalize_fullwidth s else s

  unfoldable pub add_request_headers :
      Host → List (Bytes × Bytes) → HeaderInfo → State r → HeaderInfo × State r
  add_request_headers h [] i w = (i, w)
  add_request_headers h ((name, value) ∷ pairs) i w =
      add_request_headers h pairs (note_header name (folded value) i)
        (call_engine r h (add_request_header name (folded value)) w)

  -- The `Host` header of a request that has only `:authority`.
  unfoldable pub add_host : Host → State r → State r
  add_host h w =
      let property =
        value_or (h.value (codes "request" ∷ codes "headers" ∷ codes ":authority" ∷ [])) [] in
      let authority = value_or (h.request_header (codes ":authority")) property in
      if is_empty authority
      then w
      else call_engine r h (add_request_header (codes "Host") (host_of_authority authority)) w

  -- The transaction, and what is known of the request before its headers are read.
  unfoldable pub begin_transaction : Host → State r → State r
  begin_transaction h w =
      let tx_id = codes "wasm-" ++ decimal h.stream_id in
      record (emit (new_transaction tx_id) w) {
        is_active = true;
        transaction = some (r.engine.new_transaction tx_id);
        metrics = count_tx_total h.metric w.metrics;
        client_ip = value_or (h.value (codes "source" ∷ codes "address" ∷ [])) (codes "127.0.0.1");
        path = folded (request_path h);
        method = request_method h;
        request_id = correlated_id h w.request_id tx_id;
      }

  unfoldable pub connect : Host → State r → State r
  connect h w =
      let server =
        value_or (h.value (codes "destination" ∷ codes "address" ∷ [])) (codes "127.0.0.1") in
      call_engine r h
        (process_connection w.client_ip (port_of h (codes "source")) server
          (port_of h (codes "destination")))
        w

  unfoldable pub send_uri : Host → State r → State r
  send_uri h w =
      let token =
        modsec_http_version_token
          (value_or (h.value (codes "request" ∷ codes "protocol" ∷ [])) []) in
      call_engine r h (process_uri w.path w.method token) (record w { http_version_token = token })

  -- All headers, `Host` among them, and what they say of the body.
  unfoldable pub read_request_headers : Host → State r → HeaderInfo × State r
  read_request_headers h w =
      let (i, added) = add_request_headers h (value_or h.request_header_pairs []) no_headers w in
      (i, if i.has_host then added else add_host h added)

  -- The end of `onRequestHeaders`: a request with no body runs phase 2 at once.
  unfoldable pub finish_request_headers :
      Host → Bool → HeaderInfo → State r → FilterStatus × State r
  finish_request_headers h end_of_stream i w =
      if needs_body_buffer end_of_stream i w.method
      then (continue, w)
      else unless_blocked r h request_body_phase stop_iteration (log_and_continue r h)
          (run_request_body_phase r h w)

  -- `processRequestHeaders`, behind the headers.
  unfoldable pub run_request_headers : Host → Bool → HeaderInfo → State r → FilterStatus × State r
  run_request_headers h end_of_stream i w =
      unless_blocked r h request_headers_phase stop_iteration
        (finish_request_headers h end_of_stream i) (call_engine r h process_request_headers w)

  -- The headers, behind the request line.
  unfoldable pub inspect_request_headers : Host → Bool → State r → FilterStatus × State r
  inspect_request_headers h end_of_stream w =
      let (i, read) = read_request_headers h w in
      unless_blocked r h request_headers_phase stop_iteration
        (run_request_headers h end_of_stream i) read

  -- The request line, behind the connection.
  unfoldable pub identify : Host → Bool → State r → FilterStatus × State r
  identify h end_of_stream w =
      unless_blocked r h request_headers_phase stop_iteration
        (inspect_request_headers h end_of_stream) (send_uri h w)

  -- `onRequestHeaders`, which makes one part after the other unless the engine interrupts.
  unfoldable pub on_request_headers : Host → Bool → State r → FilterStatus × State r
  on_request_headers h end_of_stream w =
      if r.ready
      then unless_blocked r h request_headers_phase stop_iteration (identify h end_of_stream)
          (connect h (begin_transaction h w))
      else (continue, w)
