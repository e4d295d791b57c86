-- ===== src/Lib.antt =====
-- The ModSecurity filter for Envoy (proxy-wasm): its configuration, text helpers, metrics and stream
-- filter.
--
-- The program is an Envoy plugin. A root context reads the configuration, sets up libModSecurity
-- and loads rules; a stream context per HTTP request hands the request and the response to the
-- engine in phases, asks it for an intervention after each, and answers with a local reply, a
-- replaced body, log lines, metrics and telemetry. The development models both, and what they use:
--
--   Http         header names, lengths, versions and statuses (src/modsecurity_proxy_wasm.cc)
--   Escape       jsonEscape and classicLogSanitize (src/modsecurity_proxy_wasm.cc), and the string
--                reader of extractJsonStringValue (src/waf_config.cc)
--   Fullwidth    normalizeFullwidthAsciiInPlace (src/modsecurity_proxy_wasm.cc)
--   Options      the option structs (src/metrics.h, src/waf_config.h)
--   Metrics      ModSecMetrics (src/metrics.cc)
--   Telemetry    wafTelemetrySampleAt, wafTelemetryAction, wafTelemetryLooksSecret
--                (src/waf_config.cc)
--   Config       src/waf_config.cc: Config.Json has the scanner of JSON text, Config.Parse the
--                plugin's options, its identity and the fallback, Config.Base64 and
--                Config.Directives the directives of a profile (base64Decode, gzipInflate,
--                loadDirectiveList), Config.Includes what an Include loads or adds to a text,
--                Config.Batches the loop of applyJsonConfig over the lines of the directives,
--                Config.Apply applyWafConfiguration and expandWafConfiguration, Config.DataFiles
--                parseDataFiles
--   Vfs          rule references and phrase files (src/wasm_vfs.cc)
--   Configure    ModSecRootContext (src/modsecurity_proxy_wasm.cc): Configure has its log lines and
--                loadRuleChunk, Configure.Handler onStart and onConfigure, Configure.Closed what an
--                accepted configuration has loaded
--   Stream       ModSecContext (src/modsecurity_proxy_wasm.cc): Stream.Log has its log lines,
--                Stream.Record the recording of rule matches and the engine's log callback,
--                Stream.Interrupt interventions, replies and the phases, Stream.Body,
--                Stream.Request and Stream.Response the callbacks, Stream.Events onLog, onDelete
--                and whole streams; Stream.Phases relates them to an abstract view
--   Plugin       the streams of a plugin behind onConfigure
--   Text, Base   std::string and the shared helpers
--
-- A text is its list of bytes. A position in the text of a configuration stands as the text from
-- there on, npos as `none`, and a failure as `none` too: the texts of errors are not modelled. The
-- state of a stream is a record with the members of ModSecContext, whether it is the active context,
-- the metrics of its root, and the effects so far (calls of the engine and the host), the newest
-- first; a handler is a function from a state to a status and a state. The state of the root context
-- is a record of its members, the runtime data files and its log. libModSecurity is a parameter, the
-- record Stream.Engine: any transaction type with any answers, rule messages and log callbacks, and
-- for the loading of rules the record Configure.RuleSets. The host's answers are an argument of each
-- callback, the record Stream.Host, so that they may change from one callback to the next. A stream
-- is onRequestHeaders after onCreate, then a list of callbacks in any order and number, then
-- onDelete. Metrics keep an association list from names to ids, the budgets of distinct series, and
-- the calls of the host; a failed definition of a metric is an answer of the host. zlib
-- (Config.Directives.Inflate), the catalog of rule files that the build generates
-- (Config.Includes.Catalog), strtod, the order in which a hash map lists its entries and the size of
-- the heap are parameters. So is what a failed load leaves in the engine's rules and in the log: the
-- loads of a configuration are a chain of steps that ends at the first failure.
--
-- All functions are structurally recursive, but for four loops over JSON text, which take fuel: one
-- more than the length of the text, and each round leaves a shorter text; a run out of fuel has no
-- result, so that enough fuel is a statement of its own. Counters of bytes are
-- unbounded natural numbers, since no buffer comes near the size of the address space; parsed
-- numbers saturate and wrap as strtol, strtoull and the casts do, or are refused where stoi throws.
-- Ports wrap to int as the cast does. Doubles are a parameter (Telemetry.Floats).
--
-- Not modelled: version constants (src/version.cc; the version line is a parameter of onConfigure)
-- and libc stubs (src/wasm_stubs.c), which hold no logic, the texts of errors in src/waf_config.cc,
-- and the engine's answer to `@pmFromFile` beyond the lookup of the file. Each stream is modelled by
-- itself: another stream may become the active context between two callbacks, and every callback
-- that calls the engine makes its own context the active one first.
mod Base
pub mod Text
pub mod Http
pub mod Escape
pub mod Fullwidth
pub mod Options
pub mod Metrics
pub mod Telemetry
pub mod Config
pub mod Stream
pub mod Vfs
pub mod Configure
pub mod Plugin
mod Tests
