-- ===== src/Lib.antt =====
-- A model of the core of Trustee: the key broker service (kbs), the attestation service
-- (attestation-service), the verifiers of TDX and NVIDIA evidence (deps/verifier), the key-value
-- storages (deps/key-value-storage), the policy engine over them (deps/policy-engine), the reference
-- value provider (rvps) and the confidential computing event log (deps/eventlog).
--
-- How the parts interact. A client asks the key broker service for a secret. `api` (kbs/src/api_server.rs)
-- routes the request: the attestation service (kbs/src/attestation) issues a challenge for a new session
-- and later verifies evidence against it, which leaves a token in the session; with that token, and if
-- the policy allows it, `api` calls a plugin, and the resource plugin (kbs/src/plugins) reads the secret
-- from its repository; the administrator (kbs/src/admin) writes secrets and policies. The attestation
-- service hands the evidence, with the digest of the runtime data that it must carry, to the verifier
-- of its platform, which parses the quote or report and compares it, and the token broker issues a
-- token for the verifiers' claims. The TDX verifier replays the event log against measured registers.
-- The storages keep policies and reference values.
--
-- Prelude: names of the libraries, lists and Boolean tests on native numbers, `Result` (an error that
-- is returned is `err`, a panic is `panic`) and its bind, slices of bytes, and the association list
-- `Dict`.
--
-- Kvs: `KeyValueStorage` of deps/key-value-storage/src/lib.rs, with is_valid_key. Kvs.Contract states
-- what a storage promises as a map, and Kvs.Memory, Kvs.LocalJson and Kvs.LocalFs are the backends of
-- memory.rs, local_json/mod.rs and local_fs/mod.rs. A method takes the state and returns its result and
-- the state it leaves. `set` of the memory backend takes its lock twice, so its two halves are
-- has_key and write. The JSON file is serde_json and base64 over contents that may be unreadable; the
-- directory says which operations of the system succeed. Their locks are dropped where they are taken,
-- and a call of theirs is modelled as one step with no other call in between.
--
-- PolicyEngine: deps/policy-engine/src, policies in a storage and their evaluation by regorus, whose
-- engine is a field of `RegoTools`. PolicyEngine.Storage uses the contract of the storages.
--
-- Rvps: lib.rs, reference_value.rs, extractors/mod.rs and storage/mod.rs of rvps/src, and Rvps.LocalJson
-- storage/local_json/mod.rs, again with each call as one step. The clock
-- is in nanoseconds and an expiration in whole seconds; the months that are added to it are a parameter.
--
-- Kbs.UrlPath: splitting and joining paths. Kbs.ResourceDesc, Kbs.LocalFs, Kbs.Resource: resource
-- descriptions, the file system backend and the resource plugin of
-- kbs/src/plugins/implementations/resource. The regular expression is a test of the parts between
-- slashes. Kbs.PluginManager: plugin_manager.rs. Kbs.Admin: kbs/src/admin.
--
-- Kbs.Session and Kbs.Attestation: session.rs and backend.rs of kbs/src/attestation. `__attest` gives
-- the session up between preparing the evidence and finishing it, so it is begin_attest and
-- finish_attest, and Kbs.Attestation.World interleaves the steps of any number of requests with the
-- task that sweeps expired sessions. Each function that reads the clock takes the time, in minutes, and
-- a new session takes its id. `AttestationError` tells apart what the code wraps in RcarAuthFailed,
-- RcarAttestFailed and SetPolicy. `verify` of the backend may panic, as the verifiers behind it may.
--
-- Kbs.Api: the state of the server and its errors; Kbs.Api.Handler: the routes of `api` and the calls
-- of a plugin; Kbs.Api.Access and Kbs.Api.Secrets: who reaches a plugin, and what leaves it. The feature
-- "as" is on. Kbs.Token and Kbs.Token.Jwk: token/mod.rs and token/jwk.rs of kbs/src, the choice of the
-- key that a token must be signed with; Kbs.Api.Trusted puts this verifier into the server. Of a key and
-- a header the fields that the code reads are kept.
--
-- Eventlog: deps/eventlog/src/lib.rs with ccel/tcg_enum.rs and ccel/mod.rs. Eventlog.TcgEnum has the
-- enums and their tables, Eventlog.Parse the parser of the log and Eventlog.Replay the replay into
-- registers. The loop of the parser runs on fuel, the number of bytes of the log: each entry has at
-- least sixteen.
--
-- AttestationService: `evaluate` of attestation-service/src/lib.rs with parse_runtime_data and
-- parse_init_data, the native branch and that of the Wasm host. AttestationService.Binding follows a
-- token back to its requests, and AttestationService.Tdx to the quote. Claims of init data are a map of
-- JSON values, and their texts in TOML are turned into JSON by a parameter.
--
-- Verifier: deps/verifier/src/lib.rs. Verifier.Tdx.TdQuote is the parser of tdx/quote.rs, whose structs
-- are read field by field with `pread`, and Verifier.Tdx is verify_evidence of tdx/mod.rs. Under
-- Verifier.Nvidia are the files of nvidia: Request (spdm_request.rs), Measurements, DataType, OpaqueData
-- and Response (spdm_response.rs), CertChain (cert_chain.rs), Report (report.rs) and Devices (mod.rs).
-- The loop over opaque data runs on fuel, the number of its bytes: each item takes at least four. The
-- index of measurement counts is a u8, which wraps as in a release build, and so does the start of the
-- FWID in a certificate's extension of fewer than 48 bytes.
--
-- Parameters, for code of other crates: serde_json, semver, the concurrent map of scc (with the laws of
-- `ConcurrentMapLaws`), base64, `scroll` (with the laws of `ReaderLaws`) and the hash functions. The
-- backends of the trait `Attest`, the policy engine, jsonwebtoken (with `FindsById` for its key sets), jwe
-- and the parsers of an event's contents are parameters too, and so are the DCAP verification, the TDX
-- claims, OpenSSL, the formatting of bytes as text, the Wasm host, the token broker and the extractors
-- of reference values.
--
-- Not modelled: the verifiers of other platforms, the remote verifier of NVIDIA, the broker of EAR
-- tokens, the extractors of reference values and their storage in sled, the optional plugins, the
-- PostgreSQL storage, configuration, HTTP, the reporting of times, and metrics export. Starting a component
-- (creating its directory or file) is left out.
pub mod Prelude
pub mod Kvs
pub mod Kbs
pub mod Rvps
pub mod Eventlog
pub mod PolicyEngine
pub mod Verifier
pub mod AttestationService
