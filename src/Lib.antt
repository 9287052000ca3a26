-- ===== src/Lib.antt =====
-- Verification library of the policy core of the SDK, packages/sdk/src.
--
-- The program sits between an agent and what it does. A request or a tool call is allowed or
-- refused by a policy decision that comes from a cache, a policy decision point on the same host
-- (PDP), the central service, or a human who approves; each of these can fail, be slow or be out of
-- date. What is modelled is how the SDK combines them. Around the decision, an event carries the
-- dimensions of a tenant schema, which may be derived, fetched from a webhook and masked, and its
-- payload is masked by field rules.
--
-- The paths below are under packages/sdk/src.
--
-- Express: frameworks/express. `CircuitBreaker` is circuit-breaker.ts, `DecisionCache` is
-- decision-cache.ts, and `Guard` is guard.ts: `run_guard` is one request through `agentumGuard`.
-- `Hitl` is `parseHitlAdvice` of types.ts, which the guard calls.
-- Cedar: evaluation/cedar-client.ts. The state is `CedarToolCallClient`; `Grants` is
-- `ApprovalGrantCache`, `Pdp` is `discoverPdp` and `attemptPdp`, `Evaluate` is `evaluateToolCall`,
-- `Control` is what other parts call to invalidate, grant, suspend and ask for addons, and `Audit`
-- is the audit events.
-- Manifest: manifest. `Reconcile` is reconcile.ts, and `Subscriber` is sse-subscriber.ts, which
-- steers the client of Cedar by the events of the server. `Validator` is the rules of validator.ts,
-- and its `Spec` says without loops what they check.
-- SimulateCache: simulate-cache.ts, without the parser of the headers.
-- Enrichment: enrichment. `Breaker` is circuit-breaker.ts and `RateLimit` is rate-limit.ts; a bucket
-- is counted in thousandths of a token. `Client` is client.ts, over these two: a fetch is cut at its
-- request, `fetch_start` and `fetch_end`. `Response` is the response block of a manifest (types.ts)
-- and the check of a reply against it.
-- Instrumentation: instrumentation. `Template` is derived-template.ts and `Dimensions` is
-- resolve-dimensions.ts, which evaluates templates and asks the enrichment client.
-- Pii: pii. `Path` and `FieldRules` are field-rule-trie.ts: reading the path of a rule, compiling the
-- rules, and masking what they match in a value of `Json`.
-- Vault: vault/resolver.ts, the placeholders of secrets in headers; the interceptor of fetch that
-- calls it is not modelled.
-- JsMap is the built-in `Map` in insertion order; Prelude has the shared names and lemmas, and
-- Prelude/Text the text operations of the language.
--
-- How the code is put into functions. Every operation takes the state and gives the state after it;
-- `Date.now()` is an argument, and two reads of it with no await in between may share one. An async
-- function is one function that is cut at each await: the replies of the network are data of a
-- record `World`, and a function `meanwhile` of that record is what other tasks do to the shared
-- state while the call waits. An exception that leaves a function is a value (`rejects`, `throws`):
-- of a tool call, that of a hash of its arguments or context, of `JSON.stringify` and of the PDP's
-- body. What a logger, an audit sink, `getAgentumContext` or a timer throws is left out.
-- Sequences of operations are lists, the newest first; those of the breaker of Express and of the
-- guard's requests are the oldest first. Recursion is structural, or on fuel in three places,
-- where it is enough: the loop over the path of a field rule (`Path/Loop`) and the
-- one over a template (`Template/Loop`) have the length of the text, of which a turn takes at least
-- one character, and the descent of a field rule (`FieldRules/Termination`) has the depth of the value,
-- which no run makes deeper.
--
-- Numbers are natural. `x | 0` wraps at 2^32 and `Math.max(n, x | 0)` is `max_int32`; a time is in
-- milliseconds since 1970. A field of JSON that is missing or of the wrong type is `none`.
--
-- Not modelled: the network, the loggers, the posting of audit events, the hash functions (their
-- results are arguments), regular expressions, `JSON.stringify`, ciphers and the LRU cache, which are
-- parameters, the fetches in flight that callers of the enrichment client share, metrics, the
-- adapters for other frameworks, the instrumentation of fetch and http, the text scanner and the
-- pipeline of the PII layer, the admin client and the user interface. An own key
-- `__proto__` of a value and keys that an object inherits are left out.
pub mod Cedar
pub mod Enrichment
pub mod Express
pub mod Hitl
pub mod Instrumentation
pub mod JsMap
pub mod Manifest
pub mod Pii
pub mod Prelude
pub mod SimulateCache
pub mod Vault
