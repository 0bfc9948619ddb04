-- ===== src/Lib.antt =====
-- The payment switch of PixRail: what it does with a Pix transfer from the request to the settlement,
-- what its store keeps, and what its rate limiters and its fraud rules decide.
--
-- A transfer (internal/rail/model.go) is a value whose methods return the next value or an error. The
-- switch (internal/switcher/service.go) has five use cases, each a sequence of calls: it resolves the
-- receiver, scores the request, and writes transfers, outbox events and audit records through the
-- store (internal/store/memory.go), which does each call under its lock. A relay
-- (internal/messaging/relay.go) drains the outbox. The HTTP server (internal/api/server.go) lets
-- requests in by the API keys that the configuration (internal/config/config.go) lists, and calls the
-- switch under the key's tenant. Requests run side by side: between two calls of one
-- use case the others may write to the store.
--
-- Files:
--   Prelude       shared notation and lemmas: texts as lists of bytes, 64-bit integers, maps as
--                 association lists, errors as values.
--   Rail          internal/rail/model.go: the types; Rail/Request has Validate and Fingerprint;
--                 Rail/Transitions has ClaimSPISubmission, RecordSPISubmission, ReleaseSPISubmission,
--                 RecordReviewDecision and RecordSettlement; Rail/Calls makes calls of these into data,
--                 and Rail/Lifecycle is about histories of them.
--   Events        internal/events/events.go: Event, OutboxRecord and New.
--   Fraud         internal/fraud/engine.go: Score, and in Fraud/Policy the policy that it carries out.
--   Store         internal/store/memory.go: MemoryStore and its transfer methods; Store/Outbox and
--                 Store/Pending have the outbox and PendingSPISubmissions. Store/Invariant says how the
--                 maps agree; Store/Steps, Store/Changes and Store/Methods are about single calls,
--                 Store/History and Store/Promises about any history of calls, Store/Pending/Ready about
--                 the pending submissions, Store/Outbox/Exclusive about two claims of the outbox.
--   RateLimit     internal/ratelimit/limiter.go (TokenBucket) and internal/ratelimit/strategies.go
--                 (FixedWindow, SlidingWindow, LeakyBucket): one call of Allow is one step.
--   Switch        internal/switcher/service.go: Switch/Create and Switch/Draft have CreateTransfer,
--                 Switch/Submit has SubmitToSPI and SubmitPendingSPI, Switch/Review has RecordReview,
--                 Switch/Settle has RecordSettlement; Switch/Announce has the types of the events;
--                 Switch/Sound and Switch/Service are about all of the use cases together.
--   Relay         internal/messaging/relay.go: NewRelay, Drain and its backoff; Relay/Backoff is about
--                 the waits, Relay/Runs has the steps of a drain, and Relay/Drained is about what it
--                 does and counts.
--   Codec         internal/codec: PaymentEvent (events.go), Codec/Cbor (cbor.go), Codec/MsgPack
--                 (msgpack.go), Codec/Proto (proto_wire.go) and Codec/Cache (cache.go), each with what it
--                 writes and reads; Codec/Bytes has the numbers and the outcomes that they share. Their
--                 children RoundTrip read back what was written; Codec/Proto/Loop is about the end of the
--                 loop of ProtoWireCodec.Unmarshal.
--   Config        internal/config/config.go: Config/Keys has parseAPIKeys and parseRoles, Config/Load has
--                 Load; Config/Keys/Apart, Config/Load/Range and Config/Load/Sound are about what comes out of
--                 them.
--   Metrics       internal/observability/metrics.go: ObserveRequest, ObserveDecision, ObserveEvents.
--   Api           internal/api/server.go: Api/Auth has authRole and the signature of callbacks,
--                 Api/Handlers the handlers, and Api/Middleware what counts the requests around them;
--                 Api/Handlers/Entitled, Signed and Own and Api/Safe are about what a request may change
--                 and see.
--   Ports         internal/dict/resolver.go and internal/spi/simulator.go: Resolve and Submit; Ports/Laws
--                 is about the risk that Resolve gives.
--   Tests         runs on concrete data.
--
-- How the code is read. A Go string is its bytes. A time is the number of nanoseconds since Go's zero
-- time, so that 0 is IsZero. An int and an int64 are integers that wrap around at 64 bits where the code
-- computes with them. A map is an association list, and a walk over a map comes in an order that is a
-- parameter. An error is a kind (the sentinel that errors.Is finds) and a message. A method that can fail
-- returns a result; no method of the store writes before it returns an error, so an error comes without a
-- store. `Env` holds what a use case draws from outside: the clocks, the random identifiers, SHA-256,
-- json.Marshal, the resolver, the scorer, the SPI client, the state of the context, and `meanwhile`, what
-- others did to the store before the n-th call. A reader of internal/codec gives a value, an error or a
-- panic; an empty slice and a nil one are the same list. Two loops run on fuel, both in Codec/Proto: the
-- writer of a varint on ten passes, as many groups of seven bits as a 64-bit number has
-- (append_varint_raw_lem), and the reader of an event on as many as there are bytes (unmarshal_ends). The
-- other loops go over a list or count down.
--
-- Not modelled: the PostgreSQL store, the JSON codec and the JSON of requests and answers, the mux,
-- the page for Prometheus, tracing, logging and the commands. The locks themselves are
-- taken for granted: a method that runs under a lock is one step. The timeout of the call to the SPI is a
-- matter of the SPI client's answer.
pub mod Prelude
pub mod Rail
pub mod Events
pub mod Fraud
pub mod Store
pub mod RateLimit
pub mod Switch
pub mod Relay
pub mod Api
pub mod Codec
pub mod Metrics
pub mod Ports
pub mod Config
pub mod Tests
