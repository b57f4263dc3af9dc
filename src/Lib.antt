-- ===== src/Lib.antt =====
-- A model of the DonkeyWork Vault server and of what makes it correct. The server keeps API keys,
-- access keys and OAuth tokens, encrypted under keys of its configuration, and an audit trail of
-- every use. Paths below are from the root of the repository.
--
-- How the parts interact: a request passes the rate limiter, the authentication and the scope gate
-- (Http); the services (Service) then work on the store (Store), encrypt with the envelope cipher
-- (Crypto) and report to the audit sink (Audit), whose events the store keeps as the trail.
--
--   Base              the shared helpers: Boolean tests, lists, Go's errors (Base/Fallible), methods
--                     with a receiver (Base/Exec), strings (Base/Strings), base64 (Base/Base64),
--                     maps with uuid keys (Base/Table), sort.Slice (Base/Sort), negative ints
--                     (Base/Integers).
--   Crypto            src/server/internal/crypto: crypto.go in Crypto, Crypto/Blob and
--                     Crypto/Envelope; localkek.go in Crypto/LocalKek. Crypto/Cipher is the
--                     interface that the services take. Proofs: Crypto/Format, RoundTrip, Rotation,
--                     Total.
--   Store             src/server/internal/store: types.go in Store/Types; memstore/memstore.go in
--                     Store/Rows, Store/Mem and its children, one for each kind of row. Method is a
--                     call that writes, as a value. Proofs: Tidy, WellFormed and
--                     Method/Invariant; SameRows and Method/Isolation; Lookup, Claims, Cascade,
--                     Slice, Trail and Sweep.
--   Audit             src/server/internal/audit: types.go, redactor.go, retention.go, log.go,
--                     query.go, writer.go (Audit/Writer and Audit/Writer/Run) and forwardedip.go
--                     (Audit/ForwardedIp) in the files of these names. Proofs: Names, Redaction,
--                     Swept, Sink, Scoped, Persisted, Provenance, Writer/Flushed, Writer/Delivered.
--   Service           src/server/internal/service: accesskey.go, apikey.go, and in Service/Usage
--                     service.go with src/server/internal/contracts. Proofs: Normalized,
--                     Authentication, Issue, Reveal. keyedmutex.go in Service/KeyedMutex, with
--                     Counted and Exclusion. Service/Oauth has httpform.go and
--                     src/server/internal/oauth; oauthconfig.go, oauthtoken.go and oauthflow.go are in
--                     its Configs, Tokens and Userinfo, Exchange, Flow. Proofs: Replay, Stored,
--                     Connected, Refreshed, Filtered.
--   Manifests         src/server/internal/manifests: manifest.go in Manifests and Manifests/Loader,
--                     resolver.go in Manifests/Resolver, discovery.go in Manifests/Discovery. Proofs:
--                     Upserted, Catalog.
--   Http              src/server/internal/httpapi: scopemap.go and the scope gate in Http/Scopes,
--                     middleware.go in Http/Middleware, limits.go in Http/Limits; dto.go and
--                     respond.go in Http/Dto, handlers.go in Http/Handlers, router.go in
--                     Http/Router, with limits and baseContext; server.go in Http/Server. Proofs:
--                     Gate, Identity, SameButUses, Guarded,
--                     Budget.
--   Config, Program   src/server/internal/config/config.go, and what
--                     src/server/cmd/vault/main.go builds from it. Proof: Program/Ready.
--   Cli               src/cli: internal/credstore/credstore.go in Cli/Credstore,
--                     internal/selfupdate/selfupdate.go in Cli/Selfupdate. Proofs:
--                     Cli/Credstore/Resolved, Cli/Selfupdate/Verified.
--
-- How the code is modelled:
--   * a Go string or byte slice is a list of bytes (Text); a uuid is a number, with 0 for uuid.Nil; a
--     time is a number of nanoseconds, with 0 for the zero time;
--   * a method is a function from the state to its result and the state after it (Exec), so that what
--     was written before an error stays written. A method of the in-memory store holds its mutex
--     from start to end and is one step;
--   * uuid.New and time.Now are arguments, and crypto/rand is a list of bytes in the state that a read
--     uses up;
--   * the HTTP client is a function from requests to replies, given anew to each call of a method; JSON,
--     YAML, URL encoding and url.Parse are parameters, and what a theorem needs of them is one of its
--     hypotheses; a handler is given the decoded request and gives the value that is encoded;
--   * goroutines are a list, and the keyed mutex a step relation on it, in which every order of steps
--     is possible; addresses of mutexes are numbers, and a new one is never used twice. A refresh of a
--     token holds that mutex from start to end and is one step elsewhere;
--   * AES-GCM is a parameter (Aead) with the laws that IsAead names: a tag of 16 bytes, Open inverts
--     Seal and accepts nothing else. SHA-256, net/netip, the verification of tokens and uuid.Parse are
--     parameters without laws;
--   * a map is an association list, and a range over it runs in the order of the list; sort.Slice is an
--     insertion sort; ToLower acts on ASCII; an index out of range is the error panic;
--   * an error keeps its kind and its text without the formatted arguments;
--   * the loop of the audit writer is given for each round what its select chooses;
--   * every loop is structural recursion on the list that it runs over. The loop of Sweep runs over a
--     list of rounds, each saying whether the context still lives, and one round more than there are
--     rows is enough.
--
-- Not modelled: the Postgres store and its migrations (SQL), the cap on a request's body and the matching of paths, the start
-- of the HTTP server and its shutdown, the discovery of the identity provider, telemetry, the rest of
-- the command-line client, generated code and the web portal.
pub mod Base
pub mod Crypto
pub mod Store
pub mod Audit
pub mod Manifests
pub mod Service
pub mod Config
pub mod Http
pub mod Program
pub mod Cli
