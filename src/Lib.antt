-- ===== src/Lib.antt =====
-- Verification of herdr-expose, the Go daemon that exposes the panes of local Herdr sessions to
-- browsers, phones, chat adapters and other agents.
--
-- The program keeps one client per Herdr session (internal/upstream). The session store
-- (internal/core/store.go) folds their snapshots into one tree, under an optional share scope
-- (internal/core/scope.go), and names every pane by a session-qualified target
-- (internal/core/target.go). A hub (internal/core/hub.go, shared.go) keeps, for each connection, the
-- terminal streams and the polls (transcript.go, clean.go) of what its client renders, and hands the
-- output to one coalescer per connection (internal/core/viewport.go), whose writer sends binary frames
-- (internal/core/wire.go). The HTTP and
-- WebSocket server (internal/serve) guards all of it by tokens, a rate limiter (auth.go) and a gate
-- for connections (connlimit.go). Beside that, agents send one another requests through a store of
-- files (internal/msg), and supervisors keep chat adapters running (internal/chat).
--
-- Which file models which part:
-- - Prelude: numbers, Boolean tests, lists, Go strings as lists of bytes, Go maps with string keys as
--   association lists.
-- - Upstream.Model: the records of internal/upstream/model.go.
-- - Core.Target: SplitTarget, JoinTarget, SessionOf, IDOf and StripSession of internal/core/target.go.
-- - Core.Scope: ParseScope, filterSnapshot and the Allows methods of internal/core/scope.go. A nil
--   scope is `none`.
-- - Core.Wire: the encoders and decoders of internal/core/wire.go. `client_frame` is the client's side
--   of the format, which the file describes in a comment and only decodes.
-- - Core.Coalescer: push, markGap, run, writeRun and close of internal/core/viewport.go. The part of
--   `run` under the lock is `drain`, and writeRun is in Core.Coalescer.Output. Core.Coalescer.System
--   makes the critical sections of the producers, the writer and `close` the steps of one system, in
--   any order.
-- - Core.Sessions: the writer's state and the tree of internal/core/store.go: applySnapshot,
--   forgetSession and isSettled; Core.Sessions.Publish has publish, and Core.Sessions.Reconcile has
--   reconcile, ensureWorker and stopWorker; Core.Sessions.Resolve has Client and Resolve.
-- - Core.Seen: internal/core/seen.go, with a set as the list of its keys.
-- - Core.Viewport: the modes and the geometry of internal/core/viewport.go.
-- - Core.Pollers, Core.Summary and Core.Transcript: the pollers of internal/core/hub.go and
--   internal/core/transcript.go, with the subscriptions as maps of maps and each poll as one step.
-- - Core.Cleaner: internal/core/clean.go, with each regular expression as a test.
-- - Core.Hub: Session, liveStream and sharedStream of internal/core/hub.go and shared.go: geometryFor,
--   startStream, attachShared, detach and stopStream. Core.Hub.Streams has the operations of a
--   connection (SetGeometry, MatchPane, SetViewport, Input, Scroll, Repaint, Close), Core.Hub.Restarts
--   the supervision of a dead stream, and Core.Hub.Steps runs of one connection among others.
--   Core.Hub.Fanout has OnFrame and OnClosed of a shared stream, and events of all connections.
-- - Core.Ansi: StripANSI of internal/core/ansi.go; Core.Ansi.Pieces says what an output is made of.
-- - Serve.Auth: the state of internal/serve/auth.go and its file; Serve.Auth.Access has Authenticate,
--   NewPairingCode, RedeemPairing and LoginWithPassword, Serve.Auth.Admin what the operator calls. What
--   another process writes is a step that changes the file.
-- - Serve.RateLimiter: rateLimiter of internal/serve/auth.go, in exact arithmetic on nanoseconds where
--   the source has floating point. Serve.ConnGate: internal/serve/connlimit.go, with the release
--   closure as a ticket.
-- - Msg.Store and Msg.Service: internal/msg/store.go and service.go. The directory is two maps, and
--   what Herdr answers is an argument; Msg.Service.Retry is one turn of the loop Run, and
--   Msg.Service.Once the steps that the daemon takes on its store.
-- - Chat.Supervisor: the restart policy of internal/chat/supervisor.go over the ends of child runs.
-- - Tests: each result at a concrete input.
--
-- Bounds and fuel: the 64-bit counters of the output plane and of the revisions wrap as written. The
-- loop of writeRun runs on as much fuel as there are frames, and each turn takes at least one; the
-- loop of StripANSI runs on the length of the text, and each turn takes at least one byte. All other
-- loops are structural.
--
-- The loop of superviseRestart runs on the attempts that are left of eight.
--
-- Not modelled: sockets, HTTP handlers, the WebSocket protocol, JSON, files but for the state of Auth,
-- the tickers of the pollers, two operations of one connection at the same time, the discovery
-- of sessions on disk, agent logs, expose configurations, the command line, the web client. A hash of a
-- tree, the ids of requests and the answers of Herdr are arguments. Memory is not modelled but for the
-- pooled buffers of the coalescer, which carry a number each. A mutex makes one step of what it holds
-- for; goroutines interleave as sequences of such steps.
pub mod Prelude
pub mod Upstream
pub mod Core
pub mod Serve
pub mod Msg
pub mod Chat
pub mod Tests
