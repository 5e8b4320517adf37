-- ===== src/Lib.antt =====
-- Forge Wingman picks up delegated Linear tickets and builds each in a run of its own. This development
-- models its core: the decision of a poll which queued run may start (internal/dispatcher) and the queue
-- that keeps the runs and the reservations of the budget in Firestore (internal/store).
--
-- How the parts interact. A poll of the dispatcher enqueues the delegated tickets, and for each queued
-- run calls TryClaim, one transaction that re-reads the run's row and the ledger, asks Admit, which asks
-- Decide about the budget, and books the reservation with the claim. A claim whose dispatch fails is
-- released or stopped. The run's record job settles its reservation, which moves the recommended number
-- of runs at once. A plan may suspend its run on a decision until the owner answers; a run that ended is
-- requeued by an operator, by a poll after a transient failure or a conflict, or by the owner with a
-- note; a sweep abandons the claims that report nothing.
--
-- Which file models what:
--   Prelude, Text, Int64, Time, GoMap: what the sources use of Go: lists, strings, int64, time.Time, map.
--   Runner: the data of internal/runner that a row holds (record.go, transient.go, decision.go, build.go).
--   Dispatcher.Budget: internal/dispatcher/budget.go (Decide, Window.Since, lastResort).
--   Dispatcher.Settled: internal/dispatcher/settled.go (Sums, settledSince, planSince, historySince).
--   Dispatcher.Admit: internal/dispatcher/admit.go (Admit, HeldBeforeBudget).
--   Dispatcher.Concurrency: internal/dispatcher/concurrency.go (NextConcurrency, Recommend).
--   Store.Keys, Store.Row, Store.Ledger, Store.Db: the keys of the ledger, a run's row, dispatch/ledger
--     and the documents that a transaction sees (internal/store/queue.go, inbox.go).
--   Store.Queue: Enqueue, the refreshes, TryClaim, Release, Stop, the requeues and Settle of
--     internal/store/queue.go, with concurrency.go and runs_at_once.go.
--   Store.Decisions: internal/store/decision.go. Store.Retry: internal/store/retry.go.
--   Store.Sweep: internal/store/sweep.go and internal/dispatcher/sweep.go.
--   Store.Notices: internal/store/breaker.go and postNotices of internal/dispatcher/notice.go.
--   Store.Inbox: RecordCancel and RecordMerge of internal/store/firestore.go, with inbox.go and stuck.go.
--   Store.Holds: internal/store/holds.go (RecordHold). Dispatcher.Holds: internal/dispatcher/holds.go.
--   Providers.Peak: Peak of internal/providers/config.go and internal/dispatcher/peak.go.
--   Runner.Ticket: internal/runner/ticket.go. Text.Regex: the patterns of Go's regexp, by derivatives.
--   Tickets: internal/dispatcher/ticket.go, with sizer.go (Tickets.Sizer), models.go (Tickets.Models), and admit
--     of dispatcher.go (Tickets.Admission).
--   Poll: poll of internal/dispatcher/dispatcher.go (Poll.Whole): requeueStopped of transient.go (Poll.Requeues),
--     admitClaims with what it reads and raises (Poll.Tier, Poll.Facts, Poll.Deferrals, Poll.Claims), and the
--     dispatch of its claims (Poll.Dispatch). Poll.Decide: internal/dispatcher/decision.go (postDecisions).
--     Poll.Sweeps: Poll up to its sweep, with sweep.go of internal/dispatcher and internal/store.
--   Store.Accounting, Store.Effects: proofs about one transaction and about two in a row.
--   Store.Trace: sequences of transactions, the owner's marks among them. StopWaiting writes without a read, so a sequence
--     in which it meets a claimed run orphans that run's reservation; a poll stops only what it has listed as waiting, and
--     only a poll claims (Poll.Decide.Sound, Poll.Decide.Books). Examples: tests, and the theorems on concrete runs.
--
-- How the model reads the source:
--   A document collection is a function from ids, and a transaction a function from one state of the
--   store to a result: Firestore serialises transactions, and one that returns an error writes nothing.
--   Firestore's own failures are arguments of a poll's attempts to claim (attempt_claim), of its dispatches and of its
--   decisions; elsewhere a transaction fails only as its own code does, and one that Firestore fails is one left out.
--   A field that is missing and one that holds its zero value are one value where no code tells them
--   apart. What a query reads (the settled history, recent phase times, notices) is an argument.
--   A time is the nanoseconds since Go's zero time, and an int64 its 64-bit pattern, with the wrap-around
--   written out. A float64 is a bit pattern whose operations are a parameter (FloatOps). Text is ASCII
--   code points, and EqualFold folds ASCII letters. A Go map is an association list. A run's id is its
--   ticket's, which internal/runner/ticket.go holds to letters, digits and dashes, so no id holds a `#`.
--   A definition recurses on its data, but for two loops on fuel: a number's digits, with more fuel than it
--   has, and the hours of a span, with one round for each that it touches. Arithmetic on the amounts of a budget is
--   exact below 2^60, which is what the theorems about it assume.
--
-- Not modelled: the calls of Linear and GitHub that a poll makes, whose answers are arguments, the
-- build of a run (internal/runner), the providers' plan records, the HTTP handlers and commands (cmd,
-- internal/webhook, internal/linear), and the listings and reports of internal/store.
pub mod Prelude
pub mod Text
pub mod Int64
pub mod GoMap
pub mod Time
pub mod Runner
pub mod Providers
pub mod Dispatcher
pub mod Store
pub mod Tickets
pub mod Poll
pub mod Examples
