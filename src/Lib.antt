-- ===== src/Lib.antt =====
-- Syrogo: routing, provider health, quotas, dispatch and sessions of an LLM gateway.
--
-- The gateway admits a client's request against the client's quota (internal/gateway/handler.go),
-- the router turns the request into a plan of outbounds (internal/router), and the dispatcher
-- tries the outbounds in turn (internal/execution), asking the quota tracker (internal/quota) and
-- the health tracker (internal/provider/health.go) before each attempt and telling them its
-- outcome afterwards. Apart from that, the gateway keeps the sessions of its clients
-- (internal/sessions), which their hooks report.
--
-- Base          lists, maps, Boolean tests and sorting that all parts share
-- Runtime       internal/runtime/runtime.go: requests, responses, stream events and plans
-- Provider      internal/provider: Error is errors.go, Health is health.go
-- Router        internal/router/router.go: Wildcard the model patterns, Order rotation and
--               removal of duplicates, Compile `New`, Plan `Plan` and `PlanDryRun`
-- Quota         internal/quota: Schedule, Window, Tracker, Configure (trackers from the
--               configuration), Reconfigure, Persist (export and import),
--               Snapshot and Money (the texts of costs) are tracker.go,
--               Events is events.go
-- Execution     internal/execution/dispatcher.go: Preferred the choice of the error, Dispatch
--               `Dispatch`, Stream `DispatchStream` and `wrapStream`
-- Sessions      internal/sessions: State is state.go, Store is store.go and types.go
-- Accounting    internal/accounting: Pricing is pricing.go, Memory is memory.go (Queries what it answers)
-- EventStream   internal/eventstream: model.go; Adapter is adapter.go, Blockwise stream.go
-- Config        internal/config: Resources is resources.go; the others are config.go: Cost amounts of
--               money, Windows quotas, Outbounds, Routing, Entrances clients and listeners,
--               Validate `Validate`, Schema the types
-- Logging       internal/logging/recent.go: Recent
-- Tests         runs at concrete inputs
--
-- The modules below a component hold its theorems. A function keeps the name of the Go function
-- in snake_case; a method takes its receiver as an argument and returns it. A nil pointer is
-- `none`. A mutex makes a method one step, and a reading of the clock is an argument. Times are
-- nanoseconds from Go's zero time, as natural numbers, so the zero time is 0; counts and costs are
-- natural numbers that do not wrap. A Go map is an association list. What Go's `time` package
-- computes is the record `TimeLib`, and what its parsers make of the texts of a configuration is
-- the record `Parsers`; the texts of the times of usage records, and their sums of costs, are
-- `UsageLib`: all are parameters. The loops run over lists, but for three on fuel: that of `Write` in
-- Logging has the number of its bytes, of which each round takes one; that of the days of a query
-- in Accounting has one round more than there are whole days between its ends; and that of the
-- digits of a cost has more rounds than the number, which each round divides by ten.
-- What a provider returns is given for each step of a plan, with the readings of the clock around
-- the call; a stream is the sequence of what its goroutine's selects receive.
--
-- Not modelled: HTTP, JSON, YAML and files (the gateway's codecs, the providers' clients, the
-- reading of the configuration, the snapshot stores), the latency measurements, the administration
-- pages, OAuth, the usage files, and the commands.
pub mod Base
pub mod Runtime
pub mod Provider
pub mod Router
pub mod Quota
pub mod Execution
pub mod Sessions
pub mod Accounting
pub mod EventStream
pub mod Logging
pub mod Config
pub mod Tests
