-- ===== src/Lib.antt =====
-- The core logic of ebiclaw: which agent a message goes to and in which session, which model answers
-- it, what happens when a model fails, what of a conversation is sent, and what a session keeps.
--
-- A channel adapter admits a message by its sender (pkg/identity), the route resolver chooses an
-- agent and a session key for it (pkg/routing/route.go, session_key.go, agent_id.go), the router
-- scores it and chooses the light or the primary model (pkg/routing/router.go, classifier.go,
-- features.go), the fallback chain calls the models in turn with their cooldowns and rate limits
-- (pkg/providers/fallback.go, cooldown.go, ratelimiter.go, error_classifier.go, model_ref.go), the
-- context is truncated to what a model takes (pkg/utils/context.go), and the session manager keeps
-- the messages (pkg/session/manager.go). A slash command is answered by its handler before any of
-- that (pkg/commands).
--
-- The files, with what they model; a function keeps its name in snake case.
--   Strings: the functions of Go's package strings that the code calls, on lists of code points:
--     a string that is not valid UTF-8 has no counterpart.
--     Case is mapped for the ASCII letters; a letter outside ASCII keeps its case, which Go's tables
--     would change.
--   Maps: a Go map as an association list with one entry for each key.
--   Protocol: the messages of pkg/providers/protocoltypes/types.go, and what of them JSON keeps.
--   Routing.AgentId: NormalizeAgentID and NormalizeAccountID of pkg/routing/agent_id.go.
--   Routing.SessionKey: BuildAgentPeerSessionKey, ParseAgentSessionKey and the identity links of
--     pkg/routing/session_key.go.
--   Routing.Route: ResolveRoute of pkg/routing/route.go, over the bindings and agents of
--     pkg/config/config_types.go.
--   Routing.Features, Routing.Classifier, Routing.Router: ExtractFeatures, Score and SelectModel.
--   Identity: BuildCanonicalID, ParseCanonicalID and MatchAllowed of pkg/identity/identity.go.
--   Providers.Reason: FailoverReason and FailoverError of pkg/providers/types.go.
--   Providers.Cooldown: the tracker of pkg/providers/cooldown.go.
--   Providers.ModelRef: ParseModelRef, NormalizeProvider and ModelKey of pkg/providers/model_ref.go.
--   Providers.Pattern, Providers.ErrorClassifier: the regular expressions, the tables and
--     ClassifyError of pkg/providers/error_classifier.go.
--   Providers.RateLimiter: the token bucket and its registry of pkg/providers/ratelimiter.go.
--   Providers.Fallback: Execute of pkg/providers/fallback.go, with the children Candidates for
--     ResolveCandidates and Image for ExecuteImage.
--   Context: MeasureContextRunes and TruncateContextSmart of pkg/utils/context.go, and Truncate of
--     pkg/utils/string.go.
--   Session: the methods of SessionManager in pkg/session/manager.go, but for the files they write.
--   Commands: the parsing, the registry and the executor of pkg/commands.
--   Agent.Steering: the queue of pkg/agent/steering.go.
--   Agent.Compression: the turn boundaries of pkg/agent/context_budget.go and forceCompression of
--     pkg/agent/context_legacy.go, with the child Cut.
--   Channels.Split: SplitMessage of pkg/channels/split.go. Search finds where a chunk may end, Chunks
--     is about the length of the chunks, Plain about texts with no code block, Fence and Endless
--     about a code block with a long first line.
--   Memory: the methods of JSONLStore in pkg/memory/jsonl.go. Brackets is the nesting of JSON texts,
--     Lines is about what the files hold, Meaning, Holding, After and Faults about calls that may
--     fail, Torn about a torn append.
--   Media: the methods of FileMediaStore in pkg/media/store.go, with the children Counting, Release,
--     Cleanup and Removal.
--   Cron: the methods of CronService in pkg/cron/service.go, with the children Wake, Jobs,
--     Events, Dormant and Once.
--   Tools.Registry: the registry of pkg/tools/registry.go, but for the execution of a tool, with
--     the children Promotion and Visibility.
--   Prelude and its children: shared names and lemmas. Examples: the theorems at concrete inputs.
--
-- State is passed on: a method takes its object and returns the new one, and a method that holds the
-- mutex is one step. The clock is an argument. The world outside (clock, context, model, sleep) is a
-- record of functions over a state that the caller chooses.
--
-- Bounds. Go's int and time.Duration are natural numbers without an upper bound: counts of code
-- points, of errors and of nanoseconds stay far below 2^63. Tokens of a rate limiter are the bits
-- of a float64 with its arithmetic as an argument, of which IEEE 754 is assumed as far as a theorem
-- says. Scores are float64 values, as exact multiples of 2^-56 with the rounding of each addition.
-- Wait runs for a number of rounds, and reports when they are used up: with the rounding of
-- float64, and with others who take tokens, no number need be enough. The decimal digits of a
-- number have the number itself as fuel, which is more than it has digits. SplitMessage runs for a
-- number of rounds: one more than the text has code points is enough where it has no code fence,
-- and with one no number need be enough. Where Go ranges over a map, the model's order is that of
-- its list.
--
-- Not modelled: the agent loop (pkg/agent) but for its steering queue and its forced compression,
-- tools but for their registry, channels but for the splitting of messages, the message bus, the
-- provider clients, configuration files and their migration, logging, credentials, the gateway and
-- the web backend, and the command line. They call what is modelled, or are input and output. Of
-- the session manager, the bytes of the files are not modelled; of the cron service, the timer
-- loop; of the media store, the timer of its clean-up. JSON, cron expressions, random ids, the
-- folding of case and the arithmetic of the rate limiter's float64 are parameters.
pub mod Prelude
pub mod Strings
pub mod Maps
pub mod Protocol
pub mod Routing
pub mod Identity
pub mod Providers
pub mod Context
pub mod Session
pub mod Commands
pub mod Agent
pub mod Channels
pub mod Memory
pub mod Media
pub mod Cron
pub mod Tools
mod Examples
