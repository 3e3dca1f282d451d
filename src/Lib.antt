-- ===== src/Lib.antt =====
-- agent-inference: an agent that takes inference tasks from a Hedera topic, runs them on the 0G
-- compute network, stores and mints the results on the 0G chain, and reports them back.
--
-- The program's parts, and the files that model them:
-- - Agent: internal/agent/agent.go. `process_task` is processTask, `handle_task` the case of a
--   task in Run, `health_tick` the case of a tick in healthLoop, `run_loop` the loop over both;
--   `health_loop` is healthLoop by itself. Agent/Run has the main loop and the health loop as a
--   step relation, with ticks in the middle of a task. Agent/Preserved carries an invariant of the
--   clients to every run. The agent's clients are an interface, the record `Services` of
--   Agent/Clients, over a state that the clients share. Agent/Signal is deriveSignalMetrics on
--   exact floats. Agent/Config is LoadConfig of internal/agent/config.go over an environment.
--   Agent/Wiring fills the interface with the clients of the other parts, as main in
--   cmd/agent-inference does, and the Keeps modules have the frame lemmas of those clients, for
--   any property of histories that their effects keep; Agent/Wiring/Settled follows a task through
--   all of them. The Spending modules follow the amounts that leave the agent's account.
-- - Hcs: internal/hcs/handler.go and messages.go. Hcs.antt publishes, with the atomic sequence
--   number in `Sender`; `accepted` is the filter of processMessage. Hcs/Subscription has the
--   goroutine of StartSubscription, the task channel and the main loop that drains it as the step
--   relation `Step`, so a theorem over `Steps` holds for every interleaving. Hcs/Transport is
--   internal/hcs/transport.go over the Hiero SDK: `publish`, and `subscribe`, whose goroutine with
--   its reconnect loop runs up to where it stands for good; Hcs/Transport/Feed has the callback of
--   the SDK and the message channel as a step relation. Hcs/Race has the publications of several
--   goroutines as one.
-- - Compute: internal/zerog/compute. Compute/Jobs has SubmitJob, doWithAuthRetry and GetResult;
--   Compute/Catalog has ListModels, its two sources, the cache and resolveProvider;
--   Compute/Session has the session manager of session.go. Jobs asks Catalog for a provider and
--   Session for its token, in the state `State` of the broker. Compute/Jobs/Calls runs any
--   sequence of its calls.
-- - Da: internal/zerog/da. publish, verify, and the retry loop `attempt_loop`.
-- - Storage: internal/zerog/storage. upload, download, list.
-- - Inft: internal/zerog/inft. mint, update_metadata, get_status; Inft/Encrypt is encrypt.go.
-- - Command: cmd/agent-inference/main.go. `start_up` is main up to the run of the agent,
--   `exit_status` what follows it, `with_transport` puts the transport that main chose into a
--   world; Command/Mocked wires Mock, the clients of internal/zerog/zgmock, to the agent;
--   Command/Delivery joins the channel of the transport to the handler that reads it. Chain is
--   DialClient and LoadKey of internal/zerog/chain.go.
-- - Backend: internal/zerog/zgtest, the double of the chain in the program's own tests.
-- - Abi: the texts servingABIJSON, ledgerABIJSON, servingSessionABIJSON, contractABIJSON,
--   flowABIJSON and daABIJSON of internal/zerog as data, in Abi/Contracts, and the check of a
--   transaction, a contract call, an answer or a log against them. The Typed modules of the other
--   parts hold their calls against it, the Answers modules what they read of an answer, and the
--   Events modules what they read of a log.
-- - World: what the program asks of the outside, with MakeTransactOpts and AddressFromKey of
--   internal/zerog/chain.go. Each answer is a function of the history of all earlier effects, so a
--   theorem over every `World` covers an outside that changes between two calls, or is cancelled
--   at any point.
-- - Base: lists and tests on native numbers, Go errors, decimals, hex and base64, and the monad
--   `Exec` of functions that change a state and return a value or an error.
-- The Tests modules run each part at concrete inputs.
--
-- Conventions: a Go string is a string whose characters are its bytes; an address, hash or key
-- pointer is a number; an instant is in nanoseconds since the zero time; uint64 counters wrap at
-- 2 ^ 64. JSON, AES-GCM, Keccak and ECDSA are parameters, the records `Codec`; a theorem names the
-- property of them that it needs. `attempt_loop` recurs on the rounds that are left, of which
-- publishWithRetry has MaxRetries + 1. `poll_result` recurs on the ticks before the deadline, and
-- its theorem holds for any number. `reconnect_loop` recurs on the rounds that are left,
-- maxReconnects + 1 at first. The fuel 128 of Agent/Signal bounds the doublings of the unit of a
-- float's last digit, and no value that occurs there has more than 126 binary digits.
--
-- Not modelled: logging; the mutexes and sync.Map of the broker, whose calls are single steps
-- here; what a health tick in the middle of a task does to the clients, but for the counters and
-- the publications of both; the signals of cmd/agent-inference, since the context may end at any
-- point here; and mustParseABI, since the ABIs are given as the data that go-ethereum parses them
-- to.
pub mod Base
pub mod World
pub mod Abi
pub mod Da
pub mod Storage
pub mod Inft
pub mod Compute
pub mod Hcs
pub mod Agent
pub mod Mock
pub mod Chain
pub mod Command
pub mod Backend
