-- ===== src/Lib.antt =====
-- A model of chatta, a command line program that lets coding agents talk over a local IRC bus, and
-- the theorems about it. Paths are from the repository's root.
--
-- How the program works. Each agent has a client home with its session state. A resident supervisor
-- holds one connection to the IRC server and answers the commands of the agent over a control
-- socket; what it receives it appends to a message store, which commands read behind a cursor, and
-- which a worker delivers to a bound Codex thread.
--
-- What is modelled, and where.
--   Text and its children: Go strings as lists of code points, with the parts of `strings`,
--     `unicode` and `utf8` that the program uses. A string is valid UTF-8. Case mapping beyond ASCII
--     is a parameter, `Unicode`.
--   Common: the records of pkg/common/model.go.
--   Irc.Message: pkg/dal/irc/message.go. A slice around the result of `Index` is written as the two
--     parts of `cut`.
--   Irc.Conn: pkg/dal/irc/conn.go and numerics.go. The state is `Conn` in Irc/Conn/State; Handle has
--     the read loop, Calls the calls of a client, Event the runs. A call that waits is two steps,
--     before and after its `select`. A pending request is shared by the table and the waiting
--     caller, so requests live in a store and both hold a number. Times, errors of writes and the
--     order of steps are the environment's choice; a step is one line read, or a call taken up to
--     its `select` at once.
--   Dal.Channel: pkg/dal/channel.go.
--   Dal.AtomicFile: the replacement of a file in pkg/dal/state.go and pkg/dal/codex.go; each system
--     call fails or not by the environment's choice.
--   Dal.State and Dal.Binding: pkg/dal/state.go and pkg/dal/codex.go. JSON is an interface, `Codec`,
--     whose law is that what was written is read back.
--   Dal.Store: pkg/dal/store.go and pkg/dal/tail.go, over the bytes of the file. `MessageCodec` is
--     JSON for one record: it writes some bytes with no line end in them, and reads them back.
--   Config: `Load` of pkg/config/config.go; `Viper` is what the library of that name and the file
--     system answer. Precedence.Order has the order of the sources. Text.Number is `strconv.Atoi`.
--   Dal.Process: pkg/dal/owner_posix.go and process_posix.go over `Processes`, what ps and kill report;
--     the looks within a time limit are a list.
--   Dal.Owner: `FindAgentOwner` and the session IDs of pkg/dal/owner_posix.go, over what ps prints of
--     each ancestor. `walk` has 32 rounds as its fuel, which is the bound of the loop.
--   Services.Start: `Start` of pkg/services/session.go with its retries. `retry` has three attempts as
--     its fuel, which is the bound of the loop. Once has `startOnce`, an attempt; the turns of its
--     loop within the time limit are a list.
--   Services.Supervisor: the control handler of pkg/services/session.go, up to where a request waits
--     for the server. The handler's pointer to a connection is nil or the connection of the loop, so
--     it is a flag. Loop has the loop of `supervise` as steps: a `Phase` is a place where the loop
--     waits, a `Happening` is what it waits for, or a step of the connection by the read loop or a
--     client, in any order. Times are in nanoseconds. The order in which the goodbyes go over the
--     connection's map of channels is the environment's, as `channel_order`. Requests has a join
--     from its request to its response.
--   Services.CodexService: pkg/services/codex_service.go. Files has the checks of sockets, records
--     and processes at one moment, a `Look`; Occasion and Ensure have `EnsureCodexAppServer` with a
--     look for each of its steps, and what it does to files and processes in `Ensured`.
--   Services.Fleet: `Stop`, `Survey` and `GCReport` of pkg/services/fleet.go. What is found in a
--     client's home at one moment is a `View`.
--   Services.Health: the report of pkg/services/health.go, and in Recovery its `Ensure`.
--   Services.Control: pkg/daemon/protocol.go, and what a request to the supervisor gives.
--   Services.Message and Services.Channel: pkg/services/message.go and channel.go. A command gets what
--     `Ensure` gives and the replies of the supervisor as arguments, and returns what it sends and
--     what it saves. Watch has `Watch`: what it finds at each turn of its loop is a `Turn`, and the
--     messages and notices that it emits are rendered by `rendered`.
--   Services.Codex: pkg/services/codex.go. Mention has the regular expression of `addressedTo`,
--     Progress the saves of the binding file, Worker the loop over the queue: each record comes
--     with an `Attempt`, which has what others do to the binding file before each step, the faults
--     of each save, the lock's error and the answers of the app-server. A turn of the loop is
--     `worker_turn` in Rounds.
--   Services.Codex.Binding: the bind, unbind and status of the control handler in
--     pkg/services/session.go. What the environment answers in one request is in `Handler`; a
--     refusal has what its text is made of.
--   Services.Codex.Queue: `inspectCodexQueue` of pkg/services/codex_binding.go; Waiting and Blocked
--     are about a store without and with a line that does not decode.
--   Services.Codex.Client: `Deliver` of pkg/services/codex_app_client.go over the answers of the
--     app-server in `AppServer`. A `Request` has the thread and the text that the parameters of the
--     call carry.
--   Services.Codex.Rpc: the calls of that file over one connection, with what is read from it as a
--     list.
--
-- Every other loop is a recursion on a list or a text, and no definition has fuel but
-- `retry`, `walk` and `decimal`, which prints a number with the number itself as its fuel.
--
-- What is not modelled: sockets, the scanner's line limit, clocks, the start of processes, locks on
-- files, the socket and the trace of the app-server's client, the writing of the service
-- record, the search for client homes, and cmd and the other files of pkg/dal and pkg/daemon. They
-- are I/O, or not reached yet.
pub mod Prelude
pub mod Text
pub mod Common
pub mod Irc
pub mod Dal
pub mod Config
pub mod Services
pub mod Tests
