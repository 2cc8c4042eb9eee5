-- ===== src/Lib.antt =====
-- tempmail: a self-hosted temporary mail service, written in Go. Mail comes in through a built-in
-- SMTP server, a webhook, or a fetch from a relay inbox (Microsoft Graph or IMAP) that a request
-- starts; it is filed under the mailbox of its recipient, in two tables of SQLite, and is read and
-- deleted through an HTTP API, which also sends mail.
--
-- The parts, and the code they model:
--   Prelude, Text   Booleans, lists and 64-bit integers; Go's strings as lists of code points, with
--                   the functions of package strings that the program calls.
--   Models          models/models.go: the rows of the two tables; Go's (value, error) as Result.
--   Database        what the program asks of gorm and SQLite: a record Db of statements over a state,
--                   with the laws IsRelational (unique addresses and identifiers, a deletion that
--                   cascades to the messages, a failed statement that changes nothing), and IsSequenced
--                   (AUTOINCREMENT, which gives no identifier twice, and foreign keys).
--                   A text of digits names a message; gorm runs another as SQL, and nothing is promised
--                   of it.
--                   Database.Memory fills the interface with two lists, for concrete runs.
--   Recipient       handlers/store.go (findRecipient, extractAddresses), handlers/graph_store.go
--                   (findGraphRecipient, splitGraphBody).
--   Inbound         StoreMessage and StoreGraphMessage of the same files; Traffic takes them a
--                   statement at a time, between the statements of others.
--   Routing         the invariant of the tables, IsRouted.
--   Http            the responses of the handlers as values.
--   Mailboxes       handlers/email.go: the handlers of mailboxes and the two clean-ups.
--   Messages        handlers/message.go: the handlers of messages.
--   Access          middleware/auth.go: the API key and the secret of the webhook.
--   Webhook         handlers/webhook.go.
--   Sending         handlers/send.go: the checks of an outbound request, and the call of the sender.
--   Compose         sender/message.go: the message that is sent.
--   Mailroom        what the service promises, with no tables: which addresses are open and the messages
--                   of each in the order of their arrival (Tables.View), the contract of every request
--                   over it (Contract), and what each statement of the database does to it.
--   Storage         storage/db.go: buildDSN and Open.
--   Server          main.go: the routes with their checks, and a tick of runCleanup with its interval.
--   Service         main.go: the parts put together for a configuration (the handlers, the poller that
--                   is chosen, the ingestion, the SMTP server), and runs of the whole service.
--   Process         main.go: the start (Started), and the goroutines and the shutdown of the process.
--   Rotation        main.go: the closures OnRotated, which keep a new refresh token in the file .env.
--   Smtp            smtp/server.go: the sessions of the SMTP server; Listener is Start with its settings.
--   Graph           graph/poller.go: FetchOnce, pollOnce and fetchAccessToken; Watch is Run.
--   Imap            imap/poller.go: FetchOnce, fetchUnread, connect and fetchAccessToken; Watch is Run,
--                   Idle is idleWait with its channels, and Sessions counts the connections that
--                   are open.
--   Ingest          ingest/ondemand.go: the fetch that concurrent requests share, as a step relation.
--   Config          config/config.go: Load.
--   EnvFile         config/config.go: PersistRefreshToken, on the text of the file.
--   Direct          sender/sender.go: the direct sender, over the answers of each connection.
--   Relay           sender/sender.go: the choice of the sender, and the relay sender.
--   Examples        the theorems applied to concrete runs, and tests.
--
-- How state is modelled: a handler takes the state of the database and returns it with its
-- response; each statement is one call of the interface, and a statement may fail. A handler that
-- first waits for the ingestion takes what the ingestion does to the database as a function. The
-- clock, random identifiers, the MIME parser, time.Parse, the Q encoding and the HTTP calls to
-- Microsoft are arguments (Inbound.Services, Compose.Sources, Graph.Remote), as are the client of
-- go-imap (Imap.Client), what mail hosts and the relay answer (Direct.Network, Relay.RelayNetwork)
-- and the driver of SQLite (Storage.Driver). Concurrent requests of the API are taken one after
-- another, but for the statements that write, which Inbound.Traffic interleaves with those of messages
-- that are stored; in Service a request that starts a fetch waits for its end. In Ingest a step is what
-- happens under the mutex at once: a request enters, a fetch ends, or the service is closed; any
-- interleaving of them is a run. Process and Imap.Idle are step relations of the same kind, whose
-- steps are those of one goroutine at once, with what go-imap and net/http document of theirs.
-- The rounds of a fetch read the clock one after another; in Service and in the watch loops all of them
-- read one instant, and so do the messages of one round over IMAP. Ingest takes wg.Done with the end of the
-- fetch, Direct gets its hosts in the order of their preference, and Imap leaves out the Logout of a
-- connection left over, since every call of FetchOnce leaves none.
--
-- Bounds and fuel: hours and seconds that the code multiplies into time.Duration wrap as int64; other
-- instants are unbounded. The loop of FetchOnce runs on a number of rounds, and `none` is a loop that
-- has not ended; the rounds that are enough are the subject of Graph.Progress.
--
-- Not modelled: what go-smtp and net/http do with connections, and the limits of the SMTP server; the
-- order of the list of mailboxes, which is the database's; the TLS settings and the dialer of the
-- poller over IMAP; logging, tests, deployment and documents.
pub mod Prelude
pub mod Text
pub mod Models
pub mod Database
pub mod Recipient
pub mod Relay
pub mod Inbound
pub mod Http
pub mod Mailboxes
pub mod Messages
pub mod Access
pub mod Webhook
pub mod Compose
pub mod Sending
pub mod Server
pub mod Service
pub mod Smtp
pub mod Storage
pub mod Rotation
pub mod Process
pub mod Graph
pub mod Imap
pub mod Ingest
pub mod Config
pub mod EnvFile
pub mod Direct
pub mod Routing
pub mod Mailroom
pub mod Examples
