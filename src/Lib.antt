-- ===== src/Lib.antt =====
-- Affinidi Trust Registry: a service that answers whether an authority has authorized or recognized
-- an entity for an action on a resource, over HTTP and over DIDComm messages, and lets administrators
-- change the records by DIDComm messages.
--
-- Paths below are from trust-registry/src unless they start otherwise.
--
--   Domain      domain/mod.rs: the identifiers (Ids), record types and errors (RecordType), contexts
--               and their merge (Context), records (TrustRecord) and their builder (Builder).
--   Storage     storage/: the traits and errors of repository.rs (Repository), the key of a record
--               (Key) and the adapters: local_storage.rs (Local), csv_file_storage.rs (File, with its
--               rows in File/Row), redis_storage.rs (Redis) and ddb_storage.rs (DynamoDb).
--               `Registry` is the specification: a registry is a partial function from keys to
--               records, and an adapter implements it if each method gives the result that its
--               meaning on the registry gives, and leaves a store that stands for the registry that
--               the meaning leaves.
--               factory.rs (Factory) chooses one of the adapters.
--   Audit       audit/: the entries (Model) and the lines that are logged for them (Logger).
--   Didcomm     didcomm/: message headers (Message), problem_report.rs (ProblemReport), transport.rs
--               (Transport), handlers/admin (Admin/Messages, Admin/Handler), handlers/trqp (Trqp),
--               handlers/mod.rs with handlers/build.rs (Handlers), did_document.rs (DidDocument) and
--               listener/ (Listener). `World` is what a handler works on, `Serving` puts the listener
--               and the handlers together.
--   Http        http/: error.rs (Error), handlers/trqp/mod.rs (Trqp), handlers/mod.rs (Routes) and
--               handlers/wellknown/did_json.rs (WellKnown).
--   Configs     configs/: loaders/environment.rs (Environment), the other loaders (Loaders), storage.rs
--               (Storage), didcomm.rs (Didcomm), server.rs (Server) and mod.rs (Registry).
--   Server      server.rs: the CORS layer and the start of the service.
--   Setup       trust-registry/bin (from the repository's root): setup_trust_registry.rs (Arguments,
--               Tool, and Hosted with Document for a hosted DID) and generate_secrets.rs (Secrets), with
--               what both declare: the files of variables (EnvFile), the access lists (Acl) and new
--               DIDs (Did).
--   Client      test-client/src (from the repository's root): admin_operations.rs, main.rs (Demo) and
--               service_configs/mod.rs (UserConfig).
--   Json, Prelude   `serde_json` values, results, hash maps and texts as the program uses them.
--   Tests       concrete parameters and inputs at which the results are applied.
--
-- State and calls. A method of a repository is a function from the state of its store to a result
-- and the next state; a handler is one on the store and the list of calls made so far of the
-- messaging SDK and the audit logger. Each function has the name of the source's; a field
-- `type_` is the source's field of that name, and `ok`, `err` are `Ok`, `Err`. The endpoint of a
-- query and the handler of a message meet the adapters only through the record of operations, so
-- that what is shown for `Implements` holds over each adapter that implements the registry.
--
-- Parameters. What is not in the repository is an argument: the messaging SDK (its answers, the
-- identifiers that it draws and the clock may depend on all earlier calls and are otherwise free),
-- the clients of Redis and DynamoDB, the file system, the csv and base64 crates, and the instances
-- that serde derives for the program's types. Theorems that need more of them name it in records of
-- laws: IsRedis, HasKeys, IsDynamoDb (whose reads are only eventually consistent), IsFileSystem,
-- IsCsv, IsContextText and Decodes, each filled by concrete functions in Tests.
--
-- Listening. The mediator is a state with requests that may answer anything. One turn of the loop and
-- one request of the periodic task are single steps, since a task gives way only where it waits; the
-- steps of both, the ends of handlers and changes of the mediator follow each other in any order
-- (Didcomm/Listener/Running, Didcomm/Serving). A handler runs to its end in one step: it calls the
-- repository at most once. What a mediator is taken to promise, where a theorem needs it, are the
-- records IsQueue, Keeps and HoldsModes of Didcomm/Listener. The pauses between rounds are not
-- modelled. In Didcomm/Serving only the handlers change the store: the rounds of the CSV
-- synchronisation, which can lose a record, are in Storage/File/Sync.
--
-- Setup. The files, the mediator and the crates for keys and DIDs work on one state. A panic of
-- `unwrap` or `expect` is an error there. Each file of variables is seen at its lines. Tool takes
-- `setup_did_web_tr`, which is in Hosted, as one of its parameters. The files are reread with the
-- tool's own reader; the reader of the service, the dotenvy crate with its quotes and substitutions,
-- is not modelled, and the configurations start from the environment that it leaves.
--
-- No function needs fuel: the loops of the source run over lists, over the characters of a text, or
-- over the fields of a JSON value; the endless loops of the listener are relations, and the number of
-- rounds of the periodic task is an argument.
--
-- Not modelled: the loop of the setup that waits for a key press, which a hosted DID takes as a
-- parameter; the calls that only open a connection of an SDK (build_listener.rs,
-- `prepare_atm_and_profile`, the clients of DynamoDB and Redis, the loop over profiles of the test
-- client); `send_request` and the printing listener of the test client; what is
-- printed or logged other than audit lines; poisoned locks, since no method panics with a lock held.
-- A method of the file storage changes the memory and writes the file in one step; the rounds of its
-- synchronisation and two writes at once are taken apart in Storage/File/Sync and Writers.
pub mod Prelude
pub mod Json
pub mod Domain
pub mod Storage
pub mod Audit
pub mod Didcomm
pub mod Http
pub mod Configs
pub mod Server
pub mod Setup
pub mod Client
pub mod Tests
