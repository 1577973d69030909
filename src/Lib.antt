-- ===== src/Lib.antt =====
-- The verification library of the Genie cloud server: the engine manager and its processes, and the
-- utilities that the server is built from.
--
-- The program. A server process runs an EngineManager (src/almond/enginemanager.ts), which starts
-- worker processes, shared ones and one per user, and puts the engine of each user on one of them; the
-- other servers reach it through a client (src/almond/enginemanagerclient.ts). A daemon
-- (src/training/daemon.js) queues and runs the training jobs of the language models, and the NLP server
-- (src/nlp) answers queries with them.
-- Routes and tools stand on the utilities of src/util: the guards of routes and the accounts
-- (user.ts), the checks of parameters (input_validation.ts), of devices and utterances
-- (validation.ts, tokenize.ts), the lock that orders the operations on one user (lock.ts), the
-- socket that carries messages between servers (json_datagram_socket.ts), and containers
-- (growable_buffer.ts, binary_search.ts, timed_cache.ts).
--
-- The files.
-- - Base and its children: names that all files share, lists over the native numbers, texts as lists
--   of character codes, results, and maps.
-- - Almond/EngineProcess: class EngineProcess. A method or a handler of the child gives the new state
--   and the effects: events, timers, calls. Spawn is the command line and the environment,
--   Lifetime a run of any events.
-- - Almond/EngineManager: class EngineManager. References are numbers; the closures that listen to a
--   process are a data type; Users has the methods, with runUser in two parts around its await.
--   Tied is the invariant, Death what the exit of a process leaves, Processes the table by id, Placement
--   the round robin. Locked has
--   the operations that hold the lock of a user, as a step relation of their callers on Util/Lock.
-- - Almond/ManagerClient: class EngineManagerClientImpl. Sockets are numbers, closures over a socket the
--   record of its link; Sockets has the handlers and runs of calls and events, Links and Cached what a
--   run keeps.
-- - Almond/Master: classes ControlSocket and ControlSocketServer of src/almond/master.ts; a socket answers
--   with effects. Guarded is about the token, Dialogue puts a client before it.
-- - Almond/Worker: the table of engines of a worker (src/almond/worker.ts) and the promises of an engine,
--   by events; Killing and Tables are about an engine that was stopped.
-- - Nlp/Service, Nlp/Nlu, Nlp/Learn, Nlp/Proxy: the server of src/nlp, with its models, queries, learning
--   and replicas. Longest is which model a locale gets, Answering, Tokens and Stored what requests lead to.
-- - Util/ManifestToSchema: schemas and classes; RoundTrip goes from a schema to a class and back.
--   Util/DeviceFactories: how a device is configured; Discovery is about its services.
-- - Util/I18n: src/util/i18n.ts; a language is known by its locale.
-- - Training/Jobs: the table of training jobs and its statements, rows in the order of ids. Training/Job:
--   one job; what its tasks do is an argument. Training/Daemon: the transactions of the daemon; the
--   failing of dependents is a recursion on fuel, and the distance from the id of the job to the
--   counter of ids is enough. Schedule is the queueing, Fails and Completion what a failure leaves.
-- - Util/Errors: the errors that are raised, and their answers.
-- - Util/ExampleNames: the names of examples, on expressions, filters and values as data types; Clean is
--   about the characters of a name. Util/Mturk: the start of a validation; Gathering is the grouping.
-- - Util/Validation/Dataset, Loading and Device: the checks of a device as it is submitted. The search for
--   a name has as much fuel as there are names, and one more.
-- - Util/GrowableBuffer: class GrowableBuffer, a list of chunks with their offsets. Methods give a
--   result and the buffer. Util/BinarySearch is the search it uses.
-- - Util/TimedCache: class TimedCache; finalizers that were called and timers are recorded.
-- - Util/Lock: class Lock; the promise of each caller is a numbered turn, and Step says which caller
--   can go on.
-- - Util/JsonDatagramSocket: class JsonDatagramSocket, reading from chunks and writing to a text.
-- - Util/Db: transactions and clients of the database, what happens on a connection in its order; Metrics
--   is about what is monitored. Util/Random: choosing some of a list.
-- - Util/User: usernames, guards of routes; Role the bits, Account the table of users.
-- - Util/InputValidation: checkKey and the middleware around it.
-- - Util/Tokenize and Util/Validation: utterances, tags, kinds and the functions of a class.
-- - Util/Escaping, Util/Requests, Util/Sharding: escaping.ts, pagination.ts, origin.ts, shard.ts and
--   almond/shard.ts. Util/Flags: genie_flag_utils.ts and compat.ts.
--
-- Bounds and fuel. The loop of the binary search has fuel for the length of the list, since each round
-- shortens the interval; the search for the name of an example has as much as there are names, and one
-- more; the failing of dependents takes its fuel as an argument, from the id of the job up to the
-- counter of ids. All other loops are structural recursion. Characters are read as ASCII where a
-- regular expression or a change of case reads them.
--
-- Parameters. The hash of a password, JSON.parse and JSON.stringify, the numbers that JavaScript
-- reads from a text, the tokenizer, what ThingTalk and Genie parse, convert and say of a canonical
-- form, the table of entities, what the tasks of a job do, what a manager answers to its client, what
-- the database answers, what a model predicts, and the draws of the random generator are arguments of
-- the definitions that use them.
--
-- Not modelled: the database but for the table of training jobs and the course of a transaction,
-- routes and pages, the network, the backends that run a task, inference and its cache, the voice
-- service, and the engine itself (a package).
pub mod Base
pub mod Util
pub mod Almond
pub mod Training
pub mod Nlp
