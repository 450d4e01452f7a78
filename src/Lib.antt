-- ===== src/Lib.antt =====
-- schaufel: consumers put messages into bounded queues, hooks rewrite or drop them, producers take
-- them out and write them to their sink.
--
-- A consumer thread reads a message from its source and calls `queue_add`; a producer thread calls
-- `queue_get` and hands the message to its sink. Both run the hooks of the queue on the message.
--
-- - Common: the names, lists, tests and options that the other modules share.
-- - Message: `struct Message` and its accessors of src/queue.c. Pointers are block numbers, and the
--   blocks that a call frees are a list.
-- - Hooks: `hooklist_run` of src/hooks.c. A hook is a function from the message to its verdict, the
--   message afterwards and the blocks that it freed. Hooks.Laws has what callers rely on.
-- - Bintree: keys and lookups of src/utils/bintree.c. The nodes are those that `tsearch` has inserted.
-- - Queue: `_xmark_find` and the critical sections of `queue_add` and `queue_get` of src/queue.c, over
--   a heap of list nodes. Queue.Calls has the whole calls: what the allocator answers and what other
--   threads do during a wait are arguments. Queue.Model says which list of messages a queue holds, and
--   is what Queue.Add, Queue.Get, Queue.Refine and Queue.Deliver are stated against. Queue.Segment,
--   Queue.Writes and Queue.Splice have the lemmas on linked segments. Queue.Steps has the threads as
--   interleaved steps, one for each critical section. Queue.Misuse has paths that free a block twice.
-- - Helper: `repair_null_escape` and `sanitize_utf8` of src/utils/helper.c, on lists of bytes.
--   Helper.Utf8 and its children set the latter against the UTF-8 encoding.
-- - Timestamp: `_leapyear` and `_json_to_pqtimestamp` of src/hooks/jsonexport.c. Timestamp.Calendar
--   is the Gregorian calendar, and Timestamp.Digits reads and writes decimal numbers.
-- - Postgres: `postgres_producer_produce` of src/postgres.c, and `commit` and a round of
--   `commit_worker` of src/utils/postgres.c. What is sent on the two connections is kept in lists.
--   Postgres.Batches has the state between the calls, and Postgres.Runs any sequence of calls. The
--   producer calls the functions of Helper on each text message.
-- - JsonExport: the needles of src/hooks/jsonexport.c and the row that its hook makes of them, with the
--   JSON library as an argument. JsonExport.Row reads rows back.
-- - Exports: the conversion of timestamps in src/exports.c.
-- - Redis: the pipeline of src/redis.c, and what a consumer makes of a reply.
-- - Array: the growing arrays of src/utils/array.c, and the lists that they hold.
-- - Threads: the loops `consume` and `produce` of src/main.c round the queue, `init_threads`, and
--   `get_thread_count` of src/utils/config.c. A thread calls `queue_add` or `queue_get` of Queue.Calls
--   and the hooks of Hooks; Threads.Drain runs the loop of a producer until it ends, with two starts
--   more than it has messages.
-- - Hashing: FNV-1a, its folds and their names of src/utils/fnv.c, and the hook of
--   src/hooks/xmark.c that sets the mark by which Queue sorts messages. Hashing.Range bounds them.
-- - JsonExport.Config: `h_jsonexport_validate` and `_needles` of src/hooks/jsonexport.c; the settings
--   are what the configuration library gives of them. JsonExport.Config.Meant reads a setting directly,
--   and JsonExport.Config.Load a list of them.
-- - Exports.Produce: the producer of src/exports.c, on the state and the commits of Postgres.
--   Exports.Produce.Wire is what the database receives, Exports.Produce.Alike compares states, and
--   Exports.Produce.Same runs the producer beside JsonExport and Postgres.
-- - Kafka: `explode_partitions` of src/kafka.c. Kafka.Partitions counts its rounds: the fuel is the
--   length of the string, and each round reads a character of it. Kafka.Numbers has what
--   strtoul makes of decimal numbers, and Kafka.Assign the results.
-- - Hooks.Config: `_find_hook`, `hooks_validate` and `hooks_add` of src/hooks.c, and `queue_validate` of
--   src/queue.c, over any kinds of hooks. Hooks.Config.Ready says what loads.
-- - Connection: `number_length` and `parse_connstring` of src/utils/helper.c, and the texts that
--   src/postgres.c and src/exports.c print with them. Connection.Room compares them with their buffers.
-- - Logger: `logger_log` and `log_fd` of src/utils/logger.c, with each write into the buffer, of 4098
--   bytes, checked against its bound. Logger.Line has what is read back.
--
-- - Dispatch: src/consumer.c and src/producer.c, and the starts of `consume` and `produce` of src/main.c.
--   Dispatch.Started starts what Configuration accepts.
-- - File: src/file.c, with the lines that its consumer reads; File.Copy runs its consumer, and its
--   producer on what that gives.
-- - Dummy: src/dummy.c, on the messages of File.
-- - Metadata: src/utils/metadata.c over a hash table that is an argument; Metadata.Assoc is one.
-- - Kafka.Messages: the consumers of src/kafka.c on a message of the library, the callback that stores
--   offsets, the end of a round of `produce` that runs it, and the retries of the producer; what is
--   freed and destroyed is a list of events. Kafka.Messages.Commits has the transactional consumer,
--   Kafka.Messages.Copies the others, and Kafka.Messages.Retry the producer. Kafka.Consumers starts the
--   consumers, with the partitions of Kafka.
-- - Settings: `config_create_path` and `config_set_default_string` of src/utils/config.c, over a tree
--   of settings that is an argument with its laws; Settings.Store is one. Settings.Defaults follows a
--   path through it.
-- - Kafka.Validate: the validators of src/kafka.c, which change that tree.
-- - Exports.Config: `exporter_validate` and `_needles` of src/exports.c, on the settings of
--   JsonExport.Config; Exports.Config.Same has both side by side.
-- - Hosts: the lists of hosts of src/utils/helper.c, and `postgres_validate` of src/postgres.c;
--   Hosts.Pairs has the instances that it makes of them.
-- - Logger.Config: `logger_validate` and `logger_init` of src/utils/logger.c; Logger.Config.Started runs
--   one after the other.
-- - Configuration: `_thread_validate` and `config_validate` of src/utils/config.c, and
--   src/validator.c, with the hooks of Hooks.Config; Configuration.Ready has the instances, and
--   Configuration.Accepted what Threads starts.
--
-- Fuel: the loop that frees the nodes of a queue takes as fuel how often it may go round; as many
-- rounds as there are messages are shown to be enough. The loop of `sanitize_utf8` has the length of
-- the buffer as fuel, and is shown to reach one of its three results. The loops over the digits of a
-- number have the number as fuel, which each round divides by 10.
--
-- Not modelled: the hash table of src/utils/htable.c, which is a copy of another library; the client
-- libraries (librdkafka, hiredis, libpq, json-c, libconfig), whose answers are arguments; the
-- initialisation and destruction of locks; printing. Of the C library, strtoul, strcmp, strstr and
-- tsearch are written out where the source calls them, and the results of malloc are arguments. Of
-- src/kafka.c the creation of handles of the client library is left out; of src/utils/config.c the
-- merge with the command line.
pub mod Common
pub mod Message
pub mod Hooks
pub mod Bintree
pub mod Queue
pub mod Helper
pub mod Timestamp
pub mod Postgres
pub mod Redis
pub mod Array
pub mod JsonExport
pub mod Exports
pub mod Threads
pub mod Hashing
pub mod Kafka
pub mod Connection
pub mod Logger
pub mod Metadata
pub mod Settings
pub mod Configuration
pub mod Hosts
pub mod File
pub mod Dispatch
pub mod Dummy
