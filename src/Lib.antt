-- ===== src/Lib.antt =====
-- Omnipair indexer: a daemon that follows a program on Solana and stores its events, and a server
-- that streams new swaps.
--
-- How the parts work together. Datasources put updates on a channel. The pipeline
-- (indexer/crates/core/src/pipeline.rs) takes them off one at a time and hands each to the pipes
-- for its kind. A transaction is first flattened into instructions with metadata (transformers.rs),
-- then rebuilt as the hierarchy of its calls (instruction.rs), over which an instruction pipe
-- decodes and processes every instruction, while a transaction pipe parses them all and matches
-- them with a schema. The decoder (indexer/decoders/omnipair_decoder) tells the program's
-- instructions and events apart by the first bytes of their data. The processor
-- (indexer/src/processors.rs) stores the events that it finds by the upserts of
-- indexer/src/database.rs. The database notifies the listener of grpc/src/db_listener.rs of every
-- stored swap, and that listener sends it on to the clients.
--
-- Which file models which part:
--   Base          Boolean tests, lists and the result type of error.rs, in which a panic is a
--                 third outcome.
--   Solana        the data of the Solana crates that the code reads; keys and signatures are the
--                 numbers that their bytes write.
--   Instruction   InstructionMetadata, NestedInstruction, NestedInstructions and
--                 TransactionMetadata. The vector of nested instructions is a list type of its own.
--   Nesting       UnsafeNestedBuilder and its loop. A raw pointer to an instruction is its path from
--                 the root; the array of five level pointers is a function from levels. Below it,
--                 Spine, Depth, Located and Step are the lemmas about the last instruction on each
--                 level, Build and Follow the properties of `build`.
--   Transformers  extract_instructions_with_metadata, process_instructions and build_instruction of
--                 transformers.rs. The array of five bytes wraps at 256, an index outside it
--                 panics. Array, Paths and Groups are the lemmas, Hierarchy and Contents the
--                 properties.
--   Action        code that changes a state and returns a result: a function from states.
--   Datasource    the updates of datasource.rs and AccountMetadata of account.rs.
--   Filter        the trait Filter as a record, and DatasourceFilter.
--   Pipes         InstructionPipe::run, whose recursion over inner instructions is structural;
--                 Pipes.Accounts has the pipes for accounts, deletions and blocks.
--   Pipeline      Pipeline::process for each kind of update, by itself, with one pipe and, in
--                 Filtered, with filters by datasource; Pipeline.Run is the loop of
--                 Pipeline::run, a relation with one step for every branch of `select!` that is
--                 ready, for every arrival of an update and for the closing of the senders.
--                 Pipeline.Builder is PipelineBuilder: its methods return a record with one field
--                 changed. A method that sets a field is called set_ or add_ and the field's name.
--   Dictionary    hash maps with text keys, as association lists.
--   Schema        TransactionSchema::match_nodes of schema.rs. A vector of schema nodes or of parsed
--                 instructions is a list type of its own. Matching says what a match is,
--                 Spaced which types occur in which order.
--   Transaction   TransactionPipe of transaction.rs and unnest_parsed_instructions.
--   Borsh         readers of bytes: a reader takes a value off a list of bytes. Those of the
--                 primitive types are fields of a parameter; a struct's reads its fields in the order
--                 they are declared. Layout says which bytes hold given fields.
--   Decoder       the macros CarbonDeserialize and try_decode_instructions (indexer/crates/proc-macros
--                 and macros). Decoder.Events, Types, Calls and Accounts are the structs of
--                 indexer/decoders/omnipair_decoder with their readers, Alternatives the
--                 discriminators and decode_instruction, Kinds the derived InstructionType.
--   Arrange       arrange_accounts of the 19 instructions, by next_account of account_utils.rs.
--   Grpc          the loop of start_db_listener, with the time of every event given. Clients come and
--                 go between its events; where there are none, a swap that is emitted is dropped.
--   Crawler       signature_fetcher of the transaction crawler (indexer/datasources/
--                 rpc-transaction-crawler-datasource/src/lib.rs) and the retries of a request;
--                 Crawler.Updates is task_processor and transaction_metadata_from_original_meta.
--   Start         the search for the signature that the crawler starts at, indexer/src/datasources.rs.
--   Database      the upserts, with every statement, its columns and its bound values (Statements and
--                 Positions).
--   Processors    OmnipairInstructionProcessor. Rows is a pool that keeps what it is told to write,
--                 and says which rows belong to which event; in Refused its queries to one table fail.
--   Daemon        run_daemon_loop of indexer/src/main.rs, on the outcomes of its instances.
--   Service       Config of indexer/src/config.rs, create_pipeline and run_pipeline of
--                 indexer/src/pipeline.rs, and run_indexer_instance.
--   Examples      concrete inputs.
--
-- Parameters. Decoders, processors, metrics, the channel, the clock, the connection pool, parsing,
-- floating-point numbers, borsh's primitive readers and the RPC server are arguments of the
-- definitions that use them. What a theorem needs of them is among its hypotheses: for the RPC
-- server, that it returns the signatures between the two it is asked for, newest first and at most
-- one page.
--
-- Bounds and fuel. Stack heights lie between 1 and 5, bytes below 256, the fee of a swap below 2 ^
-- 64, where its difference wraps around as in a release build. The only fuel is that of the retry
-- loop, which is started with one more than the number of retries: each turn but the last uses one
-- up. The search for a start has 10 attempts of 1000 signatures in the code itself. The loops over
-- lists are structural.
--
-- Not modelled: the memory of the vectors that the builder's raw pointers point into; of
-- transaction_metadata_from_original_meta the balances, rewards and logs, which the pipeline does not
-- read; the unordered buffer of transaction_fetcher; GpaBackfillDatasource; the websocket datasources,
-- metrics back ends, logging and the servers' set-up, which are input and output around crates that
-- are not part of the repository. The schema of the database and the HTTP interface are in other
-- languages.
pub mod Base
pub mod Solana
pub mod Instruction
pub mod Nesting
pub mod Transformers
pub mod Action
pub mod Datasource
pub mod Filter
pub mod Pipes
pub mod Pipeline
pub mod Dictionary
pub mod Schema
pub mod Transaction
pub mod Grpc
pub mod Crawler
pub mod Examples
pub mod Database
pub mod Processors
pub mod Daemon
pub mod Service
pub mod Borsh
pub mod Decoder
pub mod Arrange
pub mod Start
