-- ===== src/Lib.antt =====
-- Pyrsia: a decentralised package network. Nodes keep a blockchain of transparency logs, hand the
-- blocks to one another, and build and verify packages on authorised nodes. This library models the
-- blockchain, the service that keeps the nodes' chains in step, the transparency log, the
-- verification of builds, the building and fetching of packages, the event loop, the client and the
-- codecs of the network, the HTTP interface of a node, and what the command line asks of it and keeps.
--
-- The parts, with paths from the repository's root:
--   * Base, Outcome, Exec: lists and tests over native numbers; how a call ends (a value, an error,
--     or a panic: an `unwrap` of nothing, an index out of bounds, `todo!()`); methods on a state.
--   * Blockchain.Types: the structs and enums of src/blockchain/src.
--   * Blockchain.Platform: what those call of other crates (Keccak, ed25519, bincode) and of the
--     system (clock, random numbers), with their documented laws as records.
--   * Blockchain.Crypto, Header, Transaction, Block: crypto/hash_algorithm.rs, signature.rs and
--     structures/{header,transaction,block}.rs. `new` of each is `Header::new`, `Transaction::new`,
--     `Block::new`; `verify` and `fetch_payload` are those of `Block`.
--   * Blockchain.Chain, Disk, Persistence: structures/chain.rs. The chain is the list of blocks, the
--     directory a function from the number in a file's name to what is there. `load_blocks` counts
--     with an i32, which wraps, and runs on fuel; `load_blocks-total` gives the fuel that is enough.
--   * Blockchain.Blockchain: blockchain.rs, method by method; Invariant says when a blockchain is in
--     order, Commit, Growth, Restart and Peers what each operation does to it.
--   * BlockchainService: src/blockchain_service/service.rs, with the messages (Command, Message).
--   * BlockchainService.Responder: the handlers of src/blockchain_service/event.rs for what other
--     nodes ask, and `handle_incoming_blockchain_command` of pyrsia_node/src/network/handlers.rs.
--   * BlockchainService.Events: the events of src/blockchain_service/event.rs and their loop.
--   * Authorities: src/blockchain/src/identities/authority_verifier.rs. A multisignature is the list
--     of indices and signatures that iterating over it gives. Counting has the pigeonholes.
--   * TransparencyLog: src/transparency_log/log.rs. The table of the database is the list of its rows
--     (Database), with `ORDER BY` and `GROUP BY` as parameters; Writing has what changes the table,
--     Reading the queries and what is decided on them, named as in the source, but `add_artifact_log`
--     for `add_artifact`, `verify_package_can_be_added` for the longer name, and one name each for
--     the rows that a query asks for; Authorized has `get_authorized_nodes`. Opening the
--     database goes alike for all steps of one call.
--   * VerificationService: src/verification_service/service.rs. Channels are numbers, and what is sent
--     into them is a list; `build` is what the build service answers to the call, an identifier or
--     an error. Collecting follows requests until the build starts, Verdicts the end of the build.
--   * Network.EventLoop: src/network/event_loop.rs. The state has the pending maps (Tables: hash maps
--     as lists), and what went out: answers, dropped senders, events for the node, calls of libp2p.
--     Commands has the arms of `handle_command` as functions of their own, Events those of the events,
--     Run the loop over a list of commands and events. What libp2p answers is an argument of each
--     step. Accounting counts where a sender is, Dropped and Answers follow single commands.
--   * Network.Client: src/network/client.rs, against any loop that takes commands; IdlePeer has
--     `get_idle_peer`, with what it needs of `f64` as a parameter.
--   * Network.Codecs: src/network/*_protocol.rs, a module for each, named as in the source. A stream is
--     the bytes still to be read or written so far; `Wire` is what the codecs call of libp2p and of
--     futures::io. Closing a stream sends nothing. A float travels as its eight bytes.
--   * BuildService: src/build_service. Names has the texts that service.rs takes apart, Endpoints the
--     requests of mapping/service.rs and pipeline/service.rs, with HTTP and JSON as parameters; HTTP
--     answers the same to the same request within one call. Service is service.rs: the files are a
--     function of their paths, `System` is what std::fs and SHA-256 answer, `poll` is the loop that
--     `start_build` spawns, over one answer of the pipeline for each tick, and `process_each` the loop
--     of `process_artifact_urls`. EventLoop is `BuildEventLoop` of event.rs, over any artifact service
--     that takes results (ArtifactBuilds); what the network's client and the transparency log answer
--     to `start_build` is an argument. The queue has no bound here.
--   * ArtifactService: src/artifact_service. Storage is storage.rs, with the directory as a function of
--     paths and what std::path and std::fs answer as a parameter; Service is service.rs, over the
--     transparency log, the client of the network and the store. What the loop of the build service
--     answers is a parameter of it, and `with_draws` hands each artifact the random values of its log.
--   * Node: pyrsia_node/src. Handlers is network/handlers.rs but for the blockchain, with
--     `connect_to_p2p_network` and `load_peer_addrs` of main.rs; Events is the loop of main.rs. Services
--     puts the artifact service behind the loops of the blockchain and of the builds.
--   * Handlers: the handlers of src/docker/v2 and src/java/maven2 (`manifest_id` and `blob_id` are
--     `get_package_specific_artifact_id`), with the rejections and responses of NodeApi.
--   * Util.Keypair: src/util/keypair_util.rs, over `KeyStore`: the files, and ed25519.
--   * NodeApi: src/node_api over `Services` (what its handlers call, with what that changes), with
--     docker/error_util.rs in Errors. The filters of warp are the parameter `Warp`, with what warp
--     documents of them in Routes.WarpLaws; JSON and CSV stand for the values that they encode, and
--     `Serde` has the bodies of requests. `serve_http` is the node's interface without the routes of
--     packages, which have other paths. The content type of a request is always JSON.
--   * Cli.Dialogue: of src/pyrsia_cli/src/cli/handlers.rs, the questions of `config_add`, on fuel for
--     the rounds, since they may never end; what is printed of a build request; `parse_arg_fields`,
--     which Columns follows to the answer of a node.
--   * Cli.Node: src/cli_commands/node.rs, over any `Http`; Reached puts the routes of a node behind it.
--   * Cli: src/cli_commands/config.rs in Config, over `Confy` (what confy and std::fs answer on files of
--     their own) and `Patterns` (HOSTNAME_REGEX); the printed lines are in the error. DiskSpace
--     is the regular expression of the disk space, which divides a text in one way at most.
--     Numerals has the reading and the print of a u16, with five digits as fuel. A path of the
--     configuration that only the tests set is left out.
--   * Tests: a sample of the parameters that keeps their laws, and the theorems at concrete inputs.
--
-- Bounds: `u128` arithmetic wraps as in a release build, and `as usize` drops the upper 64 bits; a
-- chain has at most 2 ^ 64 blocks, as a vector in memory must. A clock before 1970 is not modelled.
-- Requests travel through queues and one-shot channels to the one loop that answers them; the model
-- calls the handler. Logging and display are left out, and so are the set-up of libp2p, the filters in
-- front of the handlers of packages (docker/v2/routes.rs, java/maven2/routes.rs), the parsing of
-- arguments, the wiring at start-up, and the metrics of the operating system.
pub mod Base
pub mod Outcome
pub mod Exec
pub mod Blockchain
pub mod BlockchainService
pub mod Authorities
pub mod TransparencyLog
pub mod VerificationService
pub mod Network
pub mod BuildService
pub mod ArtifactService
pub mod Node
pub mod Handlers
pub mod Util
pub mod NodeApi
pub mod Cli
mod Tests
