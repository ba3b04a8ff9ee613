-- ===== src/Lib.antt =====
-- Verification library of the key-value programs in Ex4 of this repository: a key-value server over
-- InfiniBand (Ex4/kv_server.c), an index server that says which of several servers has a key
-- (Ex4/kv_indexer.c), the client library (Ex4/kv_client.c), and a web server that keeps its files in
-- the store (Ex4/nweb23.c). Ex3/kv_template.c is an earlier client and server in one file.
--
-- A client and a server first exchange the addresses of their queue pairs over TCP, then connect the
-- queue pairs. A client sends packets (Ex4/kv_shared.h): small values travel in the packet, large
-- ones are written to and read from a node of registered memory that the server's answer names.
-- With several servers the client first asks the index server with FIND for the number of one.
--
-- Files:
--   Base, Run: shared names and tests; the outcome of C code (a result, a fault, out of fuel, the
--     return of an error after a failed completion). Run also has the predicate Ensures on the
--     result of a run, if it has one.
--   Bytes: buffers as functions from offsets to bytes, little-endian words, memcpy, strings.
--   Packet: `struct packet` on x86-64 as offsets into a buffer, and the constants.
--   Pool: `MEMORY_INFO` nodes at addresses and `maintain_pool` of Ex4/kv_server.c.
--   Server: the entries and `handle_server_packets_only` of Ex4/kv_server.c; the request lies in the
--     server's buffer and the answer is written over it. The entries are a list, since nothing but
--     their own links points to them.
--   Serve: `pp_wait_completions`, `run_server` and `clear_server_data` of Ex4/kv_server.c.
--   Fabric: the interface to the queue pair, with the laws that a completed SEND and a completed
--     RDMA operation on a registered buffer obey, and an instance of it.
--   Client: `kv_set`, `kv_get` and `kv_close` of Ex4/kv_client.c on a client and its server, and
--     `pp_wait_completions` of the client.
--   Indexer: Ex4/kv_indexer.c: `hash_key`, the handler of the client's packets, and the whole handler
--     with the database and the server's loop.
--   Dkv: `mkv_` and `dkv_` set and get of Ex4/kv_client.c on all connections.
--   Args: `parse_args` of Ex4/kv_client.c.
--   Sessions: `mkv_open`, `mkv_close`, `dkv_open` and `dkv_close` of Ex4/kv_client.c.
--   Wire, Conn, Handshake: the address messages, the connection context, and the address exchange
--     of Ex4/kv_server.c and Ex4/kv_shared.h.
--   Setup: `orig_main` of Ex4/kv_server.c, from the parsed options to a connected context.
--   Files: set and get of Ex4/nweb23.c, the variant of the client that stores files, over one and
--     over all connections, and `recursive_fill_kv`, which stores a folder.
--   Web: `web` of Ex4/nweb23.c up to the key that it asks for, what it then sends, and the loop of
--     `main`.
--   Template: `handle_server_packets_only`, `kv_set`, `kv_get`, `kv_close` and `run_throuput_tests` of
--     Ex3/kv_template.c, and the loops of `pp_init_ctx` and `pp_close_ctx` on the server's pool. Its
--     nodes lie on a heap, a function from addresses to blocks, since the code frees and replaces
--     them; `malloc` is a parameter, any function that gives blocks not in use.
--   Echo: the `select` loop of Ex2/server.cpp, which sends back what its clients send. A round of the
--     loop is given what its calls return; the traffic so far is part of the state.
--   Tests: concrete inputs for the theorems.
--
-- Bounds and fuel: the first loop of `maintain_pool` runs on fuel, more than the number of tainted
-- nodes being enough, and its second loop on eleven, since it adds at most ten nodes. The completion
-- loops run on the list of polls, and end with it as the code waits for ever. In Template a walk along
-- the nodes has one step more than there are nodes, and the throughput test twenty doublings, more
-- than either limit takes. All else is structural.
-- An unsigned int keeps 32 bits in a buffer, the hash 64; the lengths of keys, values and packets are
-- taken to be below 2^32, so that no sum of them wraps. A read or write that leaves its buffer of
-- 4096 bytes is a fault.
--
-- Not modelled: the verbs and socket libraries, whose outcomes are parameters; the parsing of the
-- command line into options, and `main`; the registration of the client's own memory; the copies of
-- this code in the other files of Ex4 and in Ex3; Ex1, and of Ex2 the clients and the benchmarks; of a client,
-- a completion that fails other than an RDMA operation that is refused. A message arrives whole and alone: a client waits for its answer, and two clients of one server take
-- turns.
pub mod Base
pub mod Run
pub mod Bytes
pub mod Packet
pub mod Pool
pub mod Server
pub mod Serve
pub mod Fabric
pub mod Client
pub mod Indexer
pub mod Dkv
pub mod Args
pub mod Sessions
pub mod Wire
pub mod Conn
pub mod Handshake
pub mod Setup
pub mod Files
pub mod Template
pub mod Web
pub mod Tests
pub mod Echo
