-- ===== src/Lib.antt =====
-- Avocado is a replicated key-value store: clients of a node put and get values, and the node
-- coordinates each operation with the replicas of the key's shard by the ABD protocol, over packets
-- that are encrypted. This library models the program's C++ and proves what makes it correct.
--
-- The parts and their files, with paths from the repository's root:
-- * Lamport (src/include/protocol/abd/lamport.h): the clocks that order writes. A clock is a
--   record of two 32-bit numbers; the operators are those that compare `to_int`.
-- * Msg (src/include/protocol/abd/msg.h): a message is the header and the bytes that the code lays
--   over an array. Msg/Build follows MsgBuilder, Msg/Wire the bytes.
-- * KeyAccess (src/include/protocol/abd/key_access.h): the clock behind a key.
-- * Memtable (src/include/memtable/meta_data.h, src/include/memtable/memtable.h,
--   src/memtables/memtable.cpp): the store of one node. create_node, put, get and decrypt_node are
--   functions on a record of the skip list, a heap of meta data and the next address.
--   Memtable/KeyOrder is the order of nodes, Memtable/Put a put that no thread disturbs,
--   Memtable/Clocks what it does to the clocks, and Memtable/Race puts of any number of threads as a
--   step relation. Memtable/Creation, Memtable/Settling and Memtable/Pending are about a node
--   between its creation and its put. Memtable/Interface says what is asked of folly's skip list and
--   of the cipher; Memtable/AssocList fills it.
-- * Protocol (src/include/protocol/abd/protocol.h and replica_context.h, rpc_context.h and span.h
--   beside it): Protocol/Context is a round of requests, Protocol/Requests the handlers of a
--   replica, Protocol/Operations the start of an operation and Protocol/Continuations its second
--   phase. A handler returns the new state and its effects, the requests, responses and calls of the
--   client, in order. Protocol/Quorum is about the number of responses, Protocol/Delivery about
--   packets on their way, Protocol/Replica about a replica's answers, Protocol/Clocks and
--   Protocol/WritePath about puts, and Protocol/ReadPath, Protocol/Answer, Protocol/Versions and
--   Protocol/WriteBack about gets. Protocol/Cluster puts the handlers of all nodes together, as
--   steps that run in any order. Protocol/Startup connects to the replicas, over eRPC as an
--   argument; its loops have fuel, and Protocol/Startup/Connected says how much. Protocol/Buffers
--   has the message buffers of a round. The protocol takes a packet format as an argument, and
--   Protocol/Encrypted fills it with that of Crypt.
-- * Crypt (src/include/crypt/release/encrypt_package.h, src/include/utils/utility.h): the packet
--   format in memory, and where its IVs come from. Crypt/CipherSsl
--   (src/include/crypt/release/encrypt_openssl.h) is the chain of calls of OpenSSL under it, each of
--   which may fail; it fills the ciphers that the two stores ask for. Crypt/CbcHash
--   (src/include/crypt/hash_openssl.h) is a code over AES in CBC mode that nothing includes. Bytes
--   that the code leaves uninitialised are arguments.
-- * Server (src/server.cpp): the rate limit of the benchmark, the slices of its threads, the
--   placement of shards on nodes (Server/Placement, with its sorts and with replica_ordering of
--   protocol.h), the addresses of servers, the main loop (Server/Run, with get_msg of protocol.h)
--   and the commands that end a run.
-- * Trace (src/generate_traces.cpp, src/generate_traces.h): the commands of the benchmark, and the
--   search for a key by its share. Its doubles are only compared, and are numbers here.
-- * HostMemory (src/memtables/create_allocator.cpp, and Args of src/server.cpp): the size of the
--   memory for the slots, and the regions that an allocator maps and unmaps.
-- * LinkedList (src/include/list.h): nodes on a heap and iterators; LinkedList/Chain is what a
--   list holds, LinkedList/Insert what insertions and deletions do to it.
-- * Store (src/include/store.h, src/include/crypt/release/encrypt_openssl.h): the encrypted hash
--   table, which the server does not use. Store/Hash is the hash over a bucket, with what
--   Store/Hash/Objects says of its copies and moves, Store/Table entries and the search, which
--   Store/Find is about, Store/Put and Store/Get the operations. A hash has fuel for the rounds of
--   its update. Store/Positions says that buckets are lists of LinkedList.
-- * Strings (src/copy_utility.c): copies of strings with a bound, which the server does not use.
-- * Stats (src/include/stats, src/stats): the counters of a build that collects statistics, which
--   all threads add to. A function is the list of its atomic additions, and Stats/Totals says what
--   any interleaving of such lists leaves. Stats/Packets, Stats/Hashing and Stats/Rpc are the
--   classes that count around the ciphers, the hash and eRPC, and Stats/Clock turns time stamps into
--   milliseconds.
-- * Common has the shared names, lists by native numbers, bytes in memory and Option as the type
--   of code that may access memory out of bounds.
--
-- Numbers are natural numbers with the wrap-around of the code's types written out where the code
-- can reach it; a pointer into the heap is an address. A put takes the outcomes of its weak
-- compare-exchanges as a list, and one exchange that does not fail spuriously is enough for it to
-- end when no other thread interferes. The exchange of an IV has fuel for two rounds, which one
-- thread never exceeds.
--
-- Not modelled: OpenSSL, folly, eRPC and the slab allocator, which are arguments or effects; the
-- files that statistics are written to, the parsing of arguments, and code inside `#if 0`, as the
-- table without hashes of store.h and the parsing of traces. A slab allocator that is used up, a
-- call of OpenSSL that fails under PacketSsl, and a number of an address that is beyond 63 bits are
-- left out. A response whose tag is wrong is read like any other, as in the code.
pub mod Common
pub mod Lamport
pub mod Msg
pub mod KeyAccess
pub mod Memtable
pub mod Crypt
pub mod Protocol
pub mod Server
pub mod LinkedList
pub mod Store
pub mod Strings
pub mod Trace
pub mod HostMemory
pub mod Stats
