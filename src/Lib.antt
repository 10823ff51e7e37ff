-- ===== src/Lib.antt =====
-- Verification of Dogee, a C++ runtime for distributed shared memory.
--
-- A Dogee program runs on a master (node 0) and slaves. Their shared memory is a 64-bit address
-- space (the object in the upper half, the field in the lower) of 32-bit words in a storage backend.
-- Every node has a directory cache before the backend, which the nodes keep in agreement by
-- messages. Threads of all nodes meet at barriers, semaphores and events, which the master serves.
-- Accumulators add up a local vector of every node into a shared array, of which each node is
-- responsible for one part.
--
-- The parts and their files (paths are those of the repository):
--
-- * Prelude and Prelude/*: Boolean tests, lists and integers over native numbers.
-- * Sync and Sync/*: the class SyncManager of Dogee/DogeeRemote.cpp. Sync/Node has the records of
--   the table sync_data, Sync/Barrier BarrierMsg, Sync/Semaphore SemaphoreMsg and SemaphoreLeaveMsg,
--   Sync/Event CreateEventNode, EventWaitMsg, SetEventMsg and ResetEventMsg, Sync/Master the switch
--   of RcMasterListen and the calls RcEnterBarrier ... RcLeaveSemaphore, and Sync/Reach the runs of
--   any sequence of requests. A handler is a function from the table to the table and the threads
--   that it wakes, in their order. The lock of the manager makes a request one step.
-- * Cache and Cache/*: include/DogeeDirectoryCache.h and Dogee/DogeeDirectoryCache.cpp.
--   Cache/Address has the masks, Cache/Bits the sets of nodes in a directory entry, Cache/Backend
--   what is used of SoStorage, Cache/Node the state of a node and of the cluster, Cache/Server the
--   class DSMCacheProtocal (ServerRenew, ServerWrite, ServerWriteback, ServerWriteMiss,
--   ServerReadMiss, Writeback, Write, WriteMiss, ReadMiss), Cache/Client the calls getblock, doput,
--   doget, put and get, and Cache/Chunk putchunk and getchunk. The other files hold the proofs:
--   Renewal has the messages MsgRenew of a write, Sound and Coherent state the invariant of a node
--   and of a cluster, Directory, Writes, Oldest, Answers, Filled and Blocks are what each step does
--   to it, Hits, PutNew, Puts and Gets the calls on one block, PutChunk and GetChunk those on
--   chunks, Memory any sequence of calls, and Loss a fault of WriteMiss.
-- * Storage and Storage/*: the class SoStorageMemcached of Dogee/DogeeMemcachedStorage.cpp, which
--   keeps one item of memcached for each word. Storage/Memcached has putchunk, getchunk, getblock,
--   get, newobj and getinfo over the client of libmemcached, which is a parameter with what its
--   documentation says of it; Storage/Fetch is what a batch of getchunk does, and Storage/Words
--   fills the interface of the cache. Storage/Blocks has putchunk, getblock and get of
--   SoStorageChunkMemcached, which keeps one item for each block; ChunkWords, Chunks, ChunkWrites
--   and ChunkParts hold the proofs on its parts, and ChunkPut those on the whole. In both a request
--   to store always succeeds.
-- * DMap and DMap/*: the red-black tree of include/DMap.h over a heap of shared nodes. DMap/Node has
--   the nodes and the calls that read them, DMap/Insert leftRotate, rightRotate, insertFixUp,
--   insertNode and insert. DMap/Tree says when a heap holds a tree, Zipper when it holds one around
--   a hole, and Balance what a red-black tree is; Order has the order of the entries. Search,
--   Bounds, Neighbours, Height and Destroy hold the proofs on the calls that read. Those on the
--   insertion are in Writes (single writes), RotateLeft and RotateRight, Recolor and Exit, FixLeft,
--   FixRight and RedUncle (the rounds of the loop), FixUp (the loop), Descend and Attach, Insertion
--   (one call) and Build (any calls).
-- * Objects and Objects/*: AllocObjectId, PushObject, DeleteObject and GetObjectNumber of
--   Dogee/DogeeShared.cpp. The storage is a parameter, and rand the list of the numbers that it
--   gives.
-- * Accumulator and Accumulator/*: Dogee/DogeeAccumulator.cpp and include/DogeeAccumulator.h.
--   Accumulator/Partition has the part of the vector of each node as init_data_node and
--   _DoAccumulateAndWait compute it, Accumulator/Sparse MakeSparseArray, IsProfitableToCompress and
--   the two forms of DAddAccumulator, Accumulator/Message AcAccumulateMsg and
--   AcAccumulatePartialDoneMsg, Accumulator/Sending the messages to one node, and Accumulator/Rounds
--   the loop over all nodes. Pieces, Steps and Wake hold the proofs.
-- * MapReduce and MapReduce/*: the way of the pairs of a MapReduce to the nodes.
--   MapReduce/Serializer and MapReduce/Text have the serializers of include/DogeeSerializerImpl.h,
--   MapReduce/Buffers the function PrepareBuf of DMapReduce::Map and BaseDoAccumulateDense of
--   include/DogeeMR.h, MapReduce/Rounds the loop of _Map in Dogee/DogeeAccumulator.cpp. The sockets
--   that are ready in a round are an argument.
-- * Checkpoint and Checkpoint/*: Dogee/DogeeCheckpoint.cpp and the class ClassSerializer of
--   include/DogeeCheckpoint.h, over a storage with the calls and laws of Checkpoint/Store.
--   Checkpoint/Stream has the streams, Dump has DumpSharedMemory and RestoreSharedMemory, Process
--   DoCheckPoint, DoRestart, remove_checkpoint_files and the calls of DCheckpointBarrier::Enter
--   without its barriers. Segment, Restore and Objects hold the proofs on the objects, Words fills
--   the storage by SoStorageMemcached, Saving, Loading and Restart those on a checkpoint and its
--   restart, and Files those on the files.
-- * Startup and Startup/*: str_split of Dogee/DogeeShared.cpp, with std::getline as the standard has
--   it.
-- * Tests and Tests/*: concrete runs.
--
-- What stands for what. A call of the cache runs to its end before the next call of any node begins,
-- so a message to the home of a block is its handler, called at once: the locks, the sockets and two
-- calls at the same time are not modelled. The messages MsgRenew of a write are collected while its
-- handler runs and then handled, before the next call begins. The source has no acknowledgement of
-- them, so this is a condition on the use of the caches: between two calls that depend on each other
-- the network delivers what was sent. A directory entry has 64 bits, from which the bit of node 64
-- and of any later node is lost, so the invariant of a cluster says that it has at most 64 nodes. A
-- call returns a value of Run: it returns, it stops at a break point or a failed assert, or it goes
-- round a loop for ever. The words of a block are a function of the offset, of which the offsets
-- below 32 are used; the words of the backend are a function of the address. Addresses and lengths
-- of the caches are numbers without bound: no call comes near 2 ^ 64. The fields and offsets of the
-- storage classes have 32 bits and wrap around. The clock of a cache, which the least recently used
-- block is found by, is a 32-bit counter that wraps around, and the theorems about it say that fewer
-- calls were made. The source has one clock for all caches of a process; each node is a process. The
-- products of the partition of a vector, of at most 2 ^ 27 words, stay below 2 ^ 32 in any cluster
-- of fewer than 2 ^ 26 nodes. The elements of an accumulated vector are integers of one word without
-- bound. So are the counters of the synchronisation objects, since overflow of a signed int is
-- undefined. An identifier of an object is used with one kind of object only. A file of a checkpoint
-- is a list of 32-bit words, so the members of a checkpoint object take whole words.
--
-- The loops. The loop of the directory over the caches runs once per cache, the search for the
-- oldest block once per block. The loop of putchunk and getchunk over whole blocks has as many
-- rounds of fuel as the chunk has words, which is more than there are blocks; that it never runs out
-- is part of their theorems. So it is for the batches of memcached and for the pieces of a part of a
-- vector, of which each has a word at least. The calls of DMap take any fuel, and their theorems say
-- how much is enough: the height of the tree, its logarithm for search, or its number of nodes. A
-- loop of a checkpoint, whose counter has 32 bits and wraps around, has a round of fuel for each
-- word and one more. The loop from the label MISS is one round, since in the model nothing can
-- change the block that it waits for.
--
-- Not modelled: sockets, threads and process start (handshakes, RcMasterListen beyond its switch,
-- thread pools), getchunk of SoStorageChunkMemcached, DString, the removal from a DMap, Reduce,
-- configuration files, and the examples.
pub mod Accumulator
pub mod Cache
pub mod Checkpoint
pub mod DMap
pub mod MapReduce
pub mod Objects
pub mod Prelude
pub mod Startup
pub mod Storage
pub mod Sync
pub mod Tests
