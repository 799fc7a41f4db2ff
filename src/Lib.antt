-- ===== src/Lib.antt =====
-- DAGonFS: a file system in the memory of a cluster, mounted with FUSE on one process of an MPI run.
--
-- The client-server program has three layers. FUSE calls a handler of `FileSystem`
-- (src/client-server/include/ramfs/FileSystem.cpp) for each request; the handlers keep the tree in
-- the inodes of the manager `Nodes` (src/client-server/include/nodes). The bytes of files are cut
-- into blocks, which `MasterProcessCode` scatters over the processes of the run and gathers again
-- (src/client-server/include/mpi); the index `Blocks` (src/client-server/include/blocks) has the
-- address of each block.
--
-- - Prelude: Booleans, lists and options over the native numbers.
-- - Map: `std::map` as an association list in the order of its keys.
-- - Blocks: blocks/Blocks.cpp, blocks/DataBlock.cpp and mpi/DataBlockManager.cpp.
-- - Cluster: `DAGonFS_Write` and `DAGonFS_Read` of mpi/MasterProcessCode.cpp and
--   mpi/NodeProcessCode.cpp. The master and all nodes are one state, `Cluster`, since each collective
--   call is made by every process; `cluster_write` and `cluster_read` are the master's functions with
--   what the nodes do in the meantime. MPI is the record `Mpi`, with what the standard says of
--   `MPI_Scatterv`, `MPI_Gatherv` and `MPI_Allgatherv` as `IsMpi`. A process's memory is the list of
--   its blocks, and an address is a place in this list.
--   Cluster/Protocol has the order of the calls, for the master and for the loop of the nodes.
-- - Nodes: nodes/INode.cpp, nodes/Directory.cpp and nodes/Nodes.cpp. Nodes/WellFormed has the
--   invariant, Nodes/Views what is seen of an inode before and after a change.
-- - FileSystem: ramfs/FileSystem.cpp. The state `Fs` has the static members of the class and the
--   singletons; a handler takes it to `some` state with its replies in front, or to `none` where the
--   code runs into undefined behaviour. FileSystem/Requests has the table of the handlers on names,
--   links and attributes, FileSystem/Operations the whole table. FileSystem/Files has the handlers on open files; FileSystem/Attributes those on extended
--   attributes and the small ones on directories; FileSystem/ReadDir has readdir, with the iterator
--   given by its place and the size of an entry as a parameter. FileSystem/Namespace has what each
--   request does to the names, as a function on the children of the directories.
-- - Peers: the peer-to-peer program (src/peer-to-peer/include), where every process has a file
--   system, and tells the others what is done to it. A process is a `Peer`: an `Fs`, the names of
--   its directories, its flags and what it has sent (mpi/RequestSender.cpp). Peers/Transfer has
--   `DAGonFS_Write` and `DAGonFS_Read` of mpi/DistributedCode.cpp, by the list of all processes;
--   Peers/Handlers and Peers/Files the handlers of ramfs/FileSystem.cpp that differ from those of the
--   client-server program, and Peers/Shared the others; Peers/Loop the loop of
--   mpi/DistributedCode.cpp on the packets that arrive, with the kernel that makes its calls as a
--   parameter, and the bytes of a packet received for another one (least byte first). Peers/Replicas has two processes that serve the same requests, Peers/Paths the names
--   that are announced as paths, and a process that makes what another one announced;
--   Peers/Threads the two threads of a process, as the sequence of what they do.
-- - Launcher: DAGonFS_Launcher.cpp, from the lines of the configuration file to the command that is
--   executed; `std::stoi` and the printing of an `int` are parameters.
-- - Tests: the theorems at work on concrete inputs.
--
-- Numbers: an `unsigned int` or `int` is cut to 32 bits, an `unsigned long` or `size_t` to 64, where
-- the code computes with it. The number of inodes, which `getNumberOfINodes` returns as an `int`, is
-- the count itself: the model stands for file systems of fewer than 2 ^ 31 inodes. A sum of counts
-- that leaves the range of `int` in a transfer is undefined behaviour, `none`. The only loop that is not over a list or a count is that of
-- `FuseRmdir`; it gets a round for each link of the directory, and a directory has that many links
-- to remove. The size of a block is a parameter, since the two programs have different ones.
--
-- Not modelled: the copies of the arguments (utils/ArgumentParser.cpp); the mounting of the file
-- system; an interleaving of the two threads of a process within one request or one handler, since
-- Peers/Threads takes each request, and each raising of a flag, as one event; logging and the timing
-- of transfers, which change no state that a handler reads.
pub mod Prelude
pub mod Map
pub mod Blocks
pub mod Cluster
pub mod Nodes
pub mod FileSystem
pub mod Peers
pub mod Launcher
pub mod Tests
