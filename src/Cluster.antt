-- ===== src/Cluster.antt =====
-- mpi/MasterProcessCode.cpp and mpi/NodeProcessCode.cpp: how the blocks of a file are spread over
-- the processes and collected again. MPI is a parameter; the processes of a run are modelled
-- together, since every collective call is made by all of them.
pub mod Collectives
pub mod Partition
pub mod Transfer
pub mod Memory
pub mod Index
pub mod RoundTrip
pub mod Size
pub mod ReadBack
pub mod Frame
pub mod Owner
pub mod Protocol
use dagon_fs.Prelude.{
  Bool, true, false, ℕ, zero, suc, ◌+◌, ◌-◌, ◌*◌, ◌/◌, ◌%◌, Option, none, some, List, [], ◌∷◌, ◌++◌,
  length, get_elem?, take, drop, ltb, leb, ◌==◌, bit, if◌then◌else◌, ◌>>=◌,
}
use dagon_fs.Map.{Map, insert}
use dagon_fs.Map.Keys.{nat_ord}
use dagon_fs.Blocks.{
  u32, Address, DataBlock, new_data_block, Blocks, block_list_exist_for_inode,
  create_empty_block_list_for_inode, get_data_block_list_of_inode, add_data_blocks_to,
  set_addresses, get_addresses,
}
use Collectives.{Mpi}

-- A byte of memory; `none` is one that nothing was written to.
abbrev pub Byte : Type 0
Byte = Option ℕ

-- The blocks that a process has allocated, oldest first: `malloc` gives the next place.
abbrev pub Heap : Type 0
Heap = List (List Byte)

-- The state of a `NodeProcessCode`.
pub record NodeProcess : Type 0 where
  pub heap : Heap
  pub data_block_pointers : Map ℕ (List DataBlock)

-- The master, its index of blocks, and the nodes of rank 1, 2, ….
pub record Cluster : Type 0 where
  pub master_heap : Heap
  pub blocks : Blocks
  pub nodes : List NodeProcess

abbrev pub world_size : Cluster → ℕ
world_size c = suc (length c.nodes)

-- `sizeof(PointerPacket)`
abbrev pub pointer_size : ℕ
pointer_size = 8

-- `MPI_BYTE` data
abbrev pub byte_size : ℕ
byte_size = 1

-- The blocks that process `rank` keeps of `n` blocks.
unfoldable pub effective_blocks : (n world rank : ℕ) → ℕ
effective_blocks n world rank = n / world + bit (ltb rank (n % world))

-- The loop that fills `scatterCounts` or `gatherCounts`, from process `i` on.
unfoldable pub part_counts : (n world size i left : ℕ) → List ℕ
part_counts n world size i zero = []
part_counts n world size i (suc left) =
    u32 (effective_blocks n world i * size) ∷ part_counts n world size (i + 1) left

-- Whether the sums of the counts of bytes and of pointers, which the loops add up in an `int`, stay
-- below its end.
abbrev pub fits_int : (n block_size : ℕ) → Bool
fits_int n block_size =
    if ltb (n * block_size) 2147483648 then ltb (n * pointer_size) 2147483648 else false

-- The same loop for `scatterDispls` or `gatherDispls`, with the running offset.
unfoldable pub displacements : ℕ → List ℕ → List ℕ
displacements offset [] = []
displacements offset (c ∷ counts) = offset ∷ displacements (u32 (offset + c)) counts

-- The bytes behind a list of addresses, copied one behind the other.
unfoldable pub load_blocks : Heap → List Address → Option (List Byte)
load_blocks heap [] = some []
load_blocks heap (none ∷ l) = none
load_blocks heap (some a ∷ l) = elim (get_elem? heap a) [
  | none ↦ none
  | some block ↦ elim (load_blocks heap l) [ none ↦ none | some rest ↦ some (block ++ rest) ]
]

-- `newDataBlock` for each address received.
unfoldable pub node_blocks : (inode rank : ℕ) → List Address → List DataBlock
node_blocks inode rank [] = []
node_blocks inode rank (a ∷ l) =
    record (new_data_block inode) { data_block_address = a; process_rank = rank }
    ∷ node_blocks inode rank l

module _ (block_size : ℕ) where
  unfoldable pub number_of_blocks : ℕ → ℕ
  number_of_blocks size = u32 (size / block_size + bit (ltb 0 (size % block_size)))

  -- `malloc` and `memcpy` of block `i` of the received bytes and of those behind it.
  unfoldable pub store_blocks : (i left : ℕ) → List Byte → Heap → List Address × Heap
  store_blocks i zero buf heap = ([], heap)
  store_blocks i (suc left) buf heap =
      let rest =
        store_blocks (i + 1) left buf (heap ++ take block_size (drop (i * block_size) buf) ∷ []) in
      (some (length heap) ∷ rest.0, rest.1)

  -- The end of `MasterProcessCode::DAGonFS_Write`: the block list grows to `n` blocks, and the
  -- first `n` get their addresses.
  unfoldable pub save_addresses : (world inode n : ℕ) → List Address → Blocks → Blocks
  save_addresses world inode n addresses bs =
      let bs' =
        if block_list_exist_for_inode inode bs
        then bs
        else create_empty_block_list_for_inode inode bs in
      let l = get_data_block_list_of_inode inode bs' in
      let grown =
        if ltb (length l) n
        then add_data_blocks_to block_size world l (n - length l) inode
        else l in
      insert inode (set_addresses grown addresses) bs'

  -- The number of blocks that a read asks for.
  unfoldable pub blocks_for_request : (file_size req_size : ℕ) → ℕ
  blocks_for_request file_size req_size =
      if ltb file_size req_size
      then file_size / block_size + bit (ltb 0 (file_size % block_size))
      else req_size / block_size + bit (ltb 0 (req_size % block_size))

module _ (mpi : Mpi) where
  -- `NodeProcessCode::DAGonFS_Read`: the bytes that the node sends.
  unfoldable pub node_read : (world rank n : ℕ) → List Address → NodeProcess → Option (List Byte)
  node_read world rank n addresses node =
      let counts = part_counts n world pointer_size 0 world in
      load_blocks node.heap
        (mpi.scatterv Address pointer_size addresses counts (displacements 0 counts) rank)

  unfoldable pub nodes_read :
      (world rank n : ℕ) → List Address → List NodeProcess → Option (List (List Byte))
  nodes_read world rank n addresses [] = some []
  nodes_read world rank n addresses (node ∷ nodes) = elim (node_read world rank n addresses node) [
    | none ↦ none
    | some part ↦ elim (nodes_read world (rank + 1) n addresses nodes) [
      | none ↦ none
      | some parts ↦ some (part ∷ parts)
    ]
  ]

module _ (mpi : Mpi) (block_size : ℕ) where
  -- `NodeProcessCode::DAGonFS_Write`: the addresses that the node sends, and its new state. The
  -- root's buffer is what the scatter hands out.
  unfoldable pub node_write :
      (world rank inode file_size : ℕ) → List Byte → NodeProcess → List Address × NodeProcess
  node_write world rank inode file_size buffer node =
      let n = number_of_blocks block_size file_size in
      let counts = part_counts n world block_size 0 world in
      let local = mpi.scatterv Byte byte_size buffer counts (displacements 0 counts) rank in
      let stored = store_blocks block_size 0 (effective_blocks n world rank) local node.heap in
      let kept = get_data_block_list_of_inode inode node.data_block_pointers in
      (
        stored.0,
        record {
          heap = stored.1;
          data_block_pointers =
              insert inode (kept ++ node_blocks inode rank stored.0) node.data_block_pointers;
        },
      )

  -- The nodes from `rank` on.
  unfoldable pub nodes_write :
      (world rank inode file_size : ℕ)
      → List Byte
      → List NodeProcess
      → List (List Address) × List NodeProcess
  nodes_write world rank inode file_size buffer [] = ([], [])
  nodes_write world rank inode file_size buffer (node ∷ nodes) =
      let done = node_write world rank inode file_size buffer node in
      let rest = nodes_write world (rank + 1) inode file_size buffer nodes in
      (done.0 ∷ rest.0, done.1 ∷ rest.1)

  -- `MasterProcessCode::DAGonFS_Write` with what the nodes do in the meantime. `none`: the offsets
  -- run over the end of `int`, or the scatter would read past the end of the buffer.
  unfoldable pub cluster_write : (inode file_size : ℕ) → List Byte → Cluster → Option Cluster
  cluster_write inode file_size buffer c =
      let world = world_size c in
      let n = number_of_blocks block_size file_size in
      let counts = part_counts n world block_size 0 world in
      let gather_counts = part_counts n world pointer_size 0 world in
      let local = mpi.scatterv Byte byte_size buffer counts (displacements 0 counts) 0 in
      let stored = store_blocks block_size 0 (effective_blocks n world 0) local c.master_heap in
      let others = nodes_write world 1 inode file_size buffer c.nodes in
      let addresses =
        mpi.gatherv Address pointer_size (stored.0 ∷ others.0) gather_counts
          (displacements 0 gather_counts) in
      let written =
        if leb (n * block_size) (length buffer)
        then some (record {
          master_heap = stored.1;
          blocks = save_addresses block_size world inode n addresses c.blocks;
          nodes = others.1;
        })
        else none in
      if fits_int n block_size then written else none

  -- `MasterProcessCode::DAGonFS_Read` with what the nodes do in the meantime: the buffer returned,
  -- or a null pointer for an empty file. The outer `none` is an access to memory that is not there, or
  -- offsets that run over the end of `int`.
  unfoldable pub cluster_read :
      (inode file_size req_size : ℕ) → Cluster → Option (Option (List Byte))
  cluster_read inode file_size req_size c =
      let world = world_size c in
      let n = blocks_for_request block_size file_size req_size in
      let gather_counts = part_counts n world block_size 0 world in
      let answer = get_addresses n (get_data_block_list_of_inode inode c.blocks) >>= λ addresses.
      load_blocks c.master_heap (take (effective_blocks n world 0) addresses) >>= λ part.
      nodes_read mpi world 1 n addresses c.nodes >>= λ parts. some (
        some (
          mpi.gatherv Byte byte_size (part ∷ parts) gather_counts
            (displacements 0 gather_counts))) in
      if file_size == 0 then some none else if fits_int n block_size then answer else none
