-- ===== src/Peers/Transfer.antt =====
-- peer-to-peer/include/mpi/DistributedCode.cpp: `DAGonFS_Write` and `DAGonFS_Read`, by all the
-- processes together, since every collective call is made by all of them.
pub mod Saved
pub mod Reload
pub mod ReadBack
pub mod Sync
use dagon_fs.Prelude.{
  ℕ, zero, suc, ◌+◌, ◌-◌, ◌*◌, ◌/◌, ◌%◌, Option, none, some, List, [], ◌∷◌, length, get_elem?, ltb,
  leb, ◌==◌, bit, if◌then◌else◌, ◌>>=◌,
}
use dagon_fs.Map.{insert}
use dagon_fs.Map.Keys.{nat_ord}
use dagon_fs.Blocks.{
  Address, Blocks, get_data_block_list_of_inode, add_data_blocks_to, set_addresses, get_addresses,
}
use dagon_fs.Cluster.{
  Byte, Cluster, pointer_size, byte_size, effective_blocks, part_counts, fits_int, displacements,
  store_blocks, load_blocks, blocks_for_request,
}
use dagon_fs.Cluster.Collectives.{Mpi}
use dagon_fs.Nodes.{attr_of, with_attr, get_inode, set_inode_at}
use dagon_fs.FileSystem.{Fs, with_nodes}
use dagon_fs.Peers.{Peer}

-- A process with its memory and index changed.
abbrev pub with_cluster : Peer → Cluster → Peer
with_cluster p c = record p { fs = record p.fs { cluster = c } }

module _ (block_size : ℕ) where
  -- `numberOfBlocksForRequest` of a write, which is not cut to 32 bits.
  unfoldable pub peer_number_of_blocks : ℕ → ℕ
  peer_number_of_blocks size = size / block_size + bit (ltb 0 (size % block_size))

  -- The block list grows to `n` blocks, and the first `n` get their addresses.
  unfoldable pub peer_save_addresses : (world inode n : ℕ) → List Address → Blocks → Blocks
  peer_save_addresses world inode n addresses bs =
      let l = get_data_block_list_of_inode inode bs in
      let grown =
        if ltb (length l) n
        then add_data_blocks_to block_size world l (n - length l) inode
        else l in
      insert inode (set_addresses grown addresses) bs

  -- What a process other than the source notes in its own inode.
  unfoldable pub note_size : (inode file_size : ℕ) → Peer → Option Peer
  note_size inode file_size p = get_inode inode p.fs.nodes >>= λ x. some (record p {
    fs = with_nodes p.fs (
        set_inode_at inode
          (with_attr x (record (attr_of x) {
            st_size = file_size;
            st_blocks = length (get_data_block_list_of_inode inode p.fs.cluster.blocks);
          }))
          p.fs.nodes);
  })

  -- The end of a write, at process `rank`.
  unfoldable pub peer_save :
      (world source rank inode file_size : ℕ) → List Address → Peer → Option Peer
  unfolding peer_save_addresses note_size
  peer_save world source rank inode file_size addresses p =
      let n = peer_number_of_blocks file_size in
      let saved = with_cluster p (record p.fs.cluster {
        blocks = peer_save_addresses world inode n addresses p.fs.cluster.blocks;
      }) in
      if rank == source then some saved else note_size inode file_size saved

  -- The processes from `rank` on.
  unfoldable pub peers_save :
      (world source rank inode file_size : ℕ) → List Address → List Peer → Option (List Peer)
  unfolding peer_save
  peers_save world source rank inode file_size addresses [] = some []
  peers_save world source rank inode file_size addresses (p ∷ peers) =
      peer_save world source rank inode file_size addresses p >>= λ q.
      peers_save world source (rank + 1) inode file_size addresses peers >>= λ qs. some (q ∷ qs)

module _ (mpi : Mpi) (block_size : ℕ) where
  -- The scatter and the blocks that process `rank` stores: the addresses that it announces.
  unfoldable pub peer_store : (world rank n : ℕ) → List Byte → Peer → List Address × Peer
  peer_store world rank n buffer p =
      let counts = part_counts n world block_size 0 world in
      let local = mpi.scatterv Byte byte_size buffer counts (displacements 0 counts) rank in
      let stored =
        store_blocks block_size 0 (effective_blocks n world rank) local p.fs.cluster.master_heap in
      (stored.0, with_cluster p (record p.fs.cluster { master_heap = stored.1 }))

  unfoldable pub peers_store :
      (world rank n : ℕ) → List Byte → List Peer → List (List Address) × List Peer
  unfolding peer_store
  peers_store world rank n buffer [] = ([], [])
  peers_store world rank n buffer (p ∷ peers) =
      let done = peer_store world rank n buffer p in
      let rest = peers_store world (rank + 1) n buffer peers in (done.0 ∷ rest.0, done.1 ∷ rest.1)

  -- `DAGonFS_Write` with the buffer of process `source`. `none`: the scatter would read past the
  -- end of the buffer, or a process has no inode of the number.
  unfoldable pub peers_write :
      (source inode file_size : ℕ) → List Byte → List Peer → Option (List Peer)
  unfolding peers_store peers_save
  peers_write source inode file_size buffer peers =
      let world = length peers in
      let n = peer_number_of_blocks block_size file_size in
      let counts = part_counts n world pointer_size 0 world in
      let stored = peers_store world 0 n buffer peers in
      let addresses =
        mpi.allgatherv Address pointer_size stored.0 counts (displacements 0 counts) in
      let saved =
        if leb (n * block_size) (length buffer)
        then peers_save block_size world source 0 inode file_size addresses stored.1
        else none in
      if fits_int n block_size then saved else none

  -- What process `rank` sends of its memory in a read.
  unfoldable pub peer_load : (world rank n : ℕ) → List Address → Peer → Option (List Byte)
  peer_load world rank n addresses p =
      let counts = part_counts n world pointer_size 0 world in
      load_blocks p.fs.cluster.master_heap
        (mpi.scatterv Address pointer_size addresses counts (displacements 0 counts) rank)

  unfoldable pub peers_load :
      (world rank n : ℕ) → List Address → List Peer → Option (List (List Byte))
  unfolding peer_load
  peers_load world rank n addresses [] = some []
  peers_load world rank n addresses (p ∷ peers) = peer_load world rank n addresses p >>= λ part.
      peers_load world (rank + 1) n addresses peers >>= λ parts. some (part ∷ parts)

  -- `DAGonFS_Read` by process `source`: the buffer that it returns, or a null pointer for an empty
  -- file. The outer `none` is an access to memory that is not there.
  unfoldable pub peers_read :
      (source inode file_size req_size : ℕ) → List Peer → Option (Option (List Byte))
  unfolding peers_load
  peers_read source inode file_size req_size peers =
      let world = length peers in
      let n = blocks_for_request block_size file_size req_size in
      let counts = part_counts n world block_size 0 world in
      let answer = get_elem? peers source >>= λ root.
      get_addresses n (get_data_block_list_of_inode inode root.fs.cluster.blocks) >>= λ addresses.
      peers_load world 0 n addresses peers >>= λ parts.
      some (some (mpi.gatherv Byte byte_size parts counts (displacements 0 counts))) in
      if file_size == 0 then some none else if fits_int n block_size then answer else none
