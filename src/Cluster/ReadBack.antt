-- ===== src/Cluster/ReadBack.antt =====
-- The whole of a write followed by the whole of a read.
use native.Mathlib.Nat.{zero-mul, mul-one}
use dagon_fs.Prelude.{
  ℕ, suc, ◌+◌, ◌*◌, ◌≤◌, ◌<◌, ◌≡◌, refl, ap, ap₂, sym, ◌∙◌, some, List, ◌∷◌, map, flatten, arith,
  length, take, drop, sum, le→leb, take-append_left, drop-append_left, ◌==◌, false, length-flatten,
  sum-map-mul,
}
use dagon_fs.Blocks.{Address}
use dagon_fs.Cluster.{
  Byte, Cluster, world_size, pointer_size, byte_size, effective_blocks, number_of_blocks,
  part_counts, displacements, blocks_for_request, store_blocks, nodes_write, cluster_write,
  cluster_read, save_addresses,
}
use dagon_fs.Cluster.Collectives.{Mpi, IsMpi}
use dagon_fs.Cluster.Partition.{shares, first_block, first_block-suc, sum-shares_all}
use dagon_fs.Cluster.Transfer.{gatherv-shares, first_block-zero}
use dagon_fs.Cluster.Memory.{length-store_blocks}
use dagon_fs.Cluster.Index.{get_addresses-save_addresses}
use dagon_fs.Cluster.RoundTrip.{
  slices, flatten-slices, lengths-slices, small_pointers, reloaded, nodes_write-addresses,
  nodes_read-nodes_write, length-nodes_write,
}
use dagon_fs.Cluster.Size.{number_of_blocks_bounds, blocks_for_request-whole, fits_int_lem}

module _ (mpi : Mpi) (laws : IsMpi mpi) (block_size inode file_size : ℕ) (buffer : List Byte)
    (enough : number_of_blocks block_size file_size * block_size ≤ length buffer)
    (wide : 8 ≤ block_size)
    (narrow : number_of_blocks block_size file_size * block_size < 2147483648) (c : Cluster) where
  small : number_of_blocks block_size file_size * block_size < 4294967296
  small = omega (arith, narrow)

  abbrev blocks : ℕ
  blocks = number_of_blocks block_size file_size

  -- The master's part of the write.
  abbrev master_part : List Address × List (List Byte)
  master_part =
      let counts = part_counts blocks (world_size c) block_size 0 (world_size c) in
      store_blocks block_size 0 (effective_blocks blocks (world_size c) 0)
        (mpi.scatterv Byte byte_size buffer counts (displacements 0 counts) 0) c.master_heap

  abbrev parts : List (List Address)
  parts =
      master_part.0 ∷ (nodes_write mpi block_size (world_size c) 1 inode file_size buffer c.nodes).0

  lengths-parts :
      map length parts ≡ map (λ t. t * 1) (shares blocks (world_size c) 0 (world_size c))
  lengths-parts =
      ap₂ ◌∷◌
        (length-store_blocks block_size 0 (effective_blocks blocks (world_size c) 0) _ c.master_heap
          ∙ sym (mul-one _))
        (nodes_write-addresses mpi laws block_size (world_size c) inode file_size buffer enough wide
          small 1 c.nodes)

  length-parts : length (flatten parts) ≡ blocks
  length-parts =
      length-flatten parts
      ∙ ap sum lengths-parts
      ∙ sum-map-mul 1 (shares blocks (world_size c) 0 (world_size c))
      ∙ rw (mul-one, sum-shares_all blocks (world_size c) (omega arith)) refl

  -- The gather of addresses.
  gathered :
      let counts = part_counts blocks (world_size c) pointer_size 0 (world_size c) in
      mpi.gatherv Address pointer_size parts counts (displacements 0 counts) ≡ flatten parts
  gathered =
      gatherv-shares mpi laws pointer_size 1 blocks (world_size c) parts (omega arith) (omega arith)
        (small_pointers mpi laws block_size (world_size c) inode file_size buffer enough wide small)
        lengths-parts

  -- The gather of bytes gives the file back.
  regathered :
      let counts = part_counts blocks (world_size c) block_size 0 (world_size c) in
      mpi.gatherv Byte byte_size
        (slices block_size blocks (world_size c) buffer 0 (world_size c))
        counts
        (displacements 0 counts)
      ≡ take (blocks * block_size) buffer
  regathered =
      let one : block_size * byte_size ≡ block_size = omega arith in
      rw one at (
        gatherv-shares mpi laws byte_size block_size blocks (world_size c)
          (slices block_size blocks (world_size c) buffer 0 (world_size c)) (omega arith)
          (omega arith) (rw one small)
          (lengths-slices block_size blocks (world_size c) buffer 0 (world_size c) (omega arith)
            enough))
      ∙ flatten-slices block_size blocks (world_size c) buffer 0 (world_size c)
      ∙ rw (sum-shares_all blocks (world_size c) (omega arith), first_block-zero, zero-mul) refl

  own_addresses : take (effective_blocks blocks (world_size c) 0) (flatten parts) ≡ master_part.0
  unfolding flatten
  own_addresses = take-append_left master_part.0 _ _ (
      sym (
        length-store_blocks block_size 0 (effective_blocks blocks (world_size c) 0) _
          c.master_heap))

  other_addresses :
      drop (first_block blocks (world_size c) 1) (flatten parts)
      ≡ flatten (nodes_write mpi block_size (world_size c) 1 inode file_size buffer c.nodes).0
  unfolding flatten
  other_addresses = drop-append_left master_part.0 _ _ (
      omega (
        arith,
        first_block-suc blocks (world_size c) 0,
        first_block-zero blocks (world_size c),
        length-store_blocks block_size 0 (effective_blocks blocks (world_size c) 0)
            (mpi.scatterv Byte byte_size buffer
              (part_counts blocks (world_size c) block_size 0 (world_size c))
              (displacements 0 (part_counts blocks (world_size c) block_size 0 (world_size c))) 0)
            c.master_heap,
      ))

  -- The cluster after the write.
  abbrev written : Cluster
  written = record {
    master_heap = master_part.1;
    blocks = save_addresses block_size (world_size c) inode blocks (flatten parts) c.blocks;
    nodes = (nodes_write mpi block_size (world_size c) 1 inode file_size buffer c.nodes).1;
  }

  cluster_write-written : cluster_write mpi block_size inode file_size buffer c ≡ some written
  unfolding cluster_write
  cluster_write-written =
      rw (fits_int_lem blocks block_size wide narrow, le→leb _ _ enough, gathered) refl

  same_world : world_size written ≡ world_size c
  same_world =
      ap suc (length-nodes_write mpi block_size (world_size c) inode file_size buffer 1 c.nodes)

  cluster_read-written :
      (req_size : ℕ)
      → 0 < file_size
      → blocks_for_request block_size file_size req_size ≡ blocks
      → cluster_read mpi block_size inode file_size req_size written
        ≡ some (some (take (blocks * block_size) buffer))
  unfolding cluster_read
  cluster_read-written req_size some_bytes e =
      let nonzero : (file_size == 0) ≡ false = ground arith in
      rw
        (
          nonzero,
          same_world,
          e,
          fits_int_lem blocks block_size wide narrow,
          get_addresses-save_addresses block_size (world_size c) inode blocks (flatten parts)
              c.blocks length-parts,
          own_addresses,
          reloaded mpi laws block_size (world_size c) inode file_size buffer enough wide small 0
              c.master_heap (omega arith),
          nodes_read-nodes_write mpi laws block_size (world_size c) inode file_size buffer enough
              wide small 1 c.nodes (flatten parts) (omega arith) length-parts other_addresses,
        )
        (ap (λ t. some (some t)) regathered)

-- With blocks of at least 8 bytes, a file of more than 0 bytes that fits with one block more in
-- 2 GiB, and a buffer that holds all blocks of the file: the write succeeds, and a read of the whole
-- file or of more, from the cluster that the write leaves, gives the bytes of those blocks.
pub cluster_read-cluster_write :
    (mpi : Mpi)
    → IsMpi mpi
    → (block_size inode file_size req_size : ℕ) (buffer : List Byte) (c : Cluster) → 8 ≤ block_size
    → 0 < file_size
    → file_size ≤ req_size
    → file_size + block_size ≤ 2147483648
    → number_of_blocks block_size file_size * block_size ≤ length buffer
    → (c' : Cluster) × (cluster_write mpi block_size inode file_size buffer c ≡ some c')
      × (cluster_read mpi block_size inode file_size req_size c'
          ≡ some (some (take (number_of_blocks block_size file_size * block_size) buffer)))
cluster_read-cluster_write mpi laws b inode size req buffer c wide some_bytes all fits enough =
    let narrow : number_of_blocks b size * b < 2147483648 =
      omega (arith, number_of_blocks_bounds b size (omega arith) fits) in
    (
      written mpi laws b inode size buffer enough wide narrow c,
      cluster_write-written mpi laws b inode size buffer enough wide narrow c,
      cluster_read-written mpi laws b inode size buffer enough wide narrow c req some_bytes
          (blocks_for_request-whole b size (omega arith) fits req all),
    )
