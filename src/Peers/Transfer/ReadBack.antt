-- ===== src/Peers/Transfer/ReadBack.antt =====
-- A write of the peer-to-peer program and a read after it, by any processes.
use native.Mathlib.Nat.{zero-mul, mul-one}
use dagon_fs.Prelude.{
  ℕ, suc, ◌+◌, ◌*◌, ◌≤◌, ◌<◌, ◌≡◌, refl, ap, sym, subst, ◌∙◌, some, List, [], ◌∷◌, map, flatten,
  arith, length, take, sum, le→leb, ◌==◌, false, length-flatten, length-map, get_elem?,
  get_elem?-inside, if◌then◌else◌, ◌>>=◌, sum-map-mul,
}
use dagon_fs.Blocks.{Address, Blocks, get_data_block_list_of_inode, get_addresses}
use dagon_fs.Cluster.{
  Byte, pointer_size, byte_size, number_of_blocks, part_counts, displacements, blocks_for_request,
}
use dagon_fs.Cluster.Collectives.{Mpi, IsMpi}
use dagon_fs.Cluster.Partition.{shares, sum-shares_all}
use dagon_fs.Cluster.Transfer.{gatherv-shares, first_block-zero}
use dagon_fs.Cluster.Memory.{}
use dagon_fs.Cluster.RoundTrip.{slices, flatten-slices, lengths-slices, small_pointers}
use dagon_fs.Cluster.Size.{
  fits_int_lem, number_of_blocks_bounds, blocks_for_request-whole, number_of_blocks-ceil_div,
}
use dagon_fs.Peers.{Peer}
use dagon_fs.Peers.Transfer.{
  peer_number_of_blocks, peers_store, peers_load, peers_write, peers_read, peers_save,
}
use dagon_fs.Peers.Transfer.Saved.{
  HaveInode, HaveInode-stored, heap_of, index_of, saved_index, peers_save-some,
  get_addresses-saved_index, get_elem?-map_eq,
}
use dagon_fs.Peers.Transfer.Reload.{peers_load-heaps, peers_store-addresses, peers_load-peers_store}

module _ (mpi : Mpi) (laws : IsMpi mpi) (block_size source inode file_size : ℕ) (buffer : List Byte)
    (enough : number_of_blocks block_size file_size * block_size ≤ length buffer)
    (wide : 8 ≤ block_size)
    (narrow : number_of_blocks block_size file_size * block_size < 2147483648)
    (same : peer_number_of_blocks block_size file_size ≡ number_of_blocks block_size file_size)
    (peers : List Peer) (some_peer : 0 < length peers) where
  small : number_of_blocks block_size file_size * block_size < 4294967296
  small = omega (arith, narrow)

  abbrev n : ℕ
  n = number_of_blocks block_size file_size

  abbrev stored : List (List Address) × List Peer
  stored = peers_store mpi block_size (length peers) 0 n buffer peers

  announced : map length stored.0 ≡ map (λ t. t * 1) (shares n (length peers) 0 (length peers))
  announced =
      peers_store-addresses mpi laws block_size (length peers) inode file_size buffer enough wide
        small 0 peers

  length-announced : length (flatten stored.0) ≡ n
  length-announced =
      length-flatten stored.0
      ∙ ap sum announced
      ∙ sum-map-mul 1 (shares n (length peers) 0 (length peers))
      ∙ rw (mul-one, sum-shares_all n (length peers) some_peer) refl

  -- The addresses that every process receives.
  gathered :
      let counts = part_counts n (length peers) pointer_size 0 (length peers) in
      mpi.allgatherv Address pointer_size stored.0 counts (displacements 0 counts)
      ≡ flatten stored.0
  gathered =
      laws.allgatherv_lem Address pointer_size stored.0 _ _
      ∙ gatherv-shares mpi laws pointer_size 1 n (length peers) stored.0 (omega arith) some_peer
          (small_pointers mpi laws block_size (length peers) inode file_size buffer enough wide
            small)
          announced

  -- The bytes that the reader receives.
  regathered :
      let counts = part_counts n (length peers) block_size 0 (length peers) in
      mpi.gatherv Byte byte_size
        (slices block_size n (length peers) buffer 0 (length peers))
        counts
        (displacements 0 counts)
      ≡ take (n * block_size) buffer
  regathered =
      let one : block_size * byte_size ≡ block_size = omega arith in
      rw one at (
        gatherv-shares mpi laws byte_size block_size n (length peers)
          (slices block_size n (length peers) buffer 0 (length peers)) (omega arith) some_peer
          (rw one small)
          (lengths-slices block_size n (length peers) buffer 0 (length peers) (omega arith) enough))
      ∙ flatten-slices block_size n (length peers) buffer 0 (length peers)
      ∙ rw (sum-shares_all n (length peers) some_peer, first_block-zero, zero-mul) refl

  peers_write-stored :
      peers_write mpi block_size source inode file_size buffer peers
      ≡ peers_save block_size (length peers) source 0 inode file_size (flatten stored.0) stored.1
  unfolding peers_write
  peers_write-stored =
      rw (same, fits_int_lem n block_size wide narrow, le→leb _ _ enough, if◌then◌else◌, gathered)
        refl

  -- What the memories give back.
  reloaded_all :
      (qs : List Peer)
      → map heap_of qs ≡ map heap_of stored.1
      → length qs ≡ length peers
      → peers_load mpi block_size (length qs) 0 n (flatten stored.0) qs
        ≡ some (slices block_size n (length peers) buffer 0 (length peers))
  reloaded_all qs heaps world =
      ap (λ w. peers_load mpi block_size w 0 n (flatten stored.0) qs) world
      ∙ peers_load-heaps mpi block_size (length peers) 0 n (flatten stored.0) stored.1 qs heaps
      ∙ peers_load-peers_store mpi laws block_size (length peers) inode file_size buffer enough wide
          small 0 peers (flatten stored.0) (omega arith) length-announced (rw first_block-zero refl)

  abbrev new_index : Blocks → Blocks
  new_index = saved_index block_size (length peers) source inode file_size (flatten stored.0)

  get_addresses-new_index :
      (bs : Blocks)
      → get_addresses n (get_data_block_list_of_inode inode (new_index bs))
        ≡ some (flatten stored.0)
  get_addresses-new_index bs =
      subst
        (λ t.
          get_addresses t (get_data_block_list_of_inode inode (new_index bs))
          ≡ some (flatten stored.0))
        same
        (get_addresses-saved_index block_size (length peers) source inode file_size
          (flatten stored.0) bs (length-announced ∙ sym same))

  peers_read-saved :
      (req_size reader : ℕ) (qs : List Peer) (root : Peer)
      → 0 < file_size
      → blocks_for_request block_size file_size req_size ≡ n
      → length qs ≡ length peers
      → get_elem? qs reader ≡ some root
      → (bs : Blocks) → index_of root ≡ new_index bs
      → map heap_of qs ≡ map heap_of stored.1
      → peers_read mpi block_size reader inode file_size req_size qs
        ≡ some (some (take (peer_number_of_blocks block_size file_size * block_size) buffer))
  unfolding peers_read
  peers_read-saved req_size reader qs root some_bytes whole world found bs index heaps =
      let nonzero : (file_size == 0) ≡ false = ground arith in
      rw
        (
          nonzero,
          if◌then◌else◌,
          whole,
          fits_int_lem n block_size wide narrow,
          found,
          ◌>>=◌,
          index,
          get_addresses-new_index bs,
          reloaded_all qs heaps world,
          world,
          same,
        )
        (ap (λ t. some (some t)) regathered)

length-peers_store :
    (mpi : Mpi) (block_size world rank n : ℕ) (buffer : List Byte) (peers : List Peer)
    → length (peers_store mpi block_size world rank n buffer peers).1 ≡ length peers
unfolding peers_store
length-peers_store mpi b world rank n buffer [] = refl
length-peers_store mpi b world rank n buffer (p ∷ peers) =
    ap suc (length-peers_store mpi b world (rank + 1) n buffer peers)

-- With blocks of at least 8 bytes, a file of more than 0 bytes that fits with one block more in
-- 2 GiB and that has its inode at every process, and a buffer of the source that holds all blocks
-- of the file: the write succeeds, and a read of the whole file or of more by any of the processes
-- gives that process the bytes of those blocks.
pub peers_read-peers_write :
    (mpi : Mpi)
    → IsMpi mpi
    → (block_size source reader inode file_size req_size : ℕ) (buffer : List Byte)
      (peers : List Peer)
    → 8 ≤ block_size
    → 0 < file_size
    → file_size ≤ req_size
    → file_size + block_size ≤ 2147483648
    → peer_number_of_blocks block_size file_size * block_size ≤ length buffer
    → HaveInode inode peers
    → reader < length peers
    → (peers' : List Peer) × (peers_write mpi block_size source inode file_size buffer peers
        ≡ some peers')
      × (peers_read mpi block_size reader inode file_size req_size peers'
          ≡ some (some (take (peer_number_of_blocks block_size file_size * block_size) buffer)))
unfolding peer_number_of_blocks
peers_read-peers_write mpi laws b source reader inode size req buffer peers wide some_bytes all fits
      enough here member =
    let same : peer_number_of_blocks b size ≡ number_of_blocks b size =
      sym (number_of_blocks-ceil_div b size (omega arith) fits) in
    let narrow : number_of_blocks b size * b < 2147483648 =
      omega (arith, number_of_blocks_bounds b size (omega arith) fits) in
    let enough' : number_of_blocks b size * b ≤ length buffer = rw (← same) enough in
    let some_peer : 0 < length peers = omega arith in
    let done =
      stored mpi laws b source inode size buffer enough' wide narrow same peers some_peer in
    let (qs, saved, heaps, indexes) =
      peers_save-some b (length peers) source inode size (flatten done.0) 0 done.1 (
        HaveInode-stored mpi b (length peers) inode 0 (number_of_blocks b size) buffer peers
          here) in
    let world : length qs ≡ length peers =
      sym (length-map heap_of qs)
      ∙ ap length heaps
      ∙ length-map heap_of done.1
      ∙ length-peers_store mpi b (length peers) 0 (number_of_blocks b size) buffer peers in
    let (root, found) = get_elem?-inside qs reader (omega arith) in
    let (p, before, index) = get_elem?-map_eq index_of _ qs done.1 reader root indexes found in
    (
      qs,
      peers_write-stored mpi laws b source inode size buffer enough' wide narrow same peers
            some_peer
          ∙ saved,
      peers_read-saved mpi laws b source inode size buffer enough' wide narrow same peers some_peer
          req reader qs root some_bytes (blocks_for_request-whole b size (omega arith) fits req all)
          world found (index_of p) index heaps,
    )
