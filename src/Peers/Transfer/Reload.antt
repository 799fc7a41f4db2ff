-- ===== src/Peers/Transfer/Reload.antt =====
-- What the processes load after they have stored the blocks of a write.
use native.Mathlib.Nat.{mul-one}
use dagon_fs.Prelude.{
  ℕ, ◌+◌, ◌*◌, ◌≤◌, ◌<◌, ◌≡◌, refl, ap₂, sym, ◌∙◌, some, List, [], ◌∷◌, ◌++◌, map, flatten, arith,
  length, drop, drop-append_left, drop_add,
}
use dagon_fs.Blocks.{Address}
use dagon_fs.Cluster.{Byte, effective_blocks, number_of_blocks}
use dagon_fs.Cluster.Collectives.{Mpi, IsMpi}
use dagon_fs.Cluster.Partition.{shares, first_block, first_block-suc}
use dagon_fs.Cluster.Transfer.{}
use dagon_fs.Cluster.Memory.{length-store_blocks}
use dagon_fs.Cluster.RoundTrip.{slice, slices, reloaded, returned}
use dagon_fs.Cluster.Size.{}
use dagon_fs.Peers.{Peer}
use dagon_fs.Peers.Transfer.{peer_store, peers_store, peer_load, peers_load}
use dagon_fs.Peers.Transfer.Saved.{heap_of}

-- A load reads the memories only.
pub peers_load-heaps :
    (mpi : Mpi) (b world rank n : ℕ) (addresses : List Address) (ps qs : List Peer)
    → map heap_of qs ≡ map heap_of ps
    → peers_load mpi b world rank n addresses qs ≡ peers_load mpi b world rank n addresses ps
unfolding peers_load peer_load
peers_load-heaps mpi b world rank n addresses [] [] e = refl
peers_load-heaps mpi b world rank n addresses [] (q ∷ qs) e = cc
peers_load-heaps mpi b world rank n addresses (p ∷ ps) [] e = cc
peers_load-heaps mpi b world rank n addresses (p ∷ ps) (q ∷ qs) e =
    let head : heap_of q ≡ heap_of p = cc in
    let rest = peers_load-heaps mpi b world (rank + 1) n addresses ps qs (cc) in
    rw (head, rest) refl

module _ (mpi : Mpi) (laws : IsMpi mpi) (block_size world inode file_size : ℕ) (buffer : List Byte)
    (enough : number_of_blocks block_size file_size * block_size ≤ length buffer)
    (wide : 8 ≤ block_size)
    (small : number_of_blocks block_size file_size * block_size < 4294967296) where
  abbrev blocks : ℕ
  blocks = number_of_blocks block_size file_size

  -- What process `r` stores, and the addresses that it announces.
  peer_store-addresses :
      (r : ℕ) (p : Peer)
      → length (peer_store mpi block_size world r blocks buffer p).0
        ≡ effective_blocks blocks world r
  unfolding peer_store
  peer_store-addresses r p =
      length-store_blocks block_size 0 (effective_blocks blocks world r) _ (heap_of p)

  pub peers_store-addresses :
      (r : ℕ) (peers : List Peer)
      → map length (peers_store mpi block_size world r blocks buffer peers).0
        ≡ map (λ t. t * 1) (shares blocks world r (length peers))
  unfolding peers_store
  peers_store-addresses r [] = refl
  peers_store-addresses r (p ∷ peers) =
      ap₂ ◌∷◌ (peer_store-addresses r p ∙ sym (mul-one _)) (peers_store-addresses (r + 1) peers)

  peer_load-peer_store :
      (r : ℕ) (p : Peer) (rest addresses : List Address)
      → r < world
      → length addresses ≡ blocks
      → let done = peer_store mpi block_size world r blocks buffer p in
        drop (first_block blocks world r) addresses ≡ done.0 ++ rest
        → peer_load mpi block_size world r blocks addresses done.1
          ≡ some (slice block_size blocks world buffer r)
  unfolding peer_load peer_store
  peer_load-peer_store r p rest addresses h len e =
      rw
        (
          returned mpi laws block_size world inode file_size buffer enough wide small r _ rest
              addresses h len (peer_store-addresses r p) e,
          peer_load,
        )
        (reloaded mpi laws block_size world inode file_size buffer enough wide small r (heap_of p)
          h)

  pub peers_load-peers_store :
      (r : ℕ) (peers : List Peer) (addresses : List Address)
      → r + length peers ≤ world
      → length addresses ≡ blocks
      → let done = peers_store mpi block_size world r blocks buffer peers in
        drop (first_block blocks world r) addresses ≡ flatten done.0
        → peers_load mpi block_size world r blocks addresses done.1
          ≡ some (slices block_size blocks world buffer r (length peers))
  unfolding peers_load peers_store flatten
  peers_load-peers_store r [] addresses h len e = refl
  peers_load-peers_store r (p ∷ peers) addresses h len e =
      let done = peers_store mpi block_size world (r + 1) blocks buffer peers in
      let own = (peer_store mpi block_size world r blocks buffer p).0 in
      let next : drop (first_block blocks world (r + 1)) addresses ≡ flatten done.0 =
        rw (first_block-suc, drop_add (first_block blocks world r), e)
          (drop-append_left own (flatten done.0) _ (sym (peer_store-addresses r p))) in
      ground (
        arith,
        peer_load-peer_store r p (flatten done.0) addresses (omega arith) len e,
        peers_load-peers_store (r + 1) peers addresses (omega arith) len next,
      )
