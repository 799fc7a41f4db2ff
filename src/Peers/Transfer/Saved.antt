-- ===== src/Peers/Transfer/Saved.antt =====
-- The end of a write of the peer-to-peer program: every process saves the addresses in its own
-- index and keeps its memory.
use dagon_fs.Prelude.{
  ℕ, zero, suc, ◌+◌, ◌<◌, ◌≡◌, refl, ap₂, some, List, [], ◌∷◌, map, length, get_elem?,
  get_elem?-inside, ◌==◌, Bool-cases, inl, inr, if◌then◌else◌, ◌>>=◌,
}
use dagon_fs.Blocks.{Address, Blocks, get_data_block_list_of_inode, get_addresses}
use dagon_fs.Cluster.{Heap, Byte}
use dagon_fs.Cluster.Collectives.{Mpi}
use dagon_fs.Cluster.Index.{get_addresses-set_addresses, grown-length, list-insert_self}
use dagon_fs.Nodes.{INode, attr_of, with_attr, set_inode_at, number_of_inodes}
use dagon_fs.FileSystem.{with_nodes}
use dagon_fs.Peers.{Peer}
use dagon_fs.Peers.Transfer.{
  peer_save_addresses, peer_save, peers_save, note_size, with_cluster, peer_store, peers_store,
  peer_number_of_blocks,
}

-- The inode exists at every process.
pub data HaveInode (inode : ℕ) : List Peer → Type 0 where
  no_peer : HaveInode inode []
  has_inode :
      (p : Peer) (peers : List Peer)
      → inode < number_of_inodes p.fs.nodes
      → HaveInode inode peers
      → HaveInode inode (p ∷ peers)

abbrev pub heap_of : Peer → Heap
heap_of p = p.fs.cluster.master_heap

abbrev pub index_of : Peer → Blocks
index_of p = p.fs.cluster.blocks

module _ (block_size world source inode file_size : ℕ) (addresses : List Address) where
  -- The new index of a process.
  abbrev pub saved_index : Blocks → Blocks
  saved_index =
      peer_save_addresses block_size world inode (peer_number_of_blocks block_size file_size)
        addresses

  abbrev saved : Peer → Peer
  saved p = with_cluster p (record p.fs.cluster { blocks = saved_index (index_of p) })

  abbrev noted : INode → Peer → Peer
  noted x p = record p {
    fs = with_nodes p.fs (
        set_inode_at inode
          (with_attr x (record (attr_of x) {
            st_size = file_size;
            st_blocks = length (get_data_block_list_of_inode inode (index_of p));
          }))
          p.fs.nodes);
  }

  peer_save-some :
      (rank : ℕ) (p : Peer)
      → inode < number_of_inodes p.fs.nodes
      → (q : Peer) × (peer_save block_size world source rank inode file_size addresses p ≡ some q)
        × (heap_of q ≡ heap_of p)
        × (index_of q ≡ saved_index (index_of p))
  unfolding peer_save note_size
  peer_save-some rank p here =
      let (x, found) = get_elem?-inside p.fs.nodes.inodes inode here in
      elim (Bool-cases (rank == source)) [
        | inl own ↦ (saved p, rw own refl, refl, refl)
        | inr other ↦ (noted x (saved p), rw (other, if◌then◌else◌, found) refl, refl, refl)
      ]

  -- If the inode exists at every process, they all save the addresses.
  pub peers_save-some :
      (rank : ℕ) (peers : List Peer)
      → HaveInode inode peers
      → (qs : List Peer) × (peers_save block_size world source rank inode file_size addresses peers
          ≡ some qs)
        × (map heap_of qs ≡ map heap_of peers)
        × (map index_of qs ≡ map (λ p. saved_index (index_of p)) peers)
  unfolding peers_save
  peers_save-some rank [] no_peer = ([], refl, refl, refl)
  peers_save-some rank (p ∷ peers) (has_inode _ _ here more) =
      let (q, saved, heap, index) = peer_save-some rank p here in
      let (qs, later, heaps, indexes) = peers_save-some (rank + 1) peers more in
      (q ∷ qs, rw (saved, ◌>>=◌, later) refl, ap₂ ◌∷◌ heap heaps, ap₂ ◌∷◌ index indexes)

  -- The first blocks of the inode have the addresses in the index that was saved.
  pub get_addresses-saved_index :
      (bs : Blocks)
      → length addresses ≡ peer_number_of_blocks block_size file_size
      → get_addresses
          (peer_number_of_blocks block_size file_size)
          (get_data_block_list_of_inode inode (saved_index bs))
        ≡ some addresses
  unfolding peer_save_addresses
  get_addresses-saved_index bs e =
      rw list-insert_self
        (get_addresses-set_addresses _ addresses _ e (grown-length block_size world inode _ _))

pub get_elem?-map_eq :
    {B : Type 0} (f : Peer → B) (g : Peer → B) (qs ps : List Peer) (r : ℕ) (q : Peer)
    → map f qs ≡ map g ps
    → get_elem? qs r ≡ some q
    → (p : Peer) × (get_elem? ps r ≡ some p) × (f q ≡ g p)
get_elem?-map_eq f g [] ps r q e found = cc
get_elem?-map_eq f g (x ∷ qs) [] r q e found = cc
get_elem?-map_eq f g (x ∷ qs) (p ∷ ps) zero q e found = (p, refl, cc)
get_elem?-map_eq f g (x ∷ qs) (p ∷ ps) (suc r) q e found = get_elem?-map_eq f g qs ps r q (cc) found

pub HaveInode-stored :
    (mpi : Mpi) (block_size world inode rank n : ℕ) (buffer : List Byte) (peers : List Peer)
    → HaveInode inode peers
    → HaveInode inode (peers_store mpi block_size world rank n buffer peers).1
unfolding peers_store peer_store
HaveInode-stored mpi b world inode rank n buffer [] h = h
HaveInode-stored mpi b world inode rank n buffer (p ∷ peers) (has_inode _ _ here more) =
    has_inode _ _ here (HaveInode-stored mpi b world inode (rank + 1) n buffer peers more)
