-- ===== src/Peers/Transfer/Sync.antt =====
-- After a write of the peer-to-peer program the processes agree.
use native.Mathlib.Nat.{add-zero}
use dagon_fs.Prelude.{
  ℕ, zero, suc, ◌+◌, ◌*◌, ◌≤◌, ◌<◌, ◌≡◌, true, ◌≢◌, refl, ap, ap₂, sym, subst, ◌∙◌, Option, some,
  List, [], ◌∷◌, arith, length, get_elem?, get_elem?-lt, get_elem?-set_self, le→leb, ◌==◌, false,
  Bool-cases, inl, inr, if◌then◌else◌, >>=-eq-some, some-injective,
}
use dagon_fs.Blocks.{Address, get_data_block_list_of_inode}
use dagon_fs.Cluster.{Byte, pointer_size, part_counts, displacements, number_of_blocks, fits_int}
use dagon_fs.Cluster.Size.{number_of_blocks-ceil_div, number_of_blocks_bounds, fits_int_lem}
use dagon_fs.Cluster.Collectives.{Mpi}
use dagon_fs.Nodes.{INode, attr_of, get_inode}
use dagon_fs.Peers.{Peer}
use dagon_fs.Peers.Transfer.{
  peer_number_of_blocks, peer_store, peers_store, peer_save, peers_save, note_size, peers_write,
}
use dagon_fs.Peers.Transfer.Saved.{
  HaveInode, HaveInode-stored, index_of, saved_index, peers_save-some,
}

-- What a process knows of the size of a file.
abbrev pub Knows : (inode file_size : ℕ) → Peer → Type 0
Knows inode file_size q =
    (x : INode) × (get_inode inode q.fs.nodes ≡ some x)
    × ((attr_of x).st_size ≡ file_size)
    × ((attr_of x).st_blocks ≡ length (get_data_block_list_of_inode inode (index_of q)))

module _ (block_size world source inode file_size : ℕ) (addresses : List Address) where
  -- `peer_save` of process `rank`.
  abbrev save_at : ℕ → Peer → Option Peer
  save_at rank p = peer_save block_size world source rank inode file_size addresses p

  peers_save-cons :
      (rank : ℕ) (x : Peer) (ps qs : List Peer)
      → peers_save block_size world source rank inode file_size addresses (x ∷ ps) ≡ some qs
      → (y : Peer) × (ys : List Peer) × (save_at rank x ≡ some y)
        × (peers_save block_size world source (rank + 1) inode file_size addresses ps ≡ some ys)
        × (y ∷ ys ≡ qs)
  unfolding peers_save
  peers_save-cons rank x ps qs saved =
      let (y, first, later) = >>=-eq-some (save_at rank x) _ saved in
      let (ys, rest, whole) =
        >>=-eq-some (peers_save block_size world source (rank + 1) inode file_size addresses ps) _
          later in
      (y, ys, first, rest, some-injective _ _ whole)

  pub peers_save-at :
      (rank : ℕ) (ps qs : List Peer) (r : ℕ) (p : Peer)
      → peers_save block_size world source rank inode file_size addresses ps ≡ some qs
      → get_elem? ps r ≡ some p
      → (q : Peer) × (get_elem? qs r ≡ some q) × (save_at (rank + r) p ≡ some q)
  peers_save-at rank [] qs r p saved found = cc
  peers_save-at rank (x ∷ ps) qs zero p saved found =
      let (y, ys, first, rest, whole) = peers_save-cons rank x ps qs saved in
      (
        y,
        ap (λ l. get_elem? l 0) (sym whole),
        ap₂ save_at (add-zero rank) (sym (some-injective _ _ found)) ∙ first,
      )
  peers_save-at rank (x ∷ ps) qs (suc r) p saved found =
      let (y, ys, first, rest, whole) = peers_save-cons rank x ps qs saved in
      let (q, there, done) = peers_save-at (rank + 1) ps ys r p rest found in
      let next : rank + suc r ≡ rank + 1 + r = omega arith in
      (q, ap (λ l. get_elem? l (suc r)) (sym whole) ∙ there, ap (λ n. save_at n p) next ∙ done)

  save_at-index :
      (rank : ℕ) (p q : Peer)
      → save_at rank p ≡ some q
      → index_of q ≡ saved_index block_size world source inode file_size addresses (index_of p)
  unfolding peer_save note_size
  save_at-index rank p q saved = elim (Bool-cases (rank == source)) [
    | inl own ↦ ap index_of (sym (some-injective _ _ (rw own at saved)))
    | inr other ↦
        let (x, found, done) =
          >>=-eq-some (get_inode inode p.fs.nodes) _ (rw (other, if◌then◌else◌) at saved) in
        ap index_of (sym (some-injective _ _ done))
  ]

  save_at-Knows :
      (rank : ℕ) (p q : Peer) → save_at rank p ≡ some q → rank ≢ source → Knows inode file_size q
  unfolding peer_save note_size
  save_at-Knows rank p q saved apart =
      let other : (rank == source) ≡ false = ground arith in
      let (x, found, done) =
        >>=-eq-some (get_inode inode p.fs.nodes) _ (rw (other, if◌then◌else◌) at saved) in
      subst (Knows inode file_size) (some-injective _ _ done) (
        _,
        get_elem?-set_self p.fs.nodes.inodes inode _ (get_elem?-lt p.fs.nodes.inodes inode x found),
        refl,
        refl,
      )

peers_store-at :
    (mpi : Mpi) (block_size world rank n : ℕ) (buffer : List Byte) (ps : List Peer) (r : ℕ)
    (p : Peer)
    → get_elem? ps r ≡ some p
    → (q : Peer) × (get_elem? (peers_store mpi block_size world rank n buffer ps).1 r ≡ some q)
      × (index_of q ≡ index_of p)
unfolding peers_store peer_store
peers_store-at mpi b world rank n buffer [] r p found = cc
peers_store-at mpi b world rank n buffer (x ∷ ps) zero p found =
    (_, refl, ap index_of (some-injective _ _ found))
peers_store-at mpi b world rank n buffer (x ∷ ps) (suc r) p found =
    peers_store-at mpi b world (rank + 1) n buffer ps r p found

peer_fits_int :
    (block_size file_size : ℕ)
    → 8 ≤ block_size
    → file_size + block_size ≤ 2147483648
    → fits_int (peer_number_of_blocks block_size file_size) block_size ≡ true
unfolding peer_number_of_blocks
peer_fits_int b size wide fits =
    let same : peer_number_of_blocks b size ≡ number_of_blocks b size =
      sym (number_of_blocks-ceil_div b size (omega arith) fits) in
    let narrow : number_of_blocks b size * b < 2147483648 =
      omega (arith, number_of_blocks_bounds b size (omega arith) fits) in
    ap (λ n. fits_int n b) same ∙ fits_int_lem (number_of_blocks b size) b wide narrow

-- With blocks of at least 8 bytes and a file that fits with one block more in 2 GiB: if the inode
-- exists at every process, and the buffer of the source holds all blocks of the file, a write
-- succeeds; two processes that have had the same index have the same index after
-- it, and each process other than the source knows the size of the file and the number of its
-- blocks.
pub peers_write-Knows :
    (mpi : Mpi) (block_size source inode file_size : ℕ) (buffer : List Byte) (peers : List Peer)
    (r t : ℕ) (a b : Peer)
    → 8 ≤ block_size
    → file_size + block_size ≤ 2147483648
    → peer_number_of_blocks block_size file_size * block_size ≤ length buffer
    → HaveInode inode peers
    → get_elem? peers r ≡ some a
    → get_elem? peers t ≡ some b
    → index_of a ≡ index_of b
    → r ≢ source
    → (peers' : List Peer) × (a' : Peer) × (b' : Peer) × (peers_write mpi block_size source inode
          file_size buffer peers
        ≡ some peers')
      × (get_elem? peers' r ≡ some a')
      × (get_elem? peers' t ≡ some b')
      × (index_of a' ≡ index_of b')
      × Knows inode file_size a'
unfolding peers_write
peers_write-Knows mpi block_size source inode file_size buffer peers r t a b wide fits enough here
      at_r at_t same apart =
    let world = length peers in
    let n = peer_number_of_blocks block_size file_size in
    let stored = peers_store mpi block_size world 0 n buffer peers in
    let counts = part_counts n world pointer_size 0 world in
    let addresses = mpi.allgatherv Address pointer_size stored.0 counts (displacements 0 counts) in
    let (qs, saved, heaps, indexes) =
      peers_save-some block_size world source inode file_size addresses 0 stored.1
        (HaveInode-stored mpi block_size world inode 0 n buffer peers here) in
    let (p, stored_r, index_r) = peers_store-at mpi block_size world 0 n buffer peers r a at_r in
    let (q, stored_t, index_t) = peers_store-at mpi block_size world 0 n buffer peers t b at_t in
    let (a', there_r, saved_r) =
      peers_save-at block_size world source inode file_size addresses 0 stored.1 qs r p saved
        stored_r in
    let (b', there_t, saved_t) =
      peers_save-at block_size world source inode file_size addresses 0 stored.1 qs t q saved
        stored_t in
    (
      qs,
      a',
      b',
      rw (peer_fits_int block_size file_size wide fits, le→leb _ _ enough, if◌then◌else◌) saved,
      there_r,
      there_t,
      save_at-index block_size world source inode file_size addresses (0 + r) p a' saved_r
          ∙ ap (saved_index block_size world source inode file_size addresses)
              (index_r ∙ same ∙ sym index_t)
          ∙ sym (
              save_at-index block_size world source inode file_size addresses (0 + t) q b' saved_t),
      save_at-Knows block_size world source inode file_size addresses (0 + r) p a' saved_r
          (omega arith),
    )
