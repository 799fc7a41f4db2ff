-- ===== src/Peers/Files/Noted.antt =====
-- What each process of the peer-to-peer program has of an inode after a write.
use dagon_fs.Prelude.{
  tested, ℕ, zero, suc, ◌+◌, ◌*◌, ◌≡◌, refl, ap, sym, subst, ◌∙◌, false, some, List, [], ◌∷◌,
  length, get_elem?, get_elem?-lt, get_elem?-set_self, leb, Bool-cases, inl, inr, ◌==◌,
  if◌then◌else◌, >>=-eq-some, some-injective,
}
use native.Mathlib.Nat.{zero-add}
use dagon_fs.Blocks.{Address}
use dagon_fs.Cluster.{fits_int, Byte, pointer_size, part_counts, displacements}
use dagon_fs.Cluster.Collectives.{Mpi}
use dagon_fs.Nodes.{INode, attr_of, get_inode}
use dagon_fs.FileSystem.{}
use dagon_fs.FileSystem.Files.{}
use dagon_fs.Peers.{Peer}
use dagon_fs.Peers.Transfer.{
  peer_number_of_blocks, peers_write, peer_save, peers_store, peer_store, note_size,
}
use dagon_fs.Peers.Transfer.Saved.{}
use dagon_fs.Peers.Transfer.ReadBack.{}
use dagon_fs.Peers.Transfer.Sync.{peers_save-at}
use dagon_fs.Peers.Transfer.Reload.{}
use dagon_fs.Peers.Handlers.{}
use dagon_fs.Peers.Files.{}

-- A process other than the source keeps the class of its inode and notes the size.
pub peer_save-noted :
    (b world source rank inode size : ℕ) (addresses : List Address) (p q : Peer) (x : INode)
    → peer_save b world source rank inode size addresses p ≡ some q
    → (rank == source) ≡ false
    → get_inode inode p.fs.nodes ≡ some x
    → (y : INode) × (get_inode inode q.fs.nodes ≡ some y)
      × (y.kind ≡ x.kind)
      × ((attr_of y).st_size ≡ size)
unfolding peer_save note_size
peer_save-noted b world source rank inode size addresses p q x e other found =
    let (z, here, done) =
      >>=-eq-some (get_inode inode p.fs.nodes) _ (rw (other, if◌then◌else◌) at e) in
    let same : z ≡ x = some-injective _ _ (sym here ∙ found) in
    subst
      (λ t.
        (y : INode) × (get_inode inode t.fs.nodes ≡ some y)
        × (y.kind ≡ x.kind)
        × ((attr_of y).st_size ≡ size))
      (some-injective _ _ done)
      (
        _,
        get_elem?-set_self p.fs.nodes.inodes inode _ (get_elem?-lt p.fs.nodes.inodes inode z here),
        ap (λ t. t.kind) same,
        refl,
      )

peers_store-nodes :
    (mpi : Mpi) (b world rank n : ℕ) (buffer : List Byte) (ps : List Peer) (r : ℕ) (p : Peer)
    → get_elem? ps r ≡ some p
    → (q : Peer) × (get_elem? (peers_store mpi b world rank n buffer ps).1 r ≡ some q)
      × (q.fs.nodes ≡ p.fs.nodes)
unfolding peers_store peer_store
peers_store-nodes mpi b world rank n buffer [] r p found = cc
peers_store-nodes mpi b world rank n buffer (z ∷ ps) zero p found =
    (_, refl, ap (λ t. t.fs.nodes) (some-injective _ _ found))
peers_store-nodes mpi b world rank n buffer (z ∷ ps) (suc r) p found =
    peers_store-nodes mpi b world (rank + 1) n buffer ps r p found

-- What each process has after a write is its own save.
pub peers_write-at :
    (mpi : Mpi) (b source inode size : ℕ) (buffer : List Byte) (ps qs : List Peer) (r : ℕ)
    (p : Peer)
    → peers_write mpi b source inode size buffer ps ≡ some qs
    → get_elem? ps r ≡ some p
    → (q : Peer) × (s : Peer) × (addresses : List Address) × (get_elem? qs r ≡ some q)
      × (s.fs.nodes ≡ p.fs.nodes)
      × (peer_save b (length ps) source r inode size addresses s ≡ some q)
unfolding peers_write
peers_write-at mpi b source inode size buffer ps qs r p e at_p =
    let n = peer_number_of_blocks b size in
    let counts = part_counts n (length ps) pointer_size 0 (length ps) in
    let stored = peers_store mpi b (length ps) 0 n buffer ps in
    let addresses = mpi.allgatherv Address pointer_size stored.0 counts (displacements 0 counts) in
    let (s, at_s, nodes) = peers_store-nodes mpi b (length ps) 0 n buffer ps r p at_p in
    let narrow = tested (fits_int n b) _ qs e in
    elim (Bool-cases (leb (n * b) (length buffer))) [
      | inl holds ↦
          let saved = rw (narrow, holds, if◌then◌else◌) at e in
          let (q, there, done) =
            peers_save-at b (length ps) source inode size addresses 0 stored.1 qs r s saved at_s in
          (q, s, addresses, there, nodes, rw zero-add at done)
      | inr short ↦ cc (rw (narrow, short, if◌then◌else◌) at e)
    ]
