-- ===== src/Peers/Files/Asked.antt =====
-- The processes of the peer-to-peer program while one of them asks for a transfer: what the others
-- keep, and what a read depends on.
use dagon_fs.Prelude.{
  ℕ, zero, suc, ◌<◌, ◌≡◌, ◌≢◌, refl, ap, ap₂, sym, subst, ◌∙◌, none, some, List, [], ◌∷◌, map,
  length, length-set, get_elem?, get_elem?-lt, set, get_elem?-set_self, get_elem?-set_ne,
  Option-cases, inl, inr, ◌==◌, if◌then◌else◌, ◌>>=◌, some-injective,
}
use native.Mathlib.Nat.{}
use dagon_fs.Blocks.{Address, get_data_block_list_of_inode, get_addresses}
use dagon_fs.Cluster.{fits_int, Byte, byte_size, part_counts, displacements, blocks_for_request}
use dagon_fs.Cluster.Collectives.{Mpi}
use dagon_fs.Nodes.{number_of_inodes}
use dagon_fs.FileSystem.{}
use dagon_fs.FileSystem.Files.{}
use dagon_fs.Peers.{Peer, send_read_request}
use dagon_fs.Peers.Transfer.{peers_read, peers_load}
use dagon_fs.Peers.Transfer.Saved.{HaveInode, has_inode, heap_of, index_of}
use dagon_fs.Peers.Transfer.ReadBack.{}
use dagon_fs.Peers.Transfer.Sync.{}
use dagon_fs.Peers.Transfer.Reload.{peers_load-heaps}
use dagon_fs.Peers.Handlers.{}
use dagon_fs.Peers.Files.{}

-- What is put in the place of a process is like it in some respect.
map-set :
    {B : Type 0} (f : Peer → B) (xs : List Peer) (i : ℕ) (v w : Peer)
    → get_elem? xs i ≡ some w
    → f v ≡ f w
    → map f (set xs i v) ≡ map f xs
map-set f [] i v w found same = refl
map-set f (x ∷ xs) zero v w found same =
    ap (λ t. t ∷ map f xs) (same ∙ ap f (sym (some-injective _ _ found)))
map-set f (x ∷ xs) (suc i) v w found same = ap (λ t. f x ∷ t) (map-set f xs i v w found same)

pub HaveInode-set :
    (inode : ℕ) (ps : List Peer) (i : ℕ) (v w : Peer)
    → get_elem? ps i ≡ some w
    → v.fs.nodes ≡ w.fs.nodes
    → HaveInode inode ps
    → HaveInode inode (set ps i v)
HaveInode-set inode [] i v w found same h = h
HaveInode-set inode (p ∷ ps) zero v w found same (has_inode _ _ here more) =
    has_inode v ps
      (subst (λ ns. inode < number_of_inodes ns)
        (ap (λ q. q.fs.nodes) (some-injective _ _ found) ∙ sym same) here)
      more
HaveInode-set inode (p ∷ ps) (suc i) v w found same (has_inode _ _ here more) =
    has_inode p (set ps i v) here (HaveInode-set inode ps i v w found same more)

-- A read depends on the memories and the indexes only.
peers_read-same :
    (mpi : Mpi) (b reader inode size req : ℕ) (ps qs : List Peer) (p q : Peer)
    → get_elem? ps reader ≡ some p
    → get_elem? qs reader ≡ some q
    → index_of q ≡ index_of p
    → map heap_of qs ≡ map heap_of ps
    → length qs ≡ length ps
    → peers_read mpi b reader inode size req qs ≡ peers_read mpi b reader inode size req ps
unfolding peers_read
peers_read-same mpi b reader inode size req ps qs p q at_p at_q index heaps len =
    let n = blocks_for_request b size req in
    let loads : (a : List Address)
        → peers_load mpi b (length qs) 0 n a qs ≡ peers_load mpi b (length ps) 0 n a ps =
      λ a.
        ap (λ w. peers_load mpi b w 0 n a qs) len
        ∙ peers_load-heaps mpi b (length ps) 0 n a ps qs heaps in
    elim (Option-cases (get_addresses n (get_data_block_list_of_inode inode (index_of p)))) [
      | inl missing ↦ rw (at_q, at_p, ◌>>=◌, index, missing) refl
      | inr (a, there) ↦
          rw (at_q, at_p, ◌>>=◌, index, there)
            (ap (λ k. if size == 0 then some none else if fits_int n b then k else none)
              (ap₂
                (λ w l. l >>= λ parts. some (
                  some (
                    mpi.gatherv Byte byte_size parts (part_counts n w b 0 w)
                      (displacements 0 (part_counts n w b 0 w)))))
                len (loads a)))
    ]

-- The processes after another one has put an answer in its place, and the reader has asked.
pub reads_again :
    (mpi : Mpi) (b writer reader ino size : ℕ) (saved : List Peer) (w w' r : Peer)
    → get_elem? saved writer ≡ some w
    → get_elem? saved reader ≡ some r
    → writer ≢ reader
    → heap_of w' ≡ heap_of w
    → peers_read mpi b reader ino size size (set (set saved writer w') reader (send_read_request r))
      ≡ peers_read mpi b reader ino size size saved
unfolding send_read_request
reads_again mpi b writer reader ino size saved w w' r at_w at_r apart heap =
    let after = set saved writer w' in
    let still : get_elem? after reader ≡ some r =
      get_elem?-set_ne saved writer reader w' apart ∙ at_r in
    peers_read-same mpi b reader ino size size saved (set after reader (send_read_request r)) r _
      at_r (get_elem?-set_self after reader _ (get_elem?-lt after reader r still)) refl
      (map-set heap_of after reader _ r still refl ∙ map-set heap_of saved writer w' w at_w heap)
      (length-set after reader _ ∙ length-set saved writer w')
