-- ===== src/Peers/Files/Handled.antt =====
-- `FuseOpen` and `FuseFlush` of the peer-to-peer program at a file that is there.
use dagon_fs.Prelude.{
  ℕ, ◌≡◌, refl, ap, ◌∙◌, Bool, true, false, Option, none, some, List, arith, get_elem?,
  get_elem?-lt, set, get_elem?-set_self, leb, if◌then◌else◌, ◌>>=◌,
}
use native.Mathlib.Nat.{}
use dagon_fs.Blocks.{}
use dagon_fs.Cluster.{Byte}
use dagon_fs.Cluster.Collectives.{Mpi}
use dagon_fs.Nodes.{INode, Kind, file, dir, symlink, special, attr_of, get_inode, number_of_inodes}
use dagon_fs.FileSystem.{success, err, opened, Reply, reply}
use dagon_fs.FileSystem.Files.{}
use dagon_fs.Peers.{Peer, send_write_request, send_read_request}
use dagon_fs.Peers.Transfer.{peers_write, peers_read}
use dagon_fs.Peers.Transfer.Saved.{}
use dagon_fs.Peers.Transfer.ReadBack.{}
use dagon_fs.Peers.Transfer.Sync.{}
use dagon_fs.Peers.Transfer.Reload.{}
use dagon_fs.Peers.Handlers.{with_fs, peer_answer}
use dagon_fs.Peers.Files.{
  at_peer, at_inode, keep_kind, peer_open, peer_open_kind, peer_flush, peer_flush_kind,
}

-- `file_buf` of a file.
abbrev pub buffer_of : Kind → Option (List Byte)
buffer_of (file m_buf waiting) = m_buf
buffer_of (dir children) = none
buffer_of (symlink link) = none
buffer_of (special type) = none

-- The bytes that a process keeps of a file.
abbrev pub buffer_at : (rank ino : ℕ) → List Peer → Option (List Byte)
buffer_at rank ino peers =
    get_elem? peers rank >>= λ p. get_inode ino p.fs.nodes >>= λ x. buffer_of x.kind

at_peer-found :
    (rank : ℕ) (k : Peer → Option Peer) (peers : List Peer) (p q : Peer)
    → get_elem? peers rank ≡ some p
    → k p ≡ some q
    → at_peer rank k peers ≡ some (set peers rank q)
at_peer-found rank k peers p q found done = rw (found, ◌>>=◌, done) refl

at_inode-found :
    (mpi : Mpi) (b rank ino : ℕ) (k : INode → List Peer → Option (List Peer)) (peers : List Peer)
    (p : Peer) (x : INode)
    → get_elem? peers rank ≡ some p
    → get_inode ino p.fs.nodes ≡ some x
    → at_inode mpi b rank ino k peers ≡ k x peers
at_inode-found mpi b rank ino k peers p x found at_x =
    let inside = get_elem?-lt p.fs.nodes.inodes ino x at_x in
    let below : leb (number_of_inodes p.fs.nodes) ino ≡ false = ground arith in
    rw (found, ◌>>=◌, below, if◌then◌else◌, at_x) refl

-- The end of `FuseOpen`.
buffer_at-set :
    (rank ino : ℕ) (peers : List Peer) (p : Peer) (x : INode) (b : List Byte) (waiting : Bool)
    (r : Reply)
    → get_elem? peers rank ≡ some p
    → get_inode ino p.fs.nodes ≡ some x
    → buffer_at rank ino (
        set peers rank (
          with_fs
            (keep_kind ino x (file (some b) waiting) p)
            (reply r (keep_kind ino x (file (some b) waiting) p).fs)))
      ≡ some b
buffer_at-set rank ino peers p x b waiting r found at_x =
    rw
      (
        get_elem?-set_self peers rank _ (get_elem?-lt peers rank p found),
        ◌>>=◌,
        get_elem?-set_self p.fs.nodes.inodes ino _ (get_elem?-lt p.fs.nodes.inodes ino x at_x),
      )
      refl

module _ (mpi : Mpi) (b rank ino : ℕ) (peers : List Peer) (p : Peer) (x : INode)
    (found : get_elem? peers rank ≡ some p) (at_x : get_inode ino p.fs.nodes ≡ some x) where
  -- `FuseFlush` of a file with bytes that wait.
  pub peer_flush-waiting :
      (buffer : List Byte) (saved : List Peer) (q : Peer)
      → x.kind ≡ file (some buffer) true
      → peers_write mpi b rank ino
          (attr_of x).st_size
          buffer
          (set peers rank (send_write_request p))
        ≡ some saved
      → get_elem? saved rank ≡ some q
      → peer_flush mpi b rank ino peers
        ≡ some (
            set saved rank (
              with_fs
                (keep_kind ino x (file none false) q)
                (reply (err success) (keep_kind ino x (file none false) q).fs)))
  unfolding peer_flush peer_flush_kind
  peer_flush-waiting buffer saved q kind written there =
      at_inode-found mpi b rank ino (λ z. peer_flush_kind mpi b rank ino z z.kind) peers p x found
        at_x
      ∙ ap (λ k. peer_flush_kind mpi b rank ino x k peers) kind
      ∙ rw
          (
            if◌then◌else◌,
            at_peer-found rank (λ z. some (send_write_request z)) peers p _ found refl,
            ◌>>=◌,
            written,
          )
          (at_peer-found rank (λ z. peer_answer (err success) (keep_kind ino x (file none false) z))
            saved q _ there refl)

  -- `FuseOpen` of a file.
  pub peer_open-loads :
      (old : Option (List Byte)) (waiting : Bool) (buffer : List Byte)
      → x.kind ≡ file old waiting
      → peers_read mpi b rank ino
          (attr_of x).st_size
          (attr_of x).st_size
          (set peers rank (send_read_request p))
        ≡ some (some buffer)
      → (peers' : List Peer) × (peer_open mpi b rank ino false peers ≡ some peers')
        × (buffer_at rank ino peers' ≡ some buffer)
  unfolding peer_open peer_open_kind
  peer_open-loads old waiting buffer kind loaded =
      let asked = set peers rank (send_read_request p) in
      let there : get_elem? asked rank ≡ some (send_read_request p) =
        get_elem?-set_self peers rank _ (get_elem?-lt peers rank p found) in
      (
        _,
        at_inode-found mpi b rank ino (λ z. peer_open_kind mpi b rank ino false z z.kind) peers p x
              found at_x
            ∙ ap (λ k. peer_open_kind mpi b rank ino false x k peers) kind
            ∙ rw
                (
                  if◌then◌else◌,
                  at_peer-found rank (λ z. some (send_read_request z)) peers p _ found refl,
                  ◌>>=◌,
                  loaded,
                )
                (at_peer-found rank
                  (λ z. peer_answer opened (keep_kind ino x (file (some buffer) waiting) z)) asked _
                  _ there refl),
        buffer_at-set rank ino asked _ x buffer waiting opened there at_x,
      )
