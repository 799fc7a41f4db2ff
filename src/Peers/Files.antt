-- ===== src/Peers/Files.antt =====
-- peer-to-peer/include/ramfs/FileSystem.cpp: `FuseOpen` and `FuseFlush` by one of the processes,
-- with the transfers that all of them take part in.
pub mod Asked
pub mod Noted
pub mod Handled
pub mod Storage
use dagon_fs.Prelude.{
  ℕ, Bool, false, Option, none, some, List, get_elem?, set, leb, if◌then◌else◌, ◌>>=◌,
}
use dagon_fs.Cluster.{}
use dagon_fs.Cluster.Collectives.{Mpi}
use dagon_fs.Nodes.{
  INode, Kind, file, dir, symlink, special, attr_of, with_attr, set_inode_at, get_inode,
  number_of_inodes,
}
use dagon_fs.FileSystem.{success, enoent, eperm, eisdir, err, opened, with_nodes}
use dagon_fs.FileSystem.Files.{with_kind}
use dagon_fs.Peers.{Peer, send_write_request, send_read_request}
use dagon_fs.Peers.Transfer.{peers_write, peers_read}
use dagon_fs.Peers.Handlers.{with_fs, peer_answer}

-- One of the processes.
abbrev pub at_peer : ℕ → (Peer → Option Peer) → List Peer → Option (List Peer)
at_peer rank k peers = get_elem? peers rank >>= λ p. k p >>= λ q. some (set peers rank q)

-- The inode of a process with its class changed.
abbrev pub keep_kind : (ino : ℕ) → INode → Kind → Peer → Peer
keep_kind ino x kind p =
    with_fs p (with_nodes p.fs (set_inode_at ino (with_kind x kind) p.fs.nodes))

module _ (mpi : Mpi) (block_size : ℕ) where
  -- `FuseOpen`, for each class of inode; `truncates` is `fi->flags & (O_WRONLY | O_TRUNC)`.
  unfoldable pub peer_open_kind :
      (rank ino : ℕ) → (truncates : Bool) → INode → Kind → List Peer → Option (List Peer)
  unfolding send_read_request peers_read
  peer_open_kind rank ino truncates x (dir children) peers =
      at_peer rank (peer_answer (err eisdir)) peers
  peer_open_kind rank ino truncates x (symlink link) peers =
      at_peer rank (peer_answer (err eperm)) peers
  peer_open_kind rank ino truncates x (special type) peers =
      at_peer rank (peer_answer (err eperm)) peers
  peer_open_kind rank ino truncates x (file m_buf waiting) peers =
      let a = attr_of x in
      let emptied =
        at_peer rank
          (λ p. peer_answer opened (
            with_fs p (
              with_nodes p.fs (
                set_inode_at ino (with_attr x (record a { st_size = 0; st_blocks = 0 }))
                  p.fs.nodes))))
          peers in
      let loaded = at_peer rank (λ p. some (send_read_request p)) peers >>= λ asked.
      peers_read mpi block_size rank ino a.st_size a.st_size asked >>= λ buffer.
      at_peer rank (λ p. peer_answer opened (keep_kind ino x (file buffer waiting) p)) asked in
      if truncates then emptied else loaded

  -- `FuseFlush`, for each class of inode: the pointer to the file is null where it is no file.
  unfoldable pub peer_flush_kind : (rank ino : ℕ) → INode → Kind → List Peer → Option (List Peer)
  unfolding send_write_request peers_write
  peer_flush_kind rank ino x (dir children) peers = none
  peer_flush_kind rank ino x (symlink link) peers = none
  peer_flush_kind rank ino x (special type) peers = none
  peer_flush_kind rank ino x (file none waiting) peers =
      at_peer rank (peer_answer (err success)) peers
  peer_flush_kind rank ino x (file (some b) waiting) peers =
      let written = at_peer rank (λ p. some (send_write_request p)) peers >>= λ asked.
      peers_write mpi block_size rank ino (attr_of x).st_size b asked >>= λ saved.
      at_peer rank (λ p. peer_answer (err success) (keep_kind ino x (file none false) p)) saved in
      let freed =
        at_peer rank (λ p. peer_answer (err success) (keep_kind ino x (file none waiting) p))
          peers in
      if waiting then written else freed

  -- A handler at the inode of a process.
  abbrev pub at_inode :
      (rank ino : ℕ) → (INode → List Peer → Option (List Peer)) → List Peer → Option (List Peer)
  at_inode rank ino k peers = get_elem? peers rank >>= λ p.
      if leb (number_of_inodes p.fs.nodes) ino
      then at_peer rank (peer_answer (err enoent)) peers
      else (get_inode ino p.fs.nodes >>= λ x. k x peers)

  -- `FuseOpen`
  unfoldable pub peer_open : (rank ino : ℕ) → (truncates : Bool) → List Peer → Option (List Peer)
  unfolding peer_open_kind
  peer_open rank ino truncates peers =
      at_inode rank ino (λ x. peer_open_kind rank ino truncates x x.kind) peers

  -- `FuseFlush`
  unfoldable pub peer_flush : (rank ino : ℕ) → List Peer → Option (List Peer)
  unfolding peer_flush_kind
  peer_flush rank ino peers = at_inode rank ino (λ x. peer_flush_kind rank ino x x.kind) peers
