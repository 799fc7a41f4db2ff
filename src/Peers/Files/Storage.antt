-- ===== src/Peers/Files/Storage.antt =====
-- A file that one process of the peer-to-peer program flushes and another one opens.
use dagon_fs.Prelude.{
  ℕ, ◌+◌, ◌*◌, ◌≤◌, ◌<◌, ◌≡◌, ◌≢◌, refl, ap, ◌∙◌, Bool, true, false, Option, none, some, List,
  arith, length, get_elem?, get_elem?-lt, set, get_elem?-set_self, get_elem?-set_ne, take, ◌==◌,
}
use native.Mathlib.Nat.{}
use dagon_fs.Blocks.{}
use dagon_fs.Cluster.{Byte}
use dagon_fs.Cluster.Collectives.{Mpi, IsMpi}
use dagon_fs.Nodes.{INode, file, attr_of, get_inode}
use dagon_fs.FileSystem.{success, err, reply}
use dagon_fs.FileSystem.Files.{}
use dagon_fs.Peers.{Peer, send_write_request, send_read_request}
use dagon_fs.Peers.Transfer.{peer_number_of_blocks, peers_read}
use dagon_fs.Peers.Transfer.Saved.{HaveInode}
use dagon_fs.Peers.Transfer.ReadBack.{peers_read-peers_write}
use dagon_fs.Peers.Transfer.Sync.{}
use dagon_fs.Peers.Transfer.Reload.{}
use dagon_fs.Peers.Handlers.{with_fs}
use dagon_fs.Peers.Files.{keep_kind, peer_open, peer_flush}
use dagon_fs.Peers.Files.Asked.{HaveInode-set, reads_again}
use dagon_fs.Peers.Files.Noted.{peer_save-noted, peers_write-at}
use dagon_fs.Peers.Files.Handled.{buffer_at, peer_flush-waiting, peer_open-loads}

-- With blocks of at least 8 bytes: one process has bytes of a file that wait to be written, more
-- than 0, in a buffer that holds all blocks of the file, which fits with one block more in 2 GiB;
-- the inode is there at every process, and another process has a file of that number. Then the
-- flush by the first process succeeds, and an open by the other one after it, without O_WRONLY and
-- O_TRUNC, succeeds and gives it those blocks of the bytes, whatever size and bytes it had noted
-- before.
pub peer_open-peer_flush :
    (mpi : Mpi)
    → IsMpi mpi
    → (b writer reader ino : ℕ) (buffer : List Byte) (peers : List Peer) (w r : Peer) (x y : INode)
      (old : Option (List Byte)) (waiting : Bool)
    → 8 ≤ b
    → 0 < (attr_of x).st_size
    → (attr_of x).st_size + b ≤ 2147483648
    → peer_number_of_blocks b (attr_of x).st_size * b ≤ length buffer
    → HaveInode ino peers
    → get_elem? peers writer ≡ some w
    → get_elem? peers reader ≡ some r
    → writer ≢ reader
    → get_inode ino w.fs.nodes ≡ some x
    → x.kind ≡ file (some buffer) true
    → get_inode ino r.fs.nodes ≡ some y
    → y.kind ≡ file old waiting
    → (flushed : List Peer) × (loaded : List Peer) × (peer_flush mpi b writer ino peers
        ≡ some flushed)
      × (peer_open mpi b reader ino false flushed ≡ some loaded)
      × (buffer_at reader ino loaded
          ≡ some (take (peer_number_of_blocks b (attr_of x).st_size * b) buffer))
unfolding send_write_request
peer_open-peer_flush mpi laws b writer reader ino buffer peers w r x y old waiting wide some_bytes
      fits enough here at_w at_r apart at_x is_file at_y is_read =
    let size = (attr_of x).st_size in
    let asked = set peers writer (send_write_request w) in
    let own : get_elem? asked writer ≡ some (send_write_request w) =
      get_elem?-set_self peers writer _ (get_elem?-lt peers writer w at_w) in
    let other : get_elem? asked reader ≡ some r =
      get_elem?-set_ne peers writer reader _ apart ∙ at_r in
    let (saved, written, read) =
      peers_read-peers_write mpi laws b writer reader ino size size buffer asked wide some_bytes
        (omega arith) fits enough
        (HaveInode-set ino peers writer (send_write_request w) w at_w refl here)
        (get_elem?-lt asked reader r other) in
    let (q, _, _, at_q, _, _) =
      peers_write-at mpi b writer ino size buffer asked saved writer _ written own in
    let (q', s, a, at_q', nodes, done) =
      peers_write-at mpi b writer ino size buffer asked saved reader r written other in
    let away : (reader == writer) ≡ false = ground arith in
    let (y', at_y', kind, sized) =
      peer_save-noted b (length asked) writer reader ino size a s q' y done away
        (ap (get_inode ino) nodes ∙ at_y) in
    let w' =
      with_fs (keep_kind ino x (file none false) q)
        (reply (err success) (keep_kind ino x (file none false) q).fs) in
    let flushed = set saved writer w' in
    let there : get_elem? flushed reader ≡ some q' =
      get_elem?-set_ne saved writer reader w' apart ∙ at_q' in
    let whole = take (peer_number_of_blocks b size * b) buffer in
    let asked_size = (attr_of y').st_size in
    let again =
      ap (λ t. peers_read mpi b reader ino t t (set flushed reader (send_read_request q'))) sized
      ∙ reads_again mpi b writer reader ino size saved q w' q' at_q at_q' apart refl
      ∙ read in
    let (loaded, opens, bytes) =
      peer_open-loads mpi b reader ino flushed q' y' there at_y' old waiting whole (kind ∙ is_read)
        again in
    (
      flushed,
      loaded,
      peer_flush-waiting mpi b writer ino peers w x at_w at_x buffer saved q is_file written at_q,
      opens,
      bytes,
    )
