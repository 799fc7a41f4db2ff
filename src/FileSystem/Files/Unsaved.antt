-- ===== src/FileSystem/Files/Unsaved.antt =====
-- A file that is opened while bytes written to it have not been flushed.
use dagon_fs.Prelude.{
  Bool, ℕ, zero, suc, ◌+◌, ◌*◌, ◌<◌, ◌≤◌, ◌≡◌, ◌∙◌, refl, ap, false, true, Option, none, some, List,
  [], ◌∷◌, arith, length, ◌==◌, if◌then◌else◌,
}
use dagon_fs.Blocks.{DataBlock, get_addresses, get_data_block_list_of_inode}
use dagon_fs.Cluster.{Byte, Cluster, cluster_read, blocks_for_request}
use dagon_fs.Cluster.Collectives.{Mpi}
use dagon_fs.Nodes.{INode, file, attr_of, get_inode}
use dagon_fs.FileSystem.{Fs, Env, wrote}
use dagon_fs.FileSystem.Guards.{with_inode-found}
use dagon_fs.FileSystem.Files.{with_kind, open_kind, fuse_open, fuse_write}
use dagon_fs.FileSystem.Files.Contents.{
  room, grown_lem, new_inode, after_write, fuse_write-written, in_after,
}

-- There is no address for a block that is not in the list.
get_addresses_short : (n : ℕ) (l : List DataBlock) → length l < n → get_addresses n l ≡ none
unfolding get_addresses
get_addresses_short zero l h = absurd (omega arith)
get_addresses_short (suc n) [] h = refl
get_addresses_short (suc n) (b ∷ l) h = ground (arith, get_addresses_short n l)

if_none : {A : Type 0} (b : Bool) (o : Option A) → o ≡ none → (if b then o else none) ≡ none
if_none true o e = e
if_none false o e = refl

cluster_read_short :
    (mpi : Mpi) (block_size ino size : ℕ) (c : Cluster)
    → 0 < size
    → length (get_data_block_list_of_inode ino c.blocks) < blocks_for_request block_size size size
    → cluster_read mpi block_size ino size size c ≡ none
unfolding cluster_read
cluster_read_short mpi block_size ino size c some_bytes short =
    let not_empty : (size == 0) ≡ false = ground arith in
    rw (not_empty, get_addresses_short _ _ short) (if_none _ _ refl)

-- For a file with the memory that its block count promises, whose block list is shorter than
-- the file that a write leaves (blocks of at least one byte, where realloc finds memory and no
-- size reaches 2 ^ 64 bytes): the write returns and reports all its bytes, and an opening for
-- reading before the next flush takes addresses from behind the end of the list.
pub fuse_open-fuse_write :
    (mpi : Mpi) (block_size : ℕ) (env : Env) (ino off : ℕ) (bytes : List Byte) (x : INode)
    (m_buf : Option (List Byte)) (waiting : Bool) (s : Fs)
    → get_inode ino s.nodes ≡ some (with_kind x (file m_buf waiting))
    → 0 < block_size
    → ((n : ℕ) → env.alloc n ≡ true)
    → (attr_of x).st_blocks * block_size ≤ room m_buf
    → room m_buf < 18446744073709551616
    → off + length bytes + block_size < 18446744073709551616
    → 0 < off + length bytes
    → (attr_of x).st_size ≤ off + length bytes
    → length (get_data_block_list_of_inode ino s.cluster.blocks)
      < blocks_for_request block_size (off + length bytes) (off + length bytes)
    → (s' : Fs) × (fuse_write block_size env ino (some bytes) off s ≡ some s')
      × (s'.replies ≡ wrote (length bytes) ∷ s.replies)
      × (fuse_open mpi block_size ino false s' ≡ none)
unfolding fuse_open open_kind
fuse_open-fuse_write mpi b env ino off bytes x m_buf waiting s found some_bytes memory backed small
      fits not_empty grows short =
    let n = off + length bytes in
    let s' =
      after_write b env ino off bytes x m_buf waiting s found some_bytes memory backed small fits in
    let y =
      new_inode b env ino off bytes x m_buf waiting s found some_bytes memory backed small fits in
    let kept =
      grown_lem b env ino off bytes x m_buf waiting s found some_bytes memory backed small fits in
    let size : (attr_of y).st_size ≡ n = ground arith in
    let unread : cluster_read mpi b ino (attr_of y).st_size (attr_of y).st_size s'.cluster ≡ none =
      ap (λ m. cluster_read mpi b ino m m s'.cluster) size
      ∙ ap (cluster_read mpi b ino n n) kept.cluster
      ∙ cluster_read_short mpi b ino n s.cluster not_empty short in
    (
      s',
      fuse_write-written b env ino off bytes x m_buf waiting s found some_bytes memory backed small
          fits,
      ap (λ l. wrote (length bytes) ∷ l) kept.replies,
      with_inode-found ino s' _ y (
            in_after b env ino off bytes x m_buf waiting s found some_bytes memory backed small
              fits)
          ∙ rw unread refl,
    )
