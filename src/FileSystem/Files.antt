-- ===== src/FileSystem/Files.antt =====
-- The handlers on open files: open, flush, release, fsync, read and write. The memory of `m_buf` is
-- a list of bytes; a null pointer is `none`.
pub mod Contents
pub mod Storage
pub mod Unsaved
use dagon_fs.Prelude.{
  ℕ, ◌+◌, ◌-◌, ◌*◌, ◌/◌, ◌%◌, Bool, true, false, Option, none, some, List, [], ◌∷◌, ◌++◌, length,
  take, drop, replicate, leb, ltb, ◌==◌, bit, not, if◌then◌else◌, ◌>>=◌,
}
use dagon_fs.Cluster.{Byte, Cluster, cluster_write, cluster_read}
use dagon_fs.Cluster.Collectives.{Mpi}
use dagon_fs.Nodes.{
  u64, sub64, INode, Kind, Stat, file, dir, symlink, special, attr_of, with_attr, get_inode,
  set_inode_at,
}
use dagon_fs.FileSystem.{
  Fs, Env, Reply, success, enoent, eperm, eisdir, err, opened, buf, wrote, reply, answer,
  with_nodes, with_inode, update_used_blocks,
}

abbrev pub with_kind : INode → Kind → INode
with_kind x k = record x { kind = k }

-- `FuseRelease`, for each class of inode.
unfoldable pub release_kind : (ino : ℕ) → INode → Kind → Fs → Option Fs
release_kind ino x (dir children) s = answer (err eisdir) s
release_kind ino x (file m_buf waiting) s =
    answer (err success) (with_nodes s (set_inode_at ino (with_kind x (file none waiting)) s.nodes))
release_kind ino x (symlink link) s = answer (err success) s
release_kind ino x (special type) s = answer (err success) s

-- `FuseRelease`
unfoldable pub fuse_release : ℕ → Fs → Option Fs
unfolding release_kind
fuse_release ino s = with_inode ino s λ x. release_kind ino x x.kind s

-- `FuseFsync`
unfoldable pub fuse_fsync : ℕ → Fs → Option Fs
fuse_fsync ino s = with_inode ino s λ x. answer (err success) s

-- The bytes at an offset; to read none of them needs no memory.
unfoldable pub peek : (off size : ℕ) → Option (List Byte) → Option (List Byte)
peek off size none = if size == 0 then some [] else none
peek off size (some b) =
    if size == 0
    then some []
    else if leb (off + size) (length b)
    then some (take size (drop off b))
    else none

-- The part of `FuseRead` for files: for an offset past the end it replies and goes on.
unfoldable pub read_file : Env → (ino size off : ℕ) → INode → Option (List Byte) → Fs → Option Fs
unfolding peek
read_file env ino size off x m_buf s =
    let a = attr_of x in
    let s₁ = if ltb a.st_size off then reply (buf []) s else s in
    let y = with_attr x (record a { st_atim = env.now }) in
    let bytes_read = if ltb a.st_size (u64 (off + size)) then sub64 a.st_size off else size in
    peek off bytes_read m_buf >>= λ bytes.
    answer (buf bytes) (with_nodes s₁ (set_inode_at ino y s₁.nodes))

unfoldable pub read_kind : Env → (ino size off : ℕ) → INode → Kind → Fs → Option Fs
unfolding read_file
read_kind env ino size off x (dir children) s = answer (err eisdir) s
read_kind env ino size off x (special type) s = answer (err enoent) s
read_kind env ino size off x (symlink link) s = answer (err eisdir) s
read_kind env ino size off x (file m_buf waiting) s = read_file env ino size off x m_buf s

-- `FuseRead`
unfoldable pub fuse_read : Env → (ino size off : ℕ) → Fs → Option Fs
unfolding read_kind
fuse_read env ino size off s = with_inode ino s λ x. read_kind env ino size off x x.kind s

-- `memcpy` to an offset; to copy nothing needs no memory.
unfoldable pub poke : (off : ℕ) → List Byte → Option (List Byte) → Option (Option (List Byte))
poke off [] m_buf = some m_buf
poke off (c ∷ bytes) none = none
poke off (c ∷ bytes) (some b) =
    if leb (off + length (c ∷ bytes)) (length b)
    then some (some (take off b ++ ((c ∷ bytes) ++ drop (off + length (c ∷ bytes)) b)))
    else none

-- `realloc` that finds memory: the bytes that were there and fit, then new ones.
abbrev pub realloc : ℕ → Option (List Byte) → List Byte
realloc n none = replicate n none
realloc n (some b) = take n b ++ replicate (n - length b) none

module _ (block_size : ℕ) where
  -- The blocks that `newSize` bytes need.
  abbrev pub new_blocks_for : ℕ → ℕ
  new_blocks_for new_size = new_size / block_size + bit (not (new_size % block_size == 0))

  -- The part of `FuseWrite` that allocates: the buffer, the blocks and the state. Where `realloc`
  -- fails the handler replies, drops the buffer and goes on.
  unfoldable pub grow :
      Env → (new_size : ℕ) → Stat → Option (List Byte) → Fs → Option (List Byte) × (ℕ × Fs)
  unfolding update_used_blocks
  grow env new_size a m_buf s =
      let n = new_blocks_for new_size in
      let room = u64 (n * block_size) in
      let failed = reply (wrote 0) s in
      let added = sub64 n a.st_blocks in
      if ltb (u64 (block_size * a.st_blocks)) new_size
      then (if env.alloc room
          then (some (realloc room m_buf), (n, update_used_blocks added s))
          else (none, (n, update_used_blocks added failed)))
      else (m_buf, (a.st_blocks, s))

  -- The part of `FuseWrite` for files.
  unfoldable pub write_file :
      Env → (ino : ℕ) → List Byte → (off : ℕ) → INode → Option (List Byte) → Fs → Option Fs
  unfolding grow poke
  write_file env ino bytes off x m_buf s =
      let a = attr_of x in
      let new_size = u64 (off + length bytes) in
      let grown = grow env new_size a m_buf s in
      let s₁ = grown.1.1 in
      poke off bytes grown.0 >>= λ m_buf'.
      let y = with_attr (with_kind x (file m_buf' true)) (record a {
        st_blocks = grown.1.0;
        st_size = if ltb a.st_size new_size then new_size else a.st_size;
        st_ctim = env.now;
        st_mtim = env.now;
      }) in
      answer (wrote (length bytes)) (with_nodes s₁ (set_inode_at ino y s₁.nodes))

  unfoldable pub write_kind :
      Env → (ino : ℕ) → List Byte → (off : ℕ) → INode → Kind → Fs → Option Fs
  unfolding write_file
  write_kind env ino bytes off x (dir children) s = answer (err eisdir) s
  write_kind env ino bytes off x (symlink link) s = answer (err enoent) s
  write_kind env ino bytes off x (special type) s = answer (err eisdir) s
  write_kind env ino bytes off x (file m_buf waiting) s = write_file env ino bytes off x m_buf s

  -- `FuseWrite`; `none` is a null pointer.
  unfoldable pub fuse_write : Env → (ino : ℕ) → Option (List Byte) → (off : ℕ) → Fs → Option Fs
  unfolding write_kind
  fuse_write env ino none off s = answer (err eperm) s
  fuse_write env ino (some bytes) off s =
      with_inode ino s λ x. write_kind env ino bytes off x x.kind s

module _ (mpi : Mpi) (block_size : ℕ) where
  -- `FuseOpen`, for each class of inode; `truncates` is `fi->flags & (O_WRONLY | O_TRUNC)`.
  unfoldable pub open_kind : (ino : ℕ) → (truncates : Bool) → INode → Kind → Fs → Option Fs
  unfolding cluster_read
  open_kind ino truncates x (dir children) s = answer (err eisdir) s
  open_kind ino truncates x (symlink link) s = answer (err eperm) s
  open_kind ino truncates x (special type) s = answer (err eperm) s
  open_kind ino truncates x (file m_buf waiting) s =
      let a = attr_of x in
      if truncates
      then answer opened (
          with_nodes s
            (set_inode_at ino (with_attr x (record a { st_size = 0; st_blocks = 0 })) s.nodes))
      else (cluster_read mpi block_size ino a.st_size a.st_size s.cluster >>= λ read.
          answer opened (with_nodes s (set_inode_at ino (with_kind x (file read waiting)) s.nodes)))

  -- `FuseOpen`
  unfoldable pub fuse_open : (ino : ℕ) → (truncates : Bool) → Fs → Option Fs
  unfolding open_kind
  fuse_open ino truncates s = with_inode ino s λ x. open_kind ino truncates x x.kind s

  -- `FuseFlush`, for each class of inode: the pointer to the file is null where it is no file.
  unfoldable pub flush_kind : (ino : ℕ) → INode → Kind → Fs → Option Fs
  unfolding cluster_write
  flush_kind ino x (dir children) s = none
  flush_kind ino x (symlink link) s = none
  flush_kind ino x (special type) s = none
  flush_kind ino x (file none waiting) s = answer (err success) s
  flush_kind ino x (file (some b) waiting) s =
      let written = with_nodes s (set_inode_at ino (with_kind x (file none false)) s.nodes) in
      let freed = with_nodes s (set_inode_at ino (with_kind x (file none waiting)) s.nodes) in
      if waiting
      then (cluster_write mpi block_size ino (attr_of x).st_size b s.cluster >>= λ c.
          answer (err success) (record written { cluster = c }))
      else answer (err success) freed

  -- `FuseFlush`
  unfoldable pub fuse_flush : ℕ → Fs → Option Fs
  unfolding flush_kind
  fuse_flush ino s = with_inode ino s λ x. flush_kind ino x x.kind s
