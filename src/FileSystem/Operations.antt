-- ===== src/FileSystem/Operations.antt =====
-- The whole table `FileSystem::FuseOperations` but init, which sends no reply: the requests of
-- FileSystem/Requests and those of the handlers that need the cluster, the sizes of the entries of a
-- directory, or that do not serve every request.
use dagon_fs.Prelude.{
  ℕ, zero, suc, ◌+◌, ◌<◌, ◌≤◌, ◌≡◌, ap, sym, subst, ◌∙◌, Bool, Option, some, List, arith, length,
  some-injective,
}
use dagon_fs.Map.{Map}
use dagon_fs.Map.Keys.{Name}
use dagon_fs.Cluster.{Byte}
use dagon_fs.Cluster.Collectives.{Mpi}
use dagon_fs.Nodes.{INode, number_of_inodes, get_inode}
use dagon_fs.Nodes.WellFormed.{IsWellFormed}
use dagon_fs.FileSystem.{Fs, Env, children_at}
use dagon_fs.FileSystem.Requests.{Request, handle, IsProper, handle-Served}
use dagon_fs.FileSystem.Attributes.{fuse_list_xattr, fuse_get_lock}
use dagon_fs.FileSystem.Files.{fuse_open, fuse_read, fuse_write, fuse_flush}
use dagon_fs.FileSystem.Served.{Served}
use dagon_fs.FileSystem.Served.Files.{
  CanRead, CanWrite, CanOpen, CanFlush, fuse_read-Served, fuse_list_xattr-Served,
  fuse_get_lock-Served, fuse_open-Served, fuse_flush-Served, fuse_write-Served,
}
use dagon_fs.FileSystem.Served.ReadDir.{CanList, read_dir, read_dir-Served}

pub data Operation : Type 0 where
  table : Request → Operation
  open_file : (ino : ℕ) → (truncates : Bool) → Operation
  read : (ino size off : ℕ) → Operation
  write : (ino : ℕ) → Option (List Byte) → (off : ℕ) → Operation
  flush : (ino : ℕ) → Operation
  list_xattr : (ino size : ℕ) → Operation
  get_lock : (ino : ℕ) → Operation
  read_dir_at : (ino size : ℕ) → (off : Option ℕ) → Operation

module _ (mpi : Mpi) (entry_size : Name → ℕ) where
  unfoldable pub operate : Env → Operation → Fs → Option Fs
  unfolding handle fuse_open fuse_read fuse_write fuse_flush fuse_list_xattr fuse_get_lock
  operate env (table r) = handle env r
  operate env (open_file ino truncates) = fuse_open mpi env.block_size ino truncates
  operate env (read ino size off) = fuse_read env ino size off
  operate env (write ino bytes off) = fuse_write env.block_size env ino bytes off
  operate env (flush ino) = fuse_flush mpi env.block_size ino
  operate env (list_xattr ino size) = fuse_list_xattr env ino size
  operate env (get_lock ino) = fuse_get_lock ino
  operate env (read_dir_at ino size off) = read_dir entry_size ino size off

  -- Which requests are served: those of the table that are proper; reads that begin in a file whose
  -- bytes are in memory; writes for which memory is found; openings of files whose blocks can be
  -- read; flushes of files whose blocks are in memory and fit into 2 GiB; listxattr with room for a
  -- byte; readdir with room for the neighbours; and of getlk those that fail.
  abbrev pub IsServable : Env → Operation → Fs → Type 0
  IsServable env (table r) s = IsProper r s
  IsServable env (open_file ino truncates) s =
      (x : INode)
      → get_inode ino s.nodes ≡ some x
      → CanOpen mpi env.block_size ino truncates x x.kind s
  IsServable env (read ino size off) s =
      (x : INode) → get_inode ino s.nodes ≡ some x → CanRead size off x x.kind
  IsServable env (write ino bytes off) s =
      (content : List Byte) (x : INode)
      → bytes ≡ some content
      → get_inode ino s.nodes ≡ some x
      → CanWrite env.block_size env content off x x.kind
  IsServable env (flush ino) s =
      (x : INode) → get_inode ino s.nodes ≡ some x → CanFlush env.block_size x x.kind
  IsServable env (list_xattr ino size) s = 0 < size
  IsServable env (get_lock ino) s = number_of_inodes s.nodes ≤ ino
  IsServable env (read_dir_at ino size off) s =
      (children : Map Name ℕ)
      → children_at ino s ≡ some children
      → CanList entry_size size off children

  -- On a well-formed file system each request of the whole table but init, if it is one of the
  -- following, returns, leaves a well-formed file system with at least as many inodes, and sends
  -- exactly one reply: a proper request of the table of FileSystem/Requests; a read that begins in the
  -- file, whose bytes are in memory; a write to a file with the memory that its block count
  -- promises, where realloc finds memory and no size reaches 2 ^ 64; an opening that truncates the
  -- file, or whose blocks can be read; a flush of a file, whose blocks, where they wait, are all in
  -- memory and fit with one block more in 2 GiB; a listxattr of more than 0 bytes; a readdir with
  -- room for `.`, `..` and the first child, or for each two neighbours; a getlk of no inode; and any
  -- read, write or opening of an inode that is no file.
  pub operate-Served :
      (env : Env) (op : Operation) (s : Fs)
      → IsWellFormed s.nodes
      → IsServable env op s
      → Served s (operate env op s)
  unfolding operate
  operate-Served env (table r) s w can = handle-Served env r s w can
  operate-Served env (open_file ino truncates) s w can =
      fuse_open-Served s w mpi env.block_size ino truncates can
  operate-Served env (read ino size off) s w can = fuse_read-Served s w env ino size off can
  operate-Served env (write ino bytes off) s w can =
      fuse_write-Served s w env.block_size env ino bytes off can
  operate-Served env (flush ino) s w can = fuse_flush-Served s w mpi env.block_size ino can
  operate-Served env (list_xattr ino size) s w can = fuse_list_xattr-Served s w env ino size can
  operate-Served env (get_lock ino) s w can = fuse_get_lock-Served s w ino can
  operate-Served env (read_dir_at ino size off) s w can =
      read_dir-Served s w entry_size ino size off can

  -- A session: requests, each handled in the state that the one before left. The environment may
  -- change between requests.
  pub data Session : Fs → ℕ → Fs → Type 0 where
    done : (s : Fs) → Session s zero s
    next :
        (env : Env) (op : Operation) (s s' s'' : Fs) (n : ℕ)
        → operate env op s ≡ some s'
        → Session s' n s''
        → Session s (suc n) s''

  -- Each request can be served where its turn comes.
  abbrev pub AllServable : (s : Fs) (n : ℕ) (s' : Fs) → Session s n s' → Type 0
  AllServable _ _ _ (done _) = Unit {0}
  AllServable _ _ _ (next env op s s' s'' n e rest) =
      IsServable env op s × AllServable s' n s'' rest

  -- What holds after a session.
  pub record IsSound (n : ℕ) (s s' : Fs) : Type 0 where
    pub wf : IsWellFormed s'.nodes
    pub replies : length s'.replies ≡ n + length s.replies

  -- From a well-formed state a session of any number of requests of the whole table but init, each
  -- one that is served where its turn comes (which leaves out a listxattr of size 0, a read past
  -- the end of a file, and a getlk of an inode), leaves a well-formed state, and has sent as many
  -- replies as there were requests.
  pub Session-IsSound :
      (s : Fs) (n : ℕ) (s' : Fs)
      → IsWellFormed s.nodes
      → (run : Session s n s') → AllServable s n s' run
      → IsSound n s s'
  Session-IsSound s n s' w (done _) can = record { wf = w; replies = omega arith }
  Session-IsSound s n s' w (next env op _ s₁ _ m e rest) (can, later) =
      let served = operate-Served env op s w can in
      let same = some-injective served.after s₁ (sym served.returns ∙ e) in
      let sound =
        Session-IsSound s₁ m s' (subst (λ t. IsWellFormed t.nodes) same served.wf) rest later in
      record {
        wf = sound.wf;
        replies =
            omega
              (arith, sound.replies, ap (λ t. length t.replies) same, ap length served.one_reply);
      }
