-- ===== src/FileSystem.antt =====
-- ramfs/FileSystem.{hpp,cpp} of the client-server program: the state behind the FUSE requests and
-- what the request handlers share. A handler takes the state to `some` state with its replies in
-- front, newest first; `none` is undefined behaviour: an inode number or a memory access that is
-- out of range, or the use of an object that was deleted.
pub mod Registration
pub mod Inodes
pub mod Entries
pub mod Removal
pub mod Served
pub mod Requests
pub mod Operations
pub mod Namespace
pub mod Init
pub mod Guards
pub mod Unlinking
pub mod Renaming
pub mod Making
pub mod Faults
pub mod Files
pub mod Attributes
pub mod ReadDir
use dagon_fs.Prelude.{
  ℕ, ◌+◌, Bool, true, false, Option, none, some, List, [], ◌∷◌, length, leb, ltb, ◌==◌,
  if◌then◌else◌, ◌>>=◌,
}
use dagon_fs.Map.{Map}
use dagon_fs.Map.Keys.{Name}
use dagon_fs.Cluster.{Byte, Cluster}
use dagon_fs.Nodes.{
  u64, sub64, no_ino, INodeType, directory, special_inode_type_no_block, Stat, EntryParam, INode,
  Kind, Nodes, attr_of, as_directory, number_of_inodes, get_inode, set_inode_at, add_inode,
  reclaim_inode, initialize_inode, create_empty_inode, child_inode_number_with_name,
}

-- The error numbers that the program sends; `success` is 0.
pub data Errno : Type 0 where
  success enoent eperm eisdir enotdir enametoolong eexist enodata e2big erange eacces eio : Errno

-- `struct statvfs`
pub record Statvfs : Type 0 where
  pub f_blocks : ℕ
  pub f_bfree : ℕ
  pub f_bavail : ℕ
  pub f_files : ℕ
  pub f_ffree : ℕ
  pub f_favail : ℕ

-- What is sent to FUSE, one constructor for each `fuse_reply_…`.
pub data Reply : Type 0 where
  err : Errno → Reply
  none_reply : Reply
  attr : Stat → Reply
  entry : EntryParam → Reply
  create : EntryParam → Reply
  opened : Reply
  buf : List Byte → Reply
  entries : List (Name × ℕ) → Reply
  wrote : ℕ → Reply
  readlink : Name → Reply
  xattr_size : ℕ → Reply
  statfs : Statvfs → Reply

-- `kTotalBlocks` and `kTotalInodes`, `~0` on 64 bits.
abbrev pub k_total : ℕ
k_total = 18446744073709551615

abbrev pub k_max_filename_length : ℕ
k_max_filename_length = 1024

abbrev pub k_inode_reclamation_threshold : ℕ
k_inode_reclamation_threshold = 256

-- The static members of `FileSystem` and the singletons that it uses.
pub record Fs : Type 0 where
  pub nodes : Nodes
  pub reclaiming_inodes : Bool
  pub stbuf : Statvfs
  pub cluster : Cluster
  pub replies : List Reply

-- What a request finds outside the handlers: the ids of the caller (`fuse_req_ctx`) and of the
-- process (`getuid`, `getgid`), the clock, whether `realloc` finds memory, and `INodeBufBlockSize`,
-- which the two programs set differently.
pub record Env : Type 0 where
  pub ctx_uid : ℕ
  pub ctx_gid : ℕ
  pub uid : ℕ
  pub gid : ℕ
  pub now : ℕ
  pub alloc : ℕ → Bool
  pub block_size : ℕ

abbrev pub reply : Reply → Fs → Fs
reply r s = record s { replies = r ∷ s.replies }

-- The last reply of a handler, and its return.
abbrev pub answer : Reply → Fs → Option Fs
answer r s = some (reply r s)

abbrev pub with_nodes : Fs → Nodes → Fs
with_nodes s ns = record s { nodes = ns }

-- `UpdateUsedBlocks`
unfoldable pub update_used_blocks : ℕ → Fs → Fs
update_used_blocks added s = record s {
  stbuf = record s.stbuf {
    f_bfree = sub64 s.stbuf.f_bfree added;
    f_bavail = sub64 s.stbuf.f_bavail added;
  };
}

-- `UpdateUsedINodes`
unfoldable pub update_used_inodes : ℕ → Fs → Fs
update_used_inodes added s = record s {
  stbuf = record s.stbuf {
    f_ffree = sub64 s.stbuf.f_ffree added;
    f_favail = sub64 s.stbuf.f_favail added;
  };
}

-- The two ways of `RegisterINode` to place a new inode: at the number of a deleted one, whose
-- object goes, or behind the others.
unfoldable pub place_inode : INode → Fs → Option (ℕ × Fs)
unfolding update_used_blocks update_used_inodes reclaim_inode add_inode
place_inode x s =
    if s.reclaiming_inodes
    then (reclaim_inode s.nodes >>= λ (ino, ns). get_inode ino ns >>= λ del. some (
      ino,
      with_nodes (update_used_blocks (sub64 0 (attr_of del).st_blocks) s) (set_inode_at ino x ns),
    ))
    else some ((add_inode x s.nodes).0, with_nodes (update_used_inodes 1 s) (add_inode x s.nodes).1)

-- `RegisterINode`
unfoldable pub register_inode : Env → INodeType → (mode nlink gid uid : ℕ) → Fs → Option (ℕ × Fs)
unfolding place_inode
register_inode env type mode nlink gid uid s =
    let reclaiming = if length s.nodes.deleted_inodes == 0 then false else s.reclaiming_inodes in
    place_inode (create_empty_inode type) (record s { reclaiming_inodes = reclaiming })
    >>= λ (ino, s'). get_inode ino s'.nodes >>= λ x. some (
      ino,
      with_nodes s' (
          set_inode_at ino (initialize_inode env.block_size env.now ino mode nlink gid uid x)
            s'.nodes),
    )

-- `if (ino >= getNumberOfINodes()) … return;` and then the inode.
abbrev pub with_inode : ℕ → Fs → (INode → Option Fs) → Option Fs
with_inode ino s k =
    if leb (number_of_inodes s.nodes) ino
    then answer (err enoent) s
    else (get_inode ino s.nodes >>= k)

-- The children of the directory at a number.
abbrev pub children_at : ℕ → Fs → Option (Map Name ℕ)
children_at ino s = get_inode ino s.nodes >>= as_directory

-- The same for an inode that has to be a directory; `wrong` is sent if it is not.
abbrev pub with_directory : ℕ → Errno → Fs → (Map Name ℕ → Option Fs) → Option Fs
with_directory ino wrong s k =
    with_inode ino s
      λ x. elim (as_directory x) [ none ↦ answer (err wrong) s | some children ↦ k children ]

-- `ChildINodeNumberWithName` and the test for -1.
abbrev pub with_child : Name → Map Name ℕ → Fs → (ℕ → Option Fs) → Option Fs
with_child name children s k =
    let ino = child_inode_number_with_name name children in
    let found = k ino in if ino == no_ino then answer (err enoent) s else found

-- `FuseInit`: a special inode at 0 and the root directory at 1. The broadcast at its end changes
-- nothing on the nodes that is modelled.
unfoldable pub fuse_init : Env → Fs → Option Fs
unfolding register_inode
fuse_init env s =
    let st = record s.stbuf {
      f_bfree = s.stbuf.f_blocks;
      f_bavail = s.stbuf.f_blocks;
      f_ffree = s.stbuf.f_files;
      f_favail = s.stbuf.f_files;
    } in
    register_inode env special_inode_type_no_block 0o777 0 env.gid env.uid
      (record s { reclaiming_inodes = false; stbuf = st })
    >>= λ (ino, s₁).
        register_inode env directory 0o40777 3 env.gid env.uid s₁ >>= λ (root, s₂). some s₂

-- The state before `FuseInit`.
abbrev pub start : Cluster → Fs
start c = record {
  nodes = record { inodes = []; deleted_inodes = [] };
  reclaiming_inodes = false;
  stbuf = record {
    f_blocks = k_total;
    f_bfree = k_total;
    f_bavail = k_total;
    f_files = k_total;
    f_ffree = k_total;
    f_favail = k_total;
  };
  cluster = c;
  replies = [];
}
