-- ===== src/FileSystem/Attributes.antt =====
-- The extended attributes of nodes/INode.cpp with their handlers, and the handlers that need no more
-- than a directory or the state: opendir, releasedir, fsyncdir, statfs and getlk. This is the code
-- for Linux, where an attribute is written from its start.
pub mod Values
use dagon_fs.Prelude.{
  ℕ, Bool, true, false, ◌&&◌, not, Option, none, some, List, [], ◌∷◌, ◌++◌, map, flatten, length,
  take, drop, ltb, ◌==◌, if◌then◌else◌,
}
use dagon_fs.Map.{Map, find, insert, erase}
use dagon_fs.Map.Keys.{Name, name_ord}
use dagon_fs.Cluster.{Byte}
use dagon_fs.Nodes.{INode, Kind, file, dir, symlink, special, set_inode_at}
use dagon_fs.FileSystem.{
  Fs, Env, Errno, success, enoent, enotdir, eexist, enodata, e2big, erange, eio, err, buf, opened,
  xattr_size, statfs, reply, answer, with_nodes, with_inode,
}

abbrev with_xattr : INode → Map Name (List Byte) → INode
with_xattr x m = record x { xattr = m }

-- The part of `SetXAttr` behind its test of the flags; `m_xattr[name]` makes an empty value where
-- there is none.
unfoldable pub store_xattr : Env → Name → List Byte → List Byte → INode → Errno × INode
store_xattr env name value current x =
    if ltb (length current) (length value)
    then (if env.alloc (length value)
        then (success, with_xattr x (insert name value x.xattr))
        else (e2big, with_xattr x (insert name current x.xattr)))
    else (success, with_xattr x (insert name (value ++ drop (length value) current) x.xattr))

-- `INode::SetXAttr`; `creates` and `replaces` are the flags XATTR_CREATE and XATTR_REPLACE.
unfoldable pub set_xattr :
    Env → Name → List Byte → (creates replaces : Bool) → INode → Errno × INode
unfolding store_xattr
set_xattr env name value creates replaces x = elim (find name x.xattr) [
  | none ↦ if creates then (eexist, x) else store_xattr env name value [] x
  | some current ↦ if replaces then (enodata, x) else store_xattr env name value current x
]

-- `INode::RemoveXAttr`
unfoldable pub remove_xattr : Name → INode → Errno × INode
remove_xattr name x = elim (find name x.xattr) [
  | none ↦ (enodata, x)
  | some value ↦ (success, with_xattr x (erase name x.xattr))
]

-- `FuseSetXAttr`
unfoldable pub fuse_set_xattr :
    Env → (ino : ℕ) → Name → List Byte → (creates replaces : Bool) → Fs → Option Fs
unfolding set_xattr
fuse_set_xattr env ino name value creates replaces s = with_inode ino s λ x.
    let done = set_xattr env name value creates replaces x in
    answer (err done.0) (with_nodes s (set_inode_at ino done.1 s.nodes))

-- What `FuseGetXAttr` sends for an inode.
abbrev pub get_xattr : Name → (size : ℕ) → INode → Fs → Option Fs
get_xattr name size x s = elim (find name x.xattr) [
  | none ↦ answer (err enodata) s
  | some value ↦
      if size == 0
      then answer (xattr_size (length value)) s
      else if ltb (length value) size
      then answer (err erange) s
      else answer (buf (take size value)) s
]

-- `FuseGetXAttr`
unfoldable pub fuse_get_xattr : (ino : ℕ) → Name → (size : ℕ) → Fs → Option Fs
fuse_get_xattr ino name size s = with_inode ino s λ x. get_xattr name size x s

-- The names, each with the null character behind it.
unfoldable pub name_list : Map Name (List Byte) → List Byte
name_list [] = []
name_list ((name, value) ∷ m) = map some name ++ some 0 ∷ name_list m

-- `FuseListXAttr`: the size is sent, and the handler goes on.
unfoldable pub fuse_list_xattr : Env → (ino size : ℕ) → Fs → Option Fs
unfolding name_list
fuse_list_xattr env ino size s = with_inode ino s λ x.
    let names = name_list x.xattr in
    let s₁ = if size == 0 then reply (xattr_size (length names)) s else s in
    if ltb size (length names)
    then answer (err erange) s₁
    else if env.alloc (length names)
    then answer (buf names) s₁
    else answer (err eio) s₁

-- `FuseRemoveXAttr`
unfoldable pub fuse_remove_xattr : (ino : ℕ) → Name → Fs → Option Fs
unfolding remove_xattr
fuse_remove_xattr ino name s = with_inode ino s λ x.
    let done = remove_xattr name x in
    answer (err done.0) (with_nodes s (set_inode_at ino done.1 s.nodes))

-- `FuseStatfs`
unfoldable pub fuse_statfs : ℕ → Fs → Option Fs
fuse_statfs ino s = answer (statfs s.stbuf) s

-- `FuseGetLock`: where the inode exists nothing is sent.
unfoldable pub fuse_get_lock : ℕ → Fs → Option Fs
fuse_get_lock ino s = with_inode ino s λ x. some s

abbrev pub is_file : Kind → Bool
is_file (file m_buf waiting) = true
is_file (dir children) = false
is_file (symlink link) = false
is_file (special type) = false

-- `FuseOpenDir`: only a file is refused.
unfoldable pub fuse_open_dir : ℕ → Fs → Option Fs
fuse_open_dir ino s =
    with_inode ino s λ x. if is_file x.kind then answer (err enotdir) s else answer opened s

-- `FuseReleaseDir`
unfoldable pub fuse_release_dir : ℕ → Fs → Option Fs
fuse_release_dir ino s =
    with_inode ino s λ x. if is_file x.kind then answer (err enotdir) s else answer (err success) s

-- `FuseFsyncDir`
unfoldable pub fuse_fsync_dir : ℕ → Fs → Option Fs
fuse_fsync_dir ino s = with_inode ino s λ x. answer (err success) s
