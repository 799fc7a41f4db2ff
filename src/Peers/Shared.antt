-- ===== src/Peers/Shared.antt =====
-- peer-to-peer/include/ramfs/FileSystem.cpp: the handlers whose text is that of the client-server
-- program. Each works on the file system of its own process and sends nothing to the others.
use dagon_fs.Prelude.{ℕ, Bool, Option, some, List, ◌>>=◌}
use dagon_fs.Map.Keys.{Name}
use dagon_fs.Cluster.{Byte}
use dagon_fs.Nodes.{Stat, ToSet}
use dagon_fs.FileSystem.{Fs, Env}
use dagon_fs.FileSystem.Inodes.{
  fuse_get_attr, fuse_lookup, fuse_forget, fuse_set_attr, fuse_read_link, fuse_access,
}
use dagon_fs.FileSystem.Entries.{fuse_link}
use dagon_fs.FileSystem.Files.{fuse_release, fuse_fsync, fuse_read, fuse_write}
use dagon_fs.FileSystem.Attributes.{
  fuse_open_dir, fuse_release_dir, fuse_fsync_dir, fuse_statfs, fuse_set_xattr, fuse_get_xattr,
  fuse_list_xattr, fuse_remove_xattr, fuse_get_lock,
}
use dagon_fs.FileSystem.ReadDir.{fuse_read_dir}
use dagon_fs.Peers.{Peer}

-- A handler at the file system of a process.
abbrev pub on_fs : (Fs → Option Fs) → Peer → Option Peer
on_fs handler p = handler p.fs >>= λ s. some (record p { fs = s })

-- `FuseGetAttr`
unfoldable pub peer_get_attr : (ino : ℕ) → Peer → Option Peer
unfolding fuse_get_attr
peer_get_attr ino = on_fs (fuse_get_attr ino)

-- `FuseLookup`
unfoldable pub peer_lookup : (parent : ℕ) → Name → Peer → Option Peer
unfolding fuse_lookup
peer_lookup parent name = on_fs (fuse_lookup parent name)

-- `FuseForget`
unfoldable pub peer_forget : (ino nlookup : ℕ) → Peer → Option Peer
unfolding fuse_forget
peer_forget ino nlookup = on_fs (fuse_forget ino nlookup)

-- `FuseSetAttr`
unfoldable pub peer_set_attr : Env → (ino : ℕ) → Stat → ToSet → Peer → Option Peer
unfolding fuse_set_attr
peer_set_attr env ino new to_set = on_fs (fuse_set_attr env ino new to_set)

-- `FuseReadLink`
unfoldable pub peer_read_link : (ino : ℕ) → Peer → Option Peer
unfolding fuse_read_link
peer_read_link ino = on_fs (fuse_read_link ino)

-- `FuseLink`
unfoldable pub peer_link : (ino newparent : ℕ) → Name → Peer → Option Peer
unfolding fuse_link
peer_link ino newparent newname = on_fs (fuse_link ino newparent newname)

-- `FuseRelease`
unfoldable pub peer_release : (ino : ℕ) → Peer → Option Peer
unfolding fuse_release
peer_release ino = on_fs (fuse_release ino)

-- `FuseFsync`
unfoldable pub peer_fsync : (ino : ℕ) → Peer → Option Peer
unfolding fuse_fsync
peer_fsync ino = on_fs (fuse_fsync ino)

-- `FuseOpenDir`
unfoldable pub peer_open_dir : (ino : ℕ) → Peer → Option Peer
unfolding fuse_open_dir
peer_open_dir ino = on_fs (fuse_open_dir ino)

-- `FuseReleaseDir`
unfoldable pub peer_release_dir : (ino : ℕ) → Peer → Option Peer
unfolding fuse_release_dir
peer_release_dir ino = on_fs (fuse_release_dir ino)

-- `FuseFsyncDir`
unfoldable pub peer_fsync_dir : (ino : ℕ) → Peer → Option Peer
unfolding fuse_fsync_dir
peer_fsync_dir ino = on_fs (fuse_fsync_dir ino)

-- `FuseStatfs`
unfoldable pub peer_statfs : (ino : ℕ) → Peer → Option Peer
unfolding fuse_statfs
peer_statfs ino = on_fs (fuse_statfs ino)

-- `FuseSetXAttr`
unfoldable pub peer_set_xattr :
    Env → (ino : ℕ) → Name → List Byte → (creates replaces : Bool) → Peer → Option Peer
unfolding fuse_set_xattr
peer_set_xattr env ino name value creates replaces =
    on_fs (fuse_set_xattr env ino name value creates replaces)

-- `FuseGetXAttr`
unfoldable pub peer_get_xattr : (ino : ℕ) → Name → (size : ℕ) → Peer → Option Peer
unfolding fuse_get_xattr
peer_get_xattr ino name size = on_fs (fuse_get_xattr ino name size)

-- `FuseListXAttr`
unfoldable pub peer_list_xattr : Env → (ino size : ℕ) → Peer → Option Peer
unfolding fuse_list_xattr
peer_list_xattr env ino size = on_fs (fuse_list_xattr env ino size)

-- `FuseRemoveXAttr`
unfoldable pub peer_remove_xattr : (ino : ℕ) → Name → Peer → Option Peer
unfolding fuse_remove_xattr
peer_remove_xattr ino name = on_fs (fuse_remove_xattr ino name)

-- `FuseAccess`
unfoldable pub peer_access : Env → (ino mask : ℕ) → Peer → Option Peer
unfolding fuse_access
peer_access env ino mask = on_fs (fuse_access env ino mask)

-- `FuseGetLock`
unfoldable pub peer_get_lock : (ino : ℕ) → Peer → Option Peer
unfolding fuse_get_lock
peer_get_lock ino = on_fs (fuse_get_lock ino)

-- `FuseRead`
unfoldable pub peer_read : Env → (ino size off : ℕ) → Peer → Option Peer
unfolding fuse_read
peer_read env ino size off = on_fs (fuse_read env ino size off)

-- `FuseWrite`
unfoldable pub peer_write :
    (block_size : ℕ) → Env → (ino : ℕ) → Option (List Byte) → (off : ℕ) → Peer → Option Peer
unfolding fuse_write
peer_write block_size env ino bytes off = on_fs (fuse_write block_size env ino bytes off)

-- `FuseReadDir`
unfoldable pub peer_read_dir :
    (Name → ℕ) → (ino size : ℕ) → Option ℕ → Peer → Option (Option ℕ × Peer)
unfolding fuse_read_dir
peer_read_dir entry_size ino size off p =
    fuse_read_dir entry_size ino size off p.fs >>= λ (left, s). some (left, record p { fs = s })
