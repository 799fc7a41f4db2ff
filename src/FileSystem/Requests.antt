-- ===== src/FileSystem/Requests.antt =====
-- The requests that FUSE sends and the table `FileSystem::FuseOperations` that takes each to its
-- handler, for the handlers on names, links and attributes; FileSystem/Operations has the others.
use dagon_fs.Prelude.{ℕ, ◌<◌, ◌≡◌, Bool, false, List, Option, some}
use dagon_fs.Map.{Map}
use dagon_fs.Map.Keys.{Name}
use dagon_fs.Cluster.{Byte}
use dagon_fs.Nodes.{Stat, ToSet, number_of_inodes}
use dagon_fs.Nodes.WellFormed.{IsWellFormed}
use dagon_fs.FileSystem.{Fs, Env, children_at}
use dagon_fs.FileSystem.Inodes.{
  fuse_get_attr, fuse_lookup, fuse_forget, fuse_set_attr, fuse_read_link, fuse_access,
}
use dagon_fs.FileSystem.Entries.{
  fuse_mknod, fuse_mkdir, fuse_symlink, fuse_create, fuse_link, is_taken,
}
use dagon_fs.FileSystem.Removal.{fuse_unlink, fuse_rmdir, fuse_rename}
use dagon_fs.FileSystem.Served.{Served}
use dagon_fs.FileSystem.Served.Inodes.{
  fuse_get_attr-Served, fuse_lookup-Served, fuse_forget-Served, fuse_set_attr-Served,
  fuse_read_link-Served, fuse_access-Served,
}
use dagon_fs.FileSystem.Served.Entries.{
  IsNotNext, fuse_mknod-Served, fuse_mkdir-Served, fuse_symlink-Served, fuse_create-Served,
}
use dagon_fs.FileSystem.Attributes.{
  fuse_set_xattr, fuse_get_xattr, fuse_remove_xattr, fuse_statfs, fuse_open_dir, fuse_release_dir,
  fuse_fsync_dir,
}
use dagon_fs.FileSystem.Files.{fuse_fsync, fuse_release}
use dagon_fs.FileSystem.Served.Attributes.{
  fuse_set_xattr-Served, fuse_get_xattr-Served, fuse_remove_xattr-Served, fuse_statfs-Served,
  fuse_open_dir-Served, fuse_release_dir-Served, fuse_fsync_dir-Served, fuse_fsync-Served,
  fuse_release-Served,
}
use dagon_fs.FileSystem.Served.Links.{fuse_link-Served}
use dagon_fs.FileSystem.Served.Removal.{fuse_unlink-Served, fuse_rmdir-Served, fuse_rename-Served}

pub data Request : Type 0 where
  get_attr : (ino : ℕ) → Request
  lookup : (parent : ℕ) → Name → Request
  forget : (ino nlookup : ℕ) → Request
  set_attr : (ino : ℕ) → Stat → ToSet → Request
  read_link : (ino : ℕ) → Request
  access : (ino mask : ℕ) → Request
  mknod : (parent : ℕ) → Name → (mode : ℕ) → Request
  mkdir : (parent : ℕ) → Name → Request
  symlink : Name → (parent : ℕ) → Name → Request
  create : (parent : ℕ) → Name → (truncates : Bool) → Request
  link : (ino newparent : ℕ) → Name → Request
  unlink : (parent : ℕ) → Name → Request
  rmdir : (parent : ℕ) → Name → Request
  rename : (parent : ℕ) → Name → (newparent : ℕ) → Name → Request
  set_xattr : (ino : ℕ) → Name → List Byte → (creates replaces : Bool) → Request
  get_xattr : (ino : ℕ) → Name → (size : ℕ) → Request
  remove_xattr : (ino : ℕ) → Name → Request
  stat_fs : (ino : ℕ) → Request
  open_dir : (ino : ℕ) → Request
  release_dir : (ino : ℕ) → Request
  fsync_dir : (ino : ℕ) → Request
  fsync : (ino : ℕ) → Request
  release : (ino : ℕ) → Request

unfoldable pub handle : Env → Request → Fs → Option Fs
unfolding fuse_get_attr fuse_lookup fuse_forget fuse_set_attr fuse_read_link fuse_access fuse_mknod
    fuse_mkdir fuse_symlink fuse_create fuse_link fuse_unlink fuse_rmdir fuse_rename fuse_set_xattr
    fuse_get_xattr fuse_remove_xattr fuse_statfs fuse_open_dir fuse_release_dir fuse_fsync_dir
    fuse_fsync fuse_release
handle env (get_attr ino) = fuse_get_attr ino
handle env (lookup parent name) = fuse_lookup parent name
handle env (forget ino nlookup) = fuse_forget ino nlookup
handle env (set_attr ino new to_set) = fuse_set_attr env ino new to_set
handle env (read_link ino) = fuse_read_link ino
handle env (access ino mask) = fuse_access env ino mask
handle env (mknod parent name mode) = fuse_mknod env parent name mode
handle env (mkdir parent name) = fuse_mkdir env parent name
handle env (symlink target parent name) = fuse_symlink env target parent name
handle env (create parent name truncates) = fuse_create env parent name truncates
handle env (link ino newparent newname) = fuse_link ino newparent newname
handle env (unlink parent name) = fuse_unlink parent name
handle env (rmdir parent name) = fuse_rmdir parent name
handle env (rename parent name newparent newname) = fuse_rename parent name newparent newname
handle env (set_xattr ino name value creates replaces) =
    fuse_set_xattr env ino name value creates replaces
handle env (get_xattr ino name size) = fuse_get_xattr ino name size
handle env (remove_xattr ino name) = fuse_remove_xattr ino name
handle env (stat_fs ino) = fuse_statfs ino
handle env (open_dir ino) = fuse_open_dir ino
handle env (release_dir ino) = fuse_release_dir ino
handle env (fsync_dir ino) = fuse_fsync_dir ino
handle env (fsync ino) = fuse_fsync ino
handle env (release ino) = fuse_release ino

-- What FUSE keeps to: it asks for inodes that it was given, it adds to no directory that waits to
-- be reclaimed, and it links to no name that it found.
abbrev pub IsProper : Request → Fs → Type 0
IsProper (get_attr ino) s = ino < number_of_inodes s.nodes
IsProper (forget ino nlookup) s = ino < number_of_inodes s.nodes
IsProper (set_attr ino new to_set) s = ino < number_of_inodes s.nodes
IsProper (mknod parent name mode) s = IsNotNext parent s.nodes
IsProper (mkdir parent name) s = IsNotNext parent s.nodes
IsProper (symlink target parent name) s = IsNotNext parent s.nodes
IsProper (create parent name truncates) s = IsNotNext parent s.nodes
IsProper (link ino newparent newname) s =
    (children : Map Name ℕ)
    → children_at newparent s ≡ some children
    → is_taken newname children ≡ false
IsProper _ s = Unit {0}

-- On a well-formed file system every proper request returns, leaves a well-formed file system
-- with at least as many inodes, and sends exactly one reply.
pub handle-Served :
    (env : Env) (r : Request) (s : Fs)
    → IsWellFormed s.nodes
    → IsProper r s
    → Served s (handle env r s)
unfolding handle
handle-Served env (get_attr ino) s w p = fuse_get_attr-Served s w ino p
handle-Served env (lookup parent name) s w p = fuse_lookup-Served s w parent name
handle-Served env (forget ino nlookup) s w p = fuse_forget-Served s w ino nlookup p
handle-Served env (set_attr ino new to_set) s w p = fuse_set_attr-Served s w env ino new to_set p
handle-Served env (read_link ino) s w p = fuse_read_link-Served s w ino
handle-Served env (access ino mask) s w p = fuse_access-Served s w env ino mask
handle-Served env (mknod parent name mode) s w p = fuse_mknod-Served env parent name s w p mode
handle-Served env (mkdir parent name) s w p = fuse_mkdir-Served env parent name s w p
handle-Served env (symlink target parent name) s w p =
    fuse_symlink-Served env parent name s w p target
handle-Served env (create parent name truncates) s w p =
    fuse_create-Served env parent name s w p truncates
handle-Served env (link ino newparent newname) s w p = fuse_link-Served ino newparent newname s w p
handle-Served env (unlink parent name) s w p = fuse_unlink-Served s w parent name
handle-Served env (rmdir parent name) s w p = fuse_rmdir-Served s w parent name
handle-Served env (rename parent name newparent newname) s w p =
    fuse_rename-Served s w parent name newparent newname
handle-Served env (set_xattr ino name value creates replaces) s w p =
    fuse_set_xattr-Served s w env ino name value creates replaces
handle-Served env (get_xattr ino name size) s w p = fuse_get_xattr-Served s w ino name size
handle-Served env (remove_xattr ino name) s w p = fuse_remove_xattr-Served s w ino name
handle-Served env (stat_fs ino) s w p = fuse_statfs-Served s w ino
handle-Served env (open_dir ino) s w p = fuse_open_dir-Served s w ino
handle-Served env (release_dir ino) s w p = fuse_release_dir-Served s w ino
handle-Served env (fsync_dir ino) s w p = fuse_fsync_dir-Served s w ino
handle-Served env (fsync ino) s w p = fuse_fsync-Served s w ino
handle-Served env (release ino) s w p = fuse_release-Served s w ino
