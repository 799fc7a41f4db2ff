-- ===== src/FileSystem/Namespace/Refinement.antt =====
-- The handlers of the table `Requests` do to the names what `renamed_by` says.
use dagon_fs.Prelude.{
  ℕ, ◌≡◌, refl, sym, subst, false, some, length, length-map, ltb, leb, if◌then◌else◌,
}
use dagon_fs.Map.{insert}
use dagon_fs.Map.Keys.{Name, name_ord}
use dagon_fs.Blocks.{}
use dagon_fs.Nodes.{
  regular_file, directory, as_directory, number_of_inodes, get_inode, create_empty_inode,
  add_hard_link,
}
use dagon_fs.Nodes.Views.{as_directory-add_hard_link}
use dagon_fs.FileSystem.{Fs, Env, enoent, eisdir, with_inode, k_max_filename_length}
use dagon_fs.FileSystem.Entries.{
  is_dir_mode, is_reg_mode, fuse_mknod, fuse_mkdir, fuse_symlink, fuse_create, link_entry,
  fuse_link,
}
use dagon_fs.FileSystem.Removal.{fuse_unlink, fuse_rmdir, fuse_rename}
use dagon_fs.Nodes.WellFormed.{IsWellFormed}
use dagon_fs.FileSystem.Requests.{Request, handle, IsProper, handle-Served}
use dagon_fs.FileSystem.Served.{}
use dagon_fs.FileSystem.Namespace.{tree_of, put, renamed_by}
use dagon_fs.FileSystem.Namespace.Trees.{dirs-modify_kept}
use dagon_fs.FileSystem.Namespace.Shows.{
  Shows, Shows-some, Shows-if, Shows-bind, Shows-directory, Shows-child,
}
use dagon_fs.FileSystem.Namespace.Made.{
  mknod_entry-Shows, mkdir_entry-Shows, symlink_entry-Shows, create_entry-Shows, link_entry-Shows,
}
use dagon_fs.FileSystem.Namespace.Removed.{
  unlink_child-Shows, rmdir_child-Shows, rename_child-Shows,
}
use dagon_fs.FileSystem.Namespace.Kept.{
  fuse_get_attr-Shows, fuse_lookup-Shows, fuse_forget-Shows, fuse_set_attr-Shows,
  fuse_read_link-Shows, fuse_access-Shows, fuse_set_xattr-Shows, fuse_get_xattr-Shows,
  fuse_remove_xattr-Shows, fuse_open_dir-Shows, fuse_release_dir-Shows, fuse_fsync_dir-Shows,
  fuse_fsync-Shows, fuse_release-Shows,
}
use dagon_fs.FileSystem.Attributes.{fuse_statfs}

fuse_mknod-Shows :
    (env : Env) (parent : ℕ) (name : Name) (mode : ℕ) (s : Fs)
    → s.reclaiming_inodes ≡ false
    → Shows
        (renamed_by (Request.mknod parent name mode) (tree_of s))
        (fuse_mknod env parent name mode s)
unfolding renamed_by fuse_mknod create_empty_inode
fuse_mknod-Shows env parent name mode s fresh = Shows-directory s parent eisdir _ _ λ children here.
    Shows-if (ltb k_max_filename_length (length name)) _ _ _ _ (Shows-some _ _ refl) (
      Shows-if (is_dir_mode mode) _ _ _ _
        (mknod_entry-Shows env directory 0o40777 2 parent name _ (tree_of s) fresh
          (dirs-modify_kept parent add_hard_link s.nodes as_directory-add_hard_link))
        (Shows-if (is_reg_mode mode) _ _ _ _
          (mknod_entry-Shows env regular_file 0o100777 1 parent name s (tree_of s) fresh refl)
          (Shows-some _ _ refl)))

fuse_link-Shows :
    (ino newparent : ℕ) (newname : Name) (s : Fs)
    → Shows
        (renamed_by (Request.link ino newparent newname) (tree_of s))
        (fuse_link ino newparent newname s)
unfolding renamed_by fuse_link
fuse_link-Shows ino newparent newname s = Shows-directory s newparent eisdir _ _ λ children here.
    let linked = put newparent (insert newname ino) (tree_of s) in
    subst
      (λ n.
        Shows (if leb n ino then tree_of s else linked)
          (with_inode ino s λ target. link_entry ino newparent newname s children))
      (sym (length-map as_directory s.nodes.inodes))
      (Shows-if (leb (number_of_inodes s.nodes) ino) _ _ _ _ (Shows-some _ _ refl) (
        Shows-bind linked (get_inode ino s.nodes) _
          λ target found. link_entry-Shows ino newparent newname s children))

pub tree_of-handle :
    (env : Env) (r : Request) (s s' : Fs)
    → s.reclaiming_inodes ≡ false
    → handle env r s ≡ some s'
    → tree_of s' ≡ renamed_by r (tree_of s)
unfolding handle renamed_by fuse_mkdir fuse_symlink fuse_create fuse_unlink fuse_rmdir fuse_rename
    fuse_statfs
tree_of-handle env (Request.get_attr ino) s s' fresh = fuse_get_attr-Shows ino s s'
tree_of-handle env (Request.lookup parent name) s s' fresh = fuse_lookup-Shows parent name s s'
tree_of-handle env (Request.forget ino nlookup) s s' fresh = fuse_forget-Shows ino nlookup s s'
tree_of-handle env (Request.set_attr ino new to_set) s s' fresh =
    fuse_set_attr-Shows env ino new to_set s s'
tree_of-handle env (Request.read_link ino) s s' fresh = fuse_read_link-Shows ino s s'
tree_of-handle env (Request.access ino mask) s s' fresh = fuse_access-Shows env ino mask s s'
tree_of-handle env (Request.mknod parent name mode) s s' fresh =
    fuse_mknod-Shows env parent name mode s fresh s'
tree_of-handle env (Request.mkdir parent name) s s' fresh =
    Shows-directory s parent eisdir _ _ (λ children here. mkdir_entry-Shows env parent name s fresh)
      s'
tree_of-handle env (Request.symlink target parent name) s s' fresh =
    Shows-directory s parent eisdir _ _
      (λ children here. symlink_entry-Shows env target parent name s fresh) s'
tree_of-handle env (Request.create parent name truncates) s s' fresh =
    Shows-directory s parent enoent _ _
      (λ children here.
        Shows-if (ltb k_max_filename_length (length name)) _ _ _ _ (Shows-some _ _ refl)
          (create_entry-Shows env parent name truncates s fresh))
      s'
tree_of-handle env (Request.link ino newparent newname) s s' fresh =
    fuse_link-Shows ino newparent newname s s'
tree_of-handle env (Request.unlink parent name) s s' fresh =
    Shows-directory s parent eisdir _ _
      (λ children here. Shows-child s name children _ _ λ ino. unlink_child-Shows parent name s ino)
      s'
tree_of-handle env (Request.rmdir parent name) s s' fresh =
    Shows-directory s parent eisdir _ _
      (λ children here. Shows-child s name children _ _ λ ino. rmdir_child-Shows parent name s ino)
      s'
tree_of-handle env (Request.rename parent name newparent newname) s s' fresh =
    Shows-directory s parent eisdir _ _
      (λ children here. Shows-child s name children _ _ λ ino.
        Shows-directory s newparent eisdir _ _
          λ new_children there. rename_child-Shows parent name newparent newname s ino new_children)
      s'
tree_of-handle env (Request.set_xattr ino name value creates replaces) s s' fresh =
    fuse_set_xattr-Shows env ino name value creates replaces s s'
tree_of-handle env (Request.get_xattr ino name size) s s' fresh =
    fuse_get_xattr-Shows ino name size s s'
tree_of-handle env (Request.remove_xattr ino name) s s' fresh =
    fuse_remove_xattr-Shows ino name s s'
tree_of-handle env (Request.stat_fs ino) s s' fresh = Shows-some _ _ refl s'
tree_of-handle env (Request.open_dir ino) s s' fresh = fuse_open_dir-Shows ino s s'
tree_of-handle env (Request.release_dir ino) s s' fresh = fuse_release_dir-Shows ino s s'
tree_of-handle env (Request.fsync_dir ino) s s' fresh = fuse_fsync_dir-Shows ino s s'
tree_of-handle env (Request.fsync ino) s s' fresh = fuse_fsync-Shows ino s s'
tree_of-handle env (Request.release ino) s s' fresh = fuse_release-Shows ino s s'

-- On a well-formed file system that does not use the numbers of deleted inodes again, every proper
-- request returns, and what it does to the names, the children of each directory with their
-- numbers, is what `renamed_by` says.
pub handle-renamed_by :
    (env : Env) (r : Request) (s : Fs)
    → IsWellFormed s.nodes
    → IsProper r s
    → s.reclaiming_inodes ≡ false
    → (s' : Fs) × (handle env r s ≡ some s') × (tree_of s' ≡ renamed_by r (tree_of s))
handle-renamed_by env r s w proper fresh =
    let served = handle-Served env r s w proper in
    (served.after, served.returns, tree_of-handle env r s served.after fresh served.returns)
