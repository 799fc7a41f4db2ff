-- ===== src/FileSystem/Removal.antt =====
-- The handlers that take a name out of a directory: unlink, rmdir and rename.
use dagon_fs.Prelude.{ℕ, zero, suc, ◌&&◌, not, Option, none, some, ltb, ◌==◌, if◌then◌else◌, ◌>>=◌}
use dagon_fs.Map.{Map}
use dagon_fs.Map.Keys.{Name}
use dagon_fs.Nodes.{
  INode, attr_of, as_directory, no_ino, get_inode, modify_inode, has_no_links, has_children,
  add_hard_link, remove_hard_link, update_child, delete_child, child_inode_number_with_name,
}
use dagon_fs.FileSystem.{
  Fs, success, eisdir, eperm, err, answer, with_nodes, with_directory, with_child,
}

-- `FuseUnlink`, once the child is found.
unfoldable pub unlink_child : (parent : ℕ) → Name → Fs → (ino : ℕ) → Option Fs
unfolding modify_inode remove_hard_link delete_child
unlink_child parent name s ino = get_inode ino s.nodes >>= λ x. answer (err success) (
    with_nodes s
      (modify_inode parent (delete_child name) (modify_inode ino remove_hard_link s.nodes)))

-- `FuseUnlink`
unfoldable pub fuse_unlink : (parent : ℕ) → Name → Fs → Option Fs
unfolding unlink_child
fuse_unlink parent name s =
    with_directory parent eisdir s
      λ children. with_child name children s (unlink_child parent name s)

-- `while (!dir_p->HasNoLinks()) dir_p->RemoveHardLink();` for at most as many rounds as are given.
unfoldable pub remove_all_links : ℕ → INode → INode
unfolding remove_hard_link
remove_all_links zero x = x
remove_all_links (suc rounds) x =
    let rest = remove_all_links rounds (remove_hard_link x) in if has_no_links x then x else rest

-- The loop, with a round for every link that the directory has.
abbrev pub unlink_directory : INode → INode
unlink_directory x = remove_all_links (attr_of x).st_nlink x

-- `FuseRmdir`, once the child is found.
unfoldable pub rmdir_child : (parent : ℕ) → Name → Fs → (ino : ℕ) → Option Fs
unfolding modify_inode remove_hard_link delete_child remove_all_links
rmdir_child parent name s ino = get_inode ino s.nodes >>= λ x. elim (as_directory x) [
  | none ↦ answer (err eisdir) s
  | some below ↦
      if has_children below
      then answer (err eperm) s
      else answer (err success) (
          with_nodes s (
            modify_inode parent (delete_child name)
              (modify_inode ino unlink_directory (modify_inode parent remove_hard_link s.nodes))))
]

-- `FuseRmdir`
unfoldable pub fuse_rmdir : (parent : ℕ) → Name → Fs → Option Fs
unfolding rmdir_child
fuse_rmdir parent name s =
    with_directory parent eisdir s
      λ children. with_child name children s (rmdir_child parent name s)

-- The link counts that `FuseRename` changes where the new name is that of a directory.
unfoldable pub rename_links : (parent newparent existing : ℕ) → Fs → Option Fs
unfolding modify_inode add_hard_link remove_hard_link
rename_links parent newparent existing s =
    if not (existing == no_ino) && ltb 0 existing
    then (get_inode existing s.nodes >>= λ x. elim (as_directory x) [
      | none ↦ some s
      | some c ↦ some (
          with_nodes s
            (modify_inode newparent add_hard_link (modify_inode parent remove_hard_link s.nodes)))
    ])
    else some s

-- `FuseRename`, once the inode and the new directory are found.
unfoldable pub rename_child :
    (parent : ℕ) → Name → (newparent : ℕ) → Name → Fs → (ino : ℕ) → Map Name ℕ → Option Fs
unfolding rename_links modify_inode update_child delete_child
rename_child parent name newparent newname s ino new_children =
    rename_links parent newparent (child_inode_number_with_name newname new_children) s >>= λ s₁.
    answer (err success) (
      with_nodes s₁ (
        modify_inode parent (delete_child name)
          (modify_inode newparent (update_child newname ino) s₁.nodes)))

-- `FuseRename`
unfoldable pub fuse_rename : (parent : ℕ) → Name → (newparent : ℕ) → Name → Fs → Option Fs
unfolding rename_child
fuse_rename parent name newparent newname s = with_directory parent eisdir s λ children.
    with_child name children s
      λ ino. with_directory newparent eisdir s (rename_child parent name newparent newname s ino)
