-- ===== src/FileSystem/Namespace.antt =====
-- ramfs/FileSystem.cpp, seen through the names only: which directory has which children. This is
-- what the handlers of the table `Requests` promise, without links, times, lookups and replies.
pub mod Shows
pub mod Trees
pub mod Kept
pub mod Added
pub mod Made
pub mod Removed
pub mod Refinement
use dagon_fs.Prelude.{
  ℕ, zero, suc, Option, none, some, List, [], ◌∷◌, ◌++◌, map, length, get_elem?, ltb, leb, ◌==◌,
  if◌then◌else◌, ◌>>=◌,
}
use dagon_fs.Map.{Map, insert, erase}
use dagon_fs.Map.Keys.{Name, name_ord}
use dagon_fs.Nodes.{as_directory, no_ino, child_inode_number_with_name, has_children}
use dagon_fs.FileSystem.{Fs, k_max_filename_length}
use dagon_fs.FileSystem.Entries.{is_dir_mode, is_reg_mode}
use dagon_fs.FileSystem.Requests.{Request}

-- By inode number, the children of a directory, or `none` for an inode that is none.
abbrev pub Tree : Type 0
Tree = List (Option (Map Name ℕ))

abbrev pub tree_of : Fs → Tree
tree_of s = map as_directory s.nodes.inodes

-- The children of a directory.
abbrev pub dir_at : ℕ → Tree → Option (Map Name ℕ)
dir_at ino tree = get_elem? tree ino >>= λ entry. entry

-- The children of a directory are changed.
unfoldable pub put : ℕ → (Map Name ℕ → Map Name ℕ) → Tree → Tree
put ino f [] = []
put zero f (entry ∷ tree) = (entry >>= λ children. some (f children)) ∷ tree
put (suc ino) f (entry ∷ tree) = entry ∷ put ino f tree

-- What happens in a directory; elsewhere nothing does.
abbrev pub in_directory : ℕ → Tree → (Map Name ℕ → Tree) → Tree
in_directory ino tree k = elim (dir_at ino tree) [ none ↦ tree | some children ↦ k children ]

-- What happens to a child; if there is none of the name, nothing does.
abbrev pub in_child : Name → Map Name ℕ → Tree → (ℕ → Tree) → Tree
in_child name children tree k =
    let ino = child_inode_number_with_name name children in if ino == no_ino then tree else k ino

-- A new inode gets the next number and a name.
abbrev pub added : Option (Map Name ℕ) → (parent : ℕ) → Name → Tree → Tree
added entry parent name tree = put parent (insert name (length tree)) (tree ++ entry ∷ [])

-- What a request does to the names.
unfoldable pub renamed_by : Request → Tree → Tree
renamed_by (Request.mknod parent name mode) tree = in_directory parent tree λ children.
    if ltb k_max_filename_length (length name)
    then tree
    else if is_dir_mode mode
    then added (some []) parent name tree
    else if is_reg_mode mode
    then added none parent name tree
    else tree
renamed_by (Request.mkdir parent name) tree =
    in_directory parent tree λ children. added (some []) parent name tree
renamed_by (Request.symlink target parent name) tree =
    in_directory parent tree λ children. added none parent name tree
renamed_by (Request.create parent name truncates) tree = in_directory parent tree λ children.
    if ltb k_max_filename_length (length name) then tree else added none parent name tree
renamed_by (Request.link ino newparent newname) tree =
    in_directory newparent tree
      λ children. if leb (length tree) ino then tree else put newparent (insert newname ino) tree
renamed_by (Request.unlink parent name) tree =
    in_directory parent tree
      λ children. in_child name children tree λ ino. put parent (erase name) tree
renamed_by (Request.rmdir parent name) tree = in_directory parent tree λ children.
    in_child name children tree λ ino.
      in_directory ino tree
        λ below. if has_children below then tree else put parent (erase name) tree
renamed_by (Request.rename parent name newparent newname) tree =
    in_directory parent tree λ children. in_child name children tree λ ino.
      in_directory newparent tree
        λ new_children. put parent (erase name) (put newparent (insert newname ino) tree)
renamed_by _ tree = tree
