-- ===== src/FileSystem/Namespace/Trees.antt =====
-- What the steps of the handlers do to the names.
use dagon_fs.Prelude.{
  ℕ, zero, suc, ◌≡◌, refl, ap, sym, ◌∙◌, none, some, List, [], ◌∷◌, ◌++◌, arith, map, get_elem?,
  set, Option-cases, inl, inr, ◌>>=◌, some-injective,
}
use dagon_fs.Map.{Map, insert, erase}
use dagon_fs.Map.Keys.{Name, name_ord}
use dagon_fs.Nodes.{
  INode, Nodes, as_directory, with_children, get_inode, set_inode_at, modify_inode, update_child,
  delete_child,
}
use dagon_fs.FileSystem.{Fs, children_at}
use dagon_fs.FileSystem.Namespace.{Tree, tree_of, dir_at, put}

-- The directories of a list of inodes.
abbrev pub dirs : List INode → Tree
dirs = map as_directory

dir_at-dirs : (i : ℕ) (xs : List INode) → dir_at i (dirs xs) ≡ (get_elem? xs i >>= as_directory)
dir_at-dirs i [] = refl
dir_at-dirs zero (x ∷ xs) = refl
dir_at-dirs (suc i) (x ∷ xs) = dir_at-dirs i xs

pub dir_at-tree_of : (ino : ℕ) (s : Fs) → dir_at ino (tree_of s) ≡ children_at ino s
dir_at-tree_of ino s = dir_at-dirs ino s.nodes.inodes

dirs-set_kept :
    (i : ℕ) (v x : INode) (xs : List INode)
    → get_elem? xs i ≡ some x
    → as_directory v ≡ as_directory x
    → dirs (set xs i v) ≡ dirs xs
dirs-set_kept i v x [] found same = refl
dirs-set_kept zero v x (y ∷ xs) found same =
    ap (λ d. d ∷ dirs xs) (same ∙ ap as_directory (sym (some-injective y x found)))
dirs-set_kept (suc i) v x (y ∷ xs) found same =
    ap (λ t. as_directory y ∷ t) (dirs-set_kept i v x xs found same)

-- An inode of which the children stay.
pub dirs-set_inode_at :
    (ino : ℕ) (v x : INode) (ns : Nodes)
    → get_inode ino ns ≡ some x
    → as_directory v ≡ as_directory x
    → dirs (set_inode_at ino v ns).inodes ≡ dirs ns.inodes
dirs-set_inode_at ino v x ns = dirs-set_kept ino v x ns.inodes

pub dirs-modify_at :
    (ino : ℕ) (f : INode → INode) (ns : Nodes)
    → ((x : INode) → get_inode ino ns ≡ some x → as_directory (f x) ≡ as_directory x)
    → dirs (modify_inode ino f ns).inodes ≡ dirs ns.inodes
unfolding modify_inode
dirs-modify_at ino f ns same = elim (Option-cases (get_inode ino ns)) [
  | inl missing ↦ rw (missing, modify_inode) refl
  | inr (x, found) ↦
      rw (found, modify_inode) (dirs-set_inode_at ino (f x) x ns found (same x found))
]

pub dirs-modify_kept :
    (ino : ℕ) (f : INode → INode) (ns : Nodes)
    → ((x : INode) → as_directory (f x) ≡ as_directory x)
    → dirs (modify_inode ino f ns).inodes ≡ dirs ns.inodes
dirs-modify_kept ino f ns same = dirs-modify_at ino f ns λ x found. same x

as_directory-with_children :
    (f : Map Name ℕ → Map Name ℕ) (x : INode)
    → as_directory (with_children f x) ≡ (as_directory x >>= λ children. some (f children))
as_directory-with_children f x = ground arith

put-set :
    (i : ℕ) (f : Map Name ℕ → Map Name ℕ) (x : INode) (xs : List INode)
    → get_elem? xs i ≡ some x
    → dirs (set xs i (with_children f x)) ≡ put i f (dirs xs)
unfolding put
put-set i f x [] found = cc
put-set zero f x (y ∷ xs) found =
    ap (λ d. d ∷ dirs xs)
      (as_directory-with_children f x
        ∙ ap (λ z. as_directory z >>= λ c. some (f c)) (sym (some-injective y x found)))
put-set (suc i) f x (y ∷ xs) found = ap (λ t. as_directory y ∷ t) (put-set i f x xs found)

put-outside :
    (i : ℕ) (f : Map Name ℕ → Map Name ℕ) (xs : List INode)
    → get_elem? xs i ≡ none
    → put i f (dirs xs) ≡ dirs xs
unfolding put
put-outside i f [] missing = refl
put-outside zero f (y ∷ xs) missing = cc
put-outside (suc i) f (y ∷ xs) missing = ap (λ t. as_directory y ∷ t) (put-outside i f xs missing)

dirs-modify_children :
    (ino : ℕ) (f : Map Name ℕ → Map Name ℕ) (ns : Nodes)
    → dirs (modify_inode ino (with_children f) ns).inodes ≡ put ino f (dirs ns.inodes)
unfolding modify_inode
dirs-modify_children ino f ns = elim (Option-cases (get_inode ino ns)) [
  | inl missing ↦ rw (missing, modify_inode) (sym (put-outside ino f ns.inodes missing))
  | inr (x, found) ↦ rw (found, modify_inode) (put-set ino f x ns.inodes found)
]

pub dirs-update_child :
    (parent : ℕ) (name : Name) (ino : ℕ) (ns : Nodes)
    → dirs (modify_inode parent (update_child name ino) ns).inodes
      ≡ put parent (insert name ino) (dirs ns.inodes)
unfolding update_child
dirs-update_child parent name ino = dirs-modify_children parent (insert name ino)

pub dirs-delete_child :
    (parent : ℕ) (name : Name) (ns : Nodes)
    → dirs (modify_inode parent (delete_child name) ns).inodes
      ≡ put parent (erase name) (dirs ns.inodes)
unfolding delete_child
dirs-delete_child parent name = dirs-modify_children parent (erase name)

pub dirs-append :
    (xs : List INode) (x : INode) → dirs (xs ++ x ∷ []) ≡ dirs xs ++ as_directory x ∷ []
dirs-append [] x = refl
dirs-append (y ∷ xs) x = ap (λ t. as_directory y ∷ t) (dirs-append xs x)
