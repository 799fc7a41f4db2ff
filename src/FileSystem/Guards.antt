-- ===== src/FileSystem/Guards.antt =====
-- The guards of the handlers, where they let a request through.
use dagon_fs.Prelude.{
  ℕ, ◌≡◌, ◌≢◌, ◌∙◌, refl, Option, some, false, arith, leb, ◌==◌, >>=-eq-some, get_elem?-lt,
}
use dagon_fs.Map.{Map, find}
use dagon_fs.Map.Keys.{Name, name_ord}
use dagon_fs.Nodes.{
  INode, number_of_inodes, get_inode, as_directory, no_ino, child_inode_number_with_name,
}
use dagon_fs.FileSystem.{Fs, Errno, with_inode, with_directory, with_child, children_at}

pub with_inode-found :
    (ino : ℕ) (s : Fs) (k : INode → Option Fs) (x : INode)
    → get_inode ino s.nodes ≡ some x
    → with_inode ino s k ≡ k x
with_inode-found ino s k x found =
    let inside : leb (number_of_inodes s.nodes) ino ≡ false =
      ground (arith, get_elem?-lt s.nodes.inodes ino x found) in
    rw (inside, found) refl

pub with_directory-children :
    (ino : ℕ) (wrong : Errno) (s : Fs) (k : Map Name ℕ → Option Fs) (children : Map Name ℕ)
    → children_at ino s ≡ some children
    → with_directory ino wrong s k ≡ k children
with_directory-children ino wrong s k children e =
    let (x, found, is_dir) = >>=-eq-some (get_inode ino s.nodes) as_directory e in
    with_inode-found ino s _ x found ∙ rw is_dir refl

pub with_child-found :
    (name : Name) (children : Map Name ℕ) (s : Fs) (k : ℕ → Option Fs) (ino : ℕ)
    → find name children ≡ some ino
    → ino ≢ no_ino
    → with_child name children s k ≡ k ino
unfolding child_inode_number_with_name
with_child-found name children s k ino e real =
    let other : (ino == no_ino) ≡ false = ground arith in
    rw (e, child_inode_number_with_name, other) refl
