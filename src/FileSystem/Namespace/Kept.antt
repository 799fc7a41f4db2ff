-- ===== src/FileSystem/Namespace/Kept.antt =====
-- The handlers that leave the names alone.
use dagon_fs.Prelude.{
  ℕ, ◌≡◌, refl, Bool, Option, none, some, List, [], Bool-cases, inl, inr, length, ltb, leb, ◌==◌,
  if◌then◌else◌, ◌&&◌, arith,
}
use dagon_fs.Map.{find}
use dagon_fs.Map.Keys.{Name, name_ord}
use dagon_fs.Cluster.{Byte}
use dagon_fs.Nodes.{
  INode, Stat, ToSet, Kind, file, dir, symlink, special, as_directory, number_of_inodes, get_inode,
  set_inode_at, lookup, forget, is_forgotten, has_no_links, set_inode_attributes, delete_inode,
  child_inode_number_with_name, no_ino,
}
use dagon_fs.Nodes.Views.{}
use dagon_fs.FileSystem.{Fs, Env, Reply, reply, answer, with_nodes, err, enoent, with_inode}
use dagon_fs.FileSystem.Inodes.{
  fuse_get_attr, lookup_child, fuse_lookup, fuse_forget, fuse_set_attr, fuse_read_link, fuse_access,
}
use dagon_fs.FileSystem.Attributes.{
  store_xattr, set_xattr, fuse_set_xattr, get_xattr, fuse_get_xattr, remove_xattr,
  fuse_remove_xattr, fuse_open_dir, fuse_release_dir, fuse_fsync_dir, is_file,
}
use dagon_fs.FileSystem.Files.{release_kind, fuse_release, fuse_fsync, with_kind}
use dagon_fs.FileSystem.Namespace.{tree_of}
use dagon_fs.FileSystem.Namespace.Trees.{dirs-set_inode_at}
use dagon_fs.FileSystem.Namespace.Shows.{
  Shows, Shows-some, Shows-both, Shows-bind, Shows-inode, Shows-elim_both,
}

-- The names that a handler shows are those that were there.
abbrev Keeps : (Fs → Option Fs) → Type 0
Keeps f = (s : Fs) → Shows (tree_of s) (f s)

-- An inode is put in the place of one with the same children.
Shows-set :
    (ino : ℕ) (v x : INode) (r : Reply) (s : Fs)
    → get_inode ino s.nodes ≡ some x
    → as_directory v ≡ as_directory x
    → Shows (tree_of s) (answer r (with_nodes s (set_inode_at ino v s.nodes)))
Shows-set ino v x r s found same =
    Shows-some (tree_of s) _ (dirs-set_inode_at ino v x s.nodes found same)

Shows-answer : (r : Reply) → Keeps (answer r)
Shows-answer r s = Shows-some (tree_of s) (reply r s) refl

unmoved :
    (ino : ℕ) (s : Fs) (k : INode → Option Fs)
    → ((x : INode) → get_inode ino s.nodes ≡ some x → Shows (tree_of s) (k x))
    → Shows (tree_of s) (with_inode ino s k)
unmoved ino s k = Shows-inode s ino (tree_of s) k (Shows-answer (err enoent) s)

pub fuse_get_attr-Shows : (ino : ℕ) → Keeps (fuse_get_attr ino)
unfolding fuse_get_attr
fuse_get_attr-Shows ino s = elim (Bool-cases (leb (number_of_inodes s.nodes) ino)) [
  | inl out ↦
      rw (out, if◌then◌else◌)
        (Shows-bind _ (get_inode ino s.nodes) _ λ x found. Shows-some _ _ refl)
  | inr inside ↦
      rw (inside, if◌then◌else◌)
        (Shows-bind _ (get_inode ino s.nodes) _ λ x found. Shows-answer _ s)
]

pub fuse_lookup-Shows : (parent : ℕ) (name : Name) → Keeps (fuse_lookup parent name)
unfolding fuse_lookup lookup_child lookup
fuse_lookup-Shows parent name s = unmoved parent s _ λ d found.
    Shows-elim_both (as_directory d) (tree_of s) _ _ (Shows-answer (err enoent) s) λ children.
      let ino = child_inode_number_with_name name children in
      Shows-both (ino == no_ino) (tree_of s) _ _ (Shows-answer (err enoent) s) (
        Shows-bind (tree_of s) (get_inode ino s.nodes) _
          λ x here. Shows-set ino (lookup x) x _ s here refl)

pub fuse_forget-Shows : (ino nlookup : ℕ) → Keeps (fuse_forget ino nlookup)
unfolding fuse_forget forget delete_inode
fuse_forget-Shows ino nlookup s = Shows-bind (tree_of s) (get_inode ino s.nodes) _ λ x found.
    let y = forget nlookup x in
    let same = dirs-set_inode_at ino y x s.nodes found refl in
    Shows-both (is_forgotten y && has_no_links y) (tree_of s) _ _ (Shows-some _ _ same)
      (Shows-some _ _ same)

pub fuse_set_attr-Shows :
    (env : Env) (ino : ℕ) (new : Stat) (to_set : ToSet) → Keeps (fuse_set_attr env ino new to_set)
unfolding fuse_set_attr set_inode_attributes
fuse_set_attr-Shows env ino new to_set s = elim (Bool-cases (leb (number_of_inodes s.nodes) ino)) [
  | inl out ↦
      rw (out, if◌then◌else◌)
        (Shows-bind _ (get_inode ino s.nodes) _ λ x found.
          Shows-set ino (set_inode_attributes env.now new to_set x) x _ (reply (err enoent) s) found
            refl)
  | inr inside ↦
      rw (inside, if◌then◌else◌)
        (Shows-bind _ (get_inode ino s.nodes) _
          λ x found. Shows-set ino (set_inode_attributes env.now new to_set x) x _ s found refl)
]

pub fuse_read_link-Shows : (ino : ℕ) → Keeps (fuse_read_link ino)
unfolding fuse_read_link
fuse_read_link-Shows ino s = unmoved ino s _ λ x found. Shows-answer _ s

pub fuse_access-Shows : (env : Env) (ino mask : ℕ) → Keeps (fuse_access env ino mask)
unfolding fuse_access
fuse_access-Shows env ino mask s = unmoved ino s _ λ x found. Shows-answer _ s

pub fuse_fsync-Shows : (ino : ℕ) → Keeps (fuse_fsync ino)
unfolding fuse_fsync
fuse_fsync-Shows ino s = unmoved ino s _ λ x found. Shows-answer _ s

pub fuse_fsync_dir-Shows : (ino : ℕ) → Keeps (fuse_fsync_dir ino)
unfolding fuse_fsync_dir
fuse_fsync_dir-Shows ino s = unmoved ino s _ λ x found. Shows-answer _ s

pub fuse_open_dir-Shows : (ino : ℕ) → Keeps (fuse_open_dir ino)
unfolding fuse_open_dir
fuse_open_dir-Shows ino s =
    unmoved ino s _
      λ x found. Shows-both (is_file x.kind) (tree_of s) _ _ (Shows-answer _ s) (Shows-answer _ s)

pub fuse_release_dir-Shows : (ino : ℕ) → Keeps (fuse_release_dir ino)
unfolding fuse_release_dir
fuse_release_dir-Shows ino s =
    unmoved ino s _
      λ x found. Shows-both (is_file x.kind) (tree_of s) _ _ (Shows-answer _ s) (Shows-answer _ s)

release_kind-Shows :
    (ino : ℕ) (x : INode) (k : Kind) (s : Fs)
    → get_inode ino s.nodes ≡ some x
    → x.kind ≡ k
    → Shows (tree_of s) (release_kind ino x k s)
unfolding release_kind
release_kind-Shows ino x (dir children) s found is = Shows-answer _ s
release_kind-Shows ino x (symlink link) s found is = Shows-answer _ s
release_kind-Shows ino x (special type) s found is = Shows-answer _ s
release_kind-Shows ino x (file m_buf waiting) s found is =
    Shows-set ino (with_kind x (file none waiting)) x _ s found (ground arith)

pub fuse_release-Shows : (ino : ℕ) → Keeps (fuse_release ino)
unfolding fuse_release
fuse_release-Shows ino s = unmoved ino s _ λ x found. release_kind-Shows ino x x.kind s found refl

store_xattr-children :
    (env : Env) (name : Name) (value current : List Byte) (x : INode)
    → as_directory (store_xattr env name value current x).1 ≡ as_directory x
unfolding store_xattr
store_xattr-children env name value current x = ground arith

set_xattr-children :
    (env : Env) (name : Name) (value : List Byte) (creates replaces : Bool) (x : INode)
    → as_directory (set_xattr env name value creates replaces x).1 ≡ as_directory x
unfolding set_xattr
set_xattr-children env name value creates replaces x =
    ground (arith, store_xattr-children env name value [] x)

remove_xattr-children :
    (name : Name) (x : INode) → as_directory (remove_xattr name x).1 ≡ as_directory x
unfolding remove_xattr
remove_xattr-children name x = ground arith

pub fuse_set_xattr-Shows :
    (env : Env) (ino : ℕ) (name : Name) (value : List Byte) (creates replaces : Bool)
    → Keeps (fuse_set_xattr env ino name value creates replaces)
unfolding fuse_set_xattr
fuse_set_xattr-Shows env ino name value creates replaces s = unmoved ino s _ λ x found.
    Shows-set ino (set_xattr env name value creates replaces x).1 x _ s found
      (set_xattr-children env name value creates replaces x)

pub fuse_remove_xattr-Shows : (ino : ℕ) (name : Name) → Keeps (fuse_remove_xattr ino name)
unfolding fuse_remove_xattr
fuse_remove_xattr-Shows ino name s =
    unmoved ino s _
      λ x found. Shows-set ino (remove_xattr name x).1 x _ s found (remove_xattr-children name x)

pub fuse_get_xattr-Shows : (ino : ℕ) (name : Name) (size : ℕ) → Keeps (fuse_get_xattr ino name size)
unfolding fuse_get_xattr
fuse_get_xattr-Shows ino name size s =
    unmoved ino s (λ x. get_xattr name size x s)
      λ x found. Shows-elim_both (find name x.xattr) (tree_of s) _ _ (Shows-answer _ s) λ value.
        Shows-both (size == 0) (tree_of s) _ _ (Shows-answer _ s) (
          Shows-both (ltb (length value) size) (tree_of s) _ _ (Shows-answer _ s)
            (Shows-answer _ s))
