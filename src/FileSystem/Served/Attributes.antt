-- ===== src/FileSystem/Served/Attributes.antt =====
-- The handlers of FileSystem/Attributes, release and fsync serve their request.
use dagon_fs.Prelude.{
  ℕ, ◌≡◌, inl, inr, Bool, none, some, List, [], length, Bool-cases, Option-cases, ltb, ◌==◌,
}
use dagon_fs.Map.{find}
use dagon_fs.Map.Keys.{Name, name_ord}
use dagon_fs.Cluster.{Byte}
use dagon_fs.Nodes.{
  INode, Kind, file, dir, symlink, special, set_inode_at, number_of_inodes, get_inode,
}
use dagon_fs.Nodes.WellFormed.{IsWellFormed, Preserves}
use dagon_fs.FileSystem.{
  Fs, Env, err, success, eisdir, enotdir, enodata, erange, xattr_size, opened, statfs,
}
use dagon_fs.FileSystem.Attributes.{
  store_xattr, set_xattr, remove_xattr, fuse_set_xattr, get_xattr, fuse_get_xattr,
  fuse_remove_xattr, fuse_statfs, fuse_open_dir, fuse_release_dir, fuse_fsync_dir, is_file,
}
use dagon_fs.FileSystem.Files.{with_kind, release_kind, fuse_release, fuse_fsync}
use dagon_fs.FileSystem.Served.{
  Served, Kept-set_inode_at, answer-Served, answer_nodes-Served, with_inode-Served, if-Served,
}

store_xattr-Preserves :
    (n : ℕ) (env : Env) (name : Name) (value current : List Byte)
    → Preserves n (λ x. (store_xattr env name value current x).1)
unfolding store_xattr
store_xattr-Preserves n env name value current i x g =
    elim (Bool-cases (ltb (length current) (length value))) [
      | inr shorter ↦ rw shorter (record { number = g.number; ino = g.ino; children = g.children })
      | inl longer ↦ elim (Bool-cases (env.alloc (length value))) [
        | inl found ↦
            rw (longer, found) (record { number = g.number; ino = g.ino; children = g.children })
        | inr failed ↦
            rw (longer, failed) (record { number = g.number; ino = g.ino; children = g.children })
      ]
    ]

set_xattr-Preserves :
    (n : ℕ) (env : Env) (name : Name) (value : List Byte) (creates replaces : Bool)
    → Preserves n (λ x. (set_xattr env name value creates replaces x).1)
unfolding set_xattr
set_xattr-Preserves n env name value creates replaces i x g =
    elim (Option-cases (find name x.xattr)) [
      | inl missing ↦ elim (Bool-cases creates) [
        | inl yes_flag ↦ rw (missing, set_xattr, yes_flag) g
        | inr no_flag ↦
            rw (missing, set_xattr, no_flag) (store_xattr-Preserves n env name value [] i x g)
      ]
      | inr (current, there) ↦ elim (Bool-cases replaces) [
        | inl yes_flag ↦ rw (there, set_xattr, yes_flag) g
        | inr no_flag ↦
            rw (there, set_xattr, no_flag) (store_xattr-Preserves n env name value current i x g)
      ]
    ]

remove_xattr-Preserves : (n : ℕ) (name : Name) → Preserves n (λ x. (remove_xattr name x).1)
unfolding remove_xattr
remove_xattr-Preserves n name i x g = elim (Option-cases (find name x.xattr)) [
  | inl missing ↦ rw (missing, remove_xattr) g
  | inr (value, there) ↦
      rw (there, remove_xattr) (record { number = g.number; ino = g.ino; children = g.children })
]

module _ (s : Fs) (w : IsWellFormed s.nodes) where
  abbrev n : ℕ
  n = number_of_inodes s.nodes

  pub fuse_set_xattr-Served :
      (env : Env) (ino : ℕ) (name : Name) (value : List Byte) (creates replaces : Bool)
      → Served s (fuse_set_xattr env ino name value creates replaces s)
  unfolding fuse_set_xattr
  fuse_set_xattr-Served env ino name value creates replaces = with_inode-Served s w ino _ λ x here.
      let done = set_xattr env name value creates replaces x in
      answer_nodes-Served s w (err done.0) (set_inode_at ino done.1 s.nodes) (
        Kept-set_inode_at s.nodes ino done.1 w
          (set_xattr-Preserves n env name value creates replaces ino x (w.good ino x here)))

  pub fuse_remove_xattr-Served : (ino : ℕ) (name : Name) → Served s (fuse_remove_xattr ino name s)
  unfolding fuse_remove_xattr
  fuse_remove_xattr-Served ino name = with_inode-Served s w ino _ λ x here.
      let done = remove_xattr name x in
      answer_nodes-Served s w (err done.0) (set_inode_at ino done.1 s.nodes) (
        Kept-set_inode_at s.nodes ino done.1 w
          (remove_xattr-Preserves n name ino x (w.good ino x here)))

  pub fuse_get_xattr-Served :
      (ino : ℕ) (name : Name) (size : ℕ) → Served s (fuse_get_xattr ino name size s)
  unfolding fuse_get_xattr
  fuse_get_xattr-Served ino name size =
      with_inode-Served s w ino (λ x. get_xattr name size x s)
        λ x here. elim (Option-cases (find name x.xattr)) [
          | inl missing ↦ rw (missing, get_xattr) (answer-Served s w (err enodata))
          | inr (value, there) ↦
              rw (there, get_xattr)
                (if-Served s w (size == 0) _ _ (answer-Served s w (xattr_size (length value))) (
                  if-Served s w (ltb (length value) size) _ _ (answer-Served s w (err erange))
                    (answer-Served s w _)))
        ]

  pub fuse_statfs-Served : (ino : ℕ) → Served s (fuse_statfs ino s)
  unfolding fuse_statfs
  fuse_statfs-Served ino = answer-Served s w (statfs s.stbuf)

  pub fuse_open_dir-Served : (ino : ℕ) → Served s (fuse_open_dir ino s)
  unfolding fuse_open_dir
  fuse_open_dir-Served ino = with_inode-Served s w ino _ λ x here.
      if-Served s w (is_file x.kind) _ _ (answer-Served s w (err enotdir))
        (answer-Served s w opened)

  pub fuse_release_dir-Served : (ino : ℕ) → Served s (fuse_release_dir ino s)
  unfolding fuse_release_dir
  fuse_release_dir-Served ino = with_inode-Served s w ino _ λ x here.
      if-Served s w (is_file x.kind) _ _ (answer-Served s w (err enotdir))
        (answer-Served s w (err success))

  pub fuse_fsync_dir-Served : (ino : ℕ) → Served s (fuse_fsync_dir ino s)
  unfolding fuse_fsync_dir
  fuse_fsync_dir-Served ino = with_inode-Served s w ino _ λ x here. answer-Served s w (err success)

  pub fuse_fsync-Served : (ino : ℕ) → Served s (fuse_fsync ino s)
  unfolding fuse_fsync
  fuse_fsync-Served ino = with_inode-Served s w ino _ λ x here. answer-Served s w (err success)

  release_kind-Served :
      (ino : ℕ) (x : INode) (k : Kind)
      → get_inode ino s.nodes ≡ some x
      → Served s (release_kind ino x k s)
  unfolding release_kind
  release_kind-Served ino x (dir children) here = answer-Served s w (err eisdir)
  release_kind-Served ino x (symlink link) here = answer-Served s w (err success)
  release_kind-Served ino x (special type) here = answer-Served s w (err success)
  release_kind-Served ino x (file m_buf waiting) here =
      let g = w.good ino x here in
      answer_nodes-Served s w (err success) _ (
        Kept-set_inode_at s.nodes ino (with_kind x (file none waiting)) w
          (record { number = g.number; ino = g.ino; children = λ children name c e _. cc e }))

  pub fuse_release-Served : (ino : ℕ) → Served s (fuse_release ino s)
  unfolding fuse_release
  fuse_release-Served ino =
      with_inode-Served s w ino (λ x. release_kind ino x x.kind s)
        λ x here. release_kind-Served ino x x.kind here
