-- ===== src/FileSystem/Unlinking.antt =====
-- What unlink and rmdir do to the tree.
use dagon_fs.Prelude.{
  ℕ, ◌≡◌, ◌≢◌, ◌∙◌, refl, sym, ap, some, ◌∷◌, arith, ◌⊎◌, ℕ_discrete, some-injective, Bool-cases,
  inl, inr, zero, suc, ◌≤◌, ◌<◌, true, false, ◌>>=◌, get_elem?-inside, >>=-eq-some,
}
use dagon_fs.Map.{Map, find, erase}
use dagon_fs.Map.Keys.{Name, name_ord}
use dagon_fs.Nodes.{
  has_children, has_no_links, sub64, INode, get_inode, modify_inode, as_directory, no_ino,
  remove_hard_link, delete_child, attr_of,
}
use dagon_fs.Nodes.WellFormed.{IsWellFormed}
use dagon_fs.Nodes.Views.{
  get_inode-modify_ne, links-remove_hard_link, children-delete_child, fewer_links, view, links,
  view-modify_self, view-modify_ne, view-modify_kept, as_directory-remove_hard_link,
  links-delete_child,
}
use dagon_fs.FileSystem.{Fs, success, eperm, err, eisdir, children_at, reply, answer, with_nodes}
use dagon_fs.FileSystem.Guards.{with_directory-children, with_child-found}
use dagon_fs.FileSystem.Removal.{
  unlink_child, fuse_unlink, fuse_rmdir, rmdir_child, remove_all_links, unlink_directory,
}

pub record Unlinked (parent : ℕ) (name : Name) (ino k : ℕ) (old : Map Name ℕ) (s s' : Fs)
    : Type 0 where
  pub erased : children_at parent s' ≡ some (erase name old)
  pub others : (j : ℕ) → (parent ≡ j) ⊎ (children_at j s' ≡ children_at j s)
  pub fewer : view links ino s'.nodes ≡ some (sub64 k 1)
  pub answered : s'.replies ≡ err success ∷ s.replies

-- On a well-formed file system, where the name stands for an inode (whose number is not -1) with
-- k links: unlink returns and replies with success, the name is erased from the directory, all
-- other directories keep their children, and the inode has k - 1 links, on 64 bits.
pub fuse_unlink-Unlinked :
    (parent : ℕ) (name : Name) (ino k : ℕ) (old : Map Name ℕ) (s : Fs)
    → IsWellFormed s.nodes
    → children_at parent s ≡ some old
    → find name old ≡ some ino
    → ino ≢ no_ino
    → view links ino s.nodes ≡ some k
    → (s' : Fs) × (fuse_unlink parent name s ≡ some s') × Unlinked parent name ino k old s s'
unfolding fuse_unlink unlink_child
fuse_unlink-Unlinked parent name ino k old s w e is_child real counted =
    let (d, found, is_dir) = >>=-eq-some (get_inode parent s.nodes) as_directory e in
    let (x, here) =
      get_elem?-inside s.nodes.inodes ino
        ((w.good parent d found).children old name ino is_dir is_child) in
    let less = modify_inode ino remove_hard_link s.nodes in
    (
      reply (err success) (with_nodes s (modify_inode parent (delete_child name) less)),
      with_directory-children parent eisdir s _ old e
          ∙ with_child-found name old s (unlink_child parent name s) ino is_child real
          ∙ rw here refl,
      record {
        erased = children-delete_child parent name less old (
            view-modify_kept as_directory ino remove_hard_link s.nodes parent
              as_directory-remove_hard_link
            ∙ e);
        others = λ j. elim (ℕ_discrete parent j) [
          | yes same ↦ inl same
          | no other ↦ inr (
              view-modify_ne as_directory parent (delete_child name) less j other
              ∙ view-modify_kept as_directory ino remove_hard_link s.nodes j
                  as_directory-remove_hard_link)
        ];
        fewer =
            view-modify_kept links parent (delete_child name) less ino (links-delete_child name)
            ∙ fewer_links ino s.nodes k counted;
        answered = refl;
      },
    )

-- The loop of `FuseRmdir` ends with no link left, after a round for each.
remove_all_links-bare :
    (rounds : ℕ) (x : INode)
    → (attr_of x).st_nlink ≤ rounds
    → (attr_of x).st_nlink < 18446744073709551616
    → links (remove_all_links rounds x) ≡ some 0
unfolding remove_all_links
remove_all_links-bare zero x h small = ap some (omega arith)
remove_all_links-bare (suc rounds) x h small = elim (Bool-cases (has_no_links x)) [
  | inl bare ↦ rw bare (ap some (ground arith))
  | inr linked ↦
      let e : (attr_of (remove_hard_link x)).st_nlink ≡ sub64 (attr_of x).st_nlink 1 =
        some-injective _ _ (links-remove_hard_link x) in
      let some_links : 0 < (attr_of x).st_nlink = ground arith in
      rw linked (remove_all_links-bare rounds (remove_hard_link x) (omega arith) (omega arith))
]

as_directory-remove_all_links :
    (rounds : ℕ) (x : INode) → as_directory (remove_all_links rounds x) ≡ as_directory x
unfolding remove_all_links
as_directory-remove_all_links zero x = refl
as_directory-remove_all_links (suc rounds) x = elim (Bool-cases (has_no_links x)) [
  | inl bare ↦ rw bare refl
  | inr linked ↦
      rw linked (
        as_directory-remove_all_links rounds (remove_hard_link x) ∙ as_directory-remove_hard_link x)
]

-- Where the name stands for a directory (whose number is not -1) that has children, rmdir replies
-- with EPERM and changes nothing else.
fuse_rmdir-full :
    (parent : ℕ) (name : Name) (ino : ℕ) (old below : Map Name ℕ) (s : Fs)
    → children_at parent s ≡ some old
    → find name old ≡ some ino
    → ino ≢ no_ino
    → children_at ino s ≡ some below
    → has_children below ≡ true
    → fuse_rmdir parent name s ≡ answer (err eperm) s
unfolding fuse_rmdir rmdir_child
fuse_rmdir-full parent name ino old below s e is_child real inner full =
    let (x, here, is_dir) = >>=-eq-some (get_inode ino s.nodes) as_directory inner in
    with_directory-children parent eisdir s _ old e
    ∙ with_child-found name old s (rmdir_child parent name s) ino is_child real
    ∙ rw (here, ◌>>=◌, is_dir, full) refl

pub record Removed (parent : ℕ) (name : Name) (ino m : ℕ) (old : Map Name ℕ) (s s' : Fs)
    : Type 0 where
  pub erased : children_at parent s' ≡ some (erase name old)
  pub others : (j : ℕ) → (parent ≡ j) ⊎ (children_at j s' ≡ children_at j s)
  pub no_links : view links ino s'.nodes ≡ some 0
  pub fewer : view links parent s'.nodes ≡ some (sub64 m 1)
  pub answered : s'.replies ≡ err success ∷ s.replies

-- Where the name stands for a directory (whose number is neither -1 nor that of its parent)
-- without children, with k < 2 ^ 64 links, and the parent has m links: rmdir returns and replies
-- with success, the name is erased, all other directories keep their children, the removed
-- directory has no links, and the parent has m - 1, on 64 bits.
pub fuse_rmdir-Removed :
    (parent : ℕ) (name : Name) (ino : ℕ) (old below : Map Name ℕ) (s : Fs) (k m : ℕ)
    → children_at parent s ≡ some old
    → find name old ≡ some ino
    → ino ≢ no_ino
    → ino ≢ parent
    → children_at ino s ≡ some below
    → has_children below ≡ false
    → view links ino s.nodes ≡ some k
    → view links parent s.nodes ≡ some m
    → k < 18446744073709551616
    → (s' : Fs) × (fuse_rmdir parent name s ≡ some s') × Removed parent name ino m old s s'
unfolding fuse_rmdir rmdir_child
fuse_rmdir-Removed parent name ino old below s k m e is_child real other inner empty counted linked
      small =
    let (x, here, is_dir) = >>=-eq-some (get_inode ino s.nodes) as_directory inner in
    let ns₁ = modify_inode parent remove_hard_link s.nodes in
    let ns₂ = modify_inode ino unlink_directory ns₁ in
    let same : (attr_of x).st_nlink ≡ k = some-injective _ _ (rw here at counted) in
    let seen : (j : ℕ) → view as_directory j ns₂ ≡ children_at j s = λ j.
      view-modify_kept as_directory ino unlink_directory ns₁ j
        (λ y. as_directory-remove_all_links (attr_of y).st_nlink y)
      ∙ view-modify_kept as_directory parent remove_hard_link s.nodes j
          as_directory-remove_hard_link in
    (
      reply (err success) (with_nodes s (modify_inode parent (delete_child name) ns₂)),
      with_directory-children parent eisdir s _ old e
          ∙ with_child-found name old s (rmdir_child parent name s) ino is_child real
          ∙ rw (here, ◌>>=◌, is_dir, empty) refl,
      record {
        erased = children-delete_child parent name ns₂ old (seen parent ∙ e);
        others = λ j. elim (ℕ_discrete parent j) [
          | yes same ↦ inl same
          | no different ↦
              inr (view-modify_ne as_directory parent (delete_child name) ns₂ j different ∙ seen j)
        ];
        no_links =
            view-modify_kept links parent (delete_child name) ns₂ ino (links-delete_child name)
            ∙ view-modify_self links ino unlink_directory ns₁ x (
                get_inode-modify_ne parent ino remove_hard_link s.nodes (λ t. other (sym t)) ∙ here)
            ∙ remove_all_links-bare (attr_of x).st_nlink x (omega arith) (omega arith);
        fewer =
            view-modify_kept links parent (delete_child name) ns₂ parent (links-delete_child name)
            ∙ view-modify_ne links ino unlink_directory ns₁ parent other
            ∙ fewer_links parent s.nodes m linked;
        answered = refl;
      },
    )
