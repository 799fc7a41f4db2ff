-- ===== src/FileSystem/Served/Inodes.antt =====
-- The handlers of FileSystem/Inodes serve their request.
use dagon_fs.Prelude.{ℕ, ◌<◌, ◌≡◌, refl, inl, inr, false, ◌&&◌, arith, Bool-cases, leb}
use dagon_fs.Map.Keys.{Name}
use dagon_fs.Nodes.{
  Stat, ToSet, attr_of, number_of_inodes, set_inode_at, delete_inode, lookup, forget, is_forgotten,
  has_no_links, set_inode_attributes,
}
use dagon_fs.Nodes.WellFormed.{
  IsWellFormed, lookup-Preserves, forget-Preserves, with_attr-Preserves, AllBelow-append,
}
use dagon_fs.FileSystem.{Fs, Env, none_reply, entry, attr, enoent}
use dagon_fs.FileSystem.Inodes.{
  lookup_child, fuse_get_attr, fuse_lookup, fuse_forget, fuse_set_attr, fuse_read_link, fuse_access,
}
use dagon_fs.FileSystem.Served.{
  Served, Kept-set_inode_at, answer-Served, answer_nodes-Served, get_inode-Served,
  with_inode-Served, with_directory-Served, with_child-Served,
}

module _ (s : Fs) (w : IsWellFormed s.nodes) where
  pub fuse_lookup-Served : (parent : ℕ) (name : Name) → Served s (fuse_lookup parent name s)
  unfolding fuse_lookup lookup_child
  fuse_lookup-Served parent name =
      with_directory-Served s w parent enoent _ λ d children found is_dir.
        with_child-Served s w parent d name children (lookup_child s) found is_dir λ ino below.
          get_inode-Served s w ino _ below λ x here.
            answer_nodes-Served s w (entry x.fuse_entry_param) (set_inode_at ino (lookup x) s.nodes)
              (Kept-set_inode_at s.nodes ino (lookup x) w
                (lookup-Preserves (number_of_inodes s.nodes) ino x (w.good ino x here)))

  pub fuse_get_attr-Served :
      (ino : ℕ) → ino < number_of_inodes s.nodes → Served s (fuse_get_attr ino s)
  unfolding fuse_get_attr
  fuse_get_attr-Served ino h =
      let inside : leb (number_of_inodes s.nodes) ino ≡ false = ground arith in
      rw inside (get_inode-Served s w ino _ h λ x here. answer-Served s w (attr (attr_of x)))

  pub fuse_set_attr-Served :
      (env : Env) (ino : ℕ) (new : Stat) (to_set : ToSet)
      → ino < number_of_inodes s.nodes
      → Served s (fuse_set_attr env ino new to_set s)
  unfolding fuse_set_attr set_inode_attributes
  fuse_set_attr-Served env ino new to_set h =
      let inside : leb (number_of_inodes s.nodes) ino ≡ false = ground arith in
      let set_attr = set_inode_attributes env.now new to_set in
      rw inside (
        get_inode-Served s w ino _ h λ x here.
          answer_nodes-Served s w (attr (attr_of (set_attr x)))
            (set_inode_at ino (set_attr x) s.nodes)
            (Kept-set_inode_at s.nodes ino (set_attr x) w (
              with_attr-Preserves (number_of_inodes s.nodes) (λ y. attr_of (set_attr y)) ino x
                (w.good ino x here))))

  pub fuse_read_link-Served : (ino : ℕ) → Served s (fuse_read_link ino s)
  unfolding fuse_read_link
  fuse_read_link-Served ino = with_inode-Served s w ino _ λ x here. answer-Served s w _

  pub fuse_access-Served : (env : Env) (ino mask : ℕ) → Served s (fuse_access env ino mask s)
  unfolding fuse_access
  fuse_access-Served env ino mask = with_inode-Served s w ino _ λ x here. answer-Served s w _

  -- The inode has to exist: `FuseForget` has no guard.
  pub fuse_forget-Served :
      (ino nlookup : ℕ) → ino < number_of_inodes s.nodes → Served s (fuse_forget ino nlookup s)
  unfolding fuse_forget delete_inode
  fuse_forget-Served ino nlookup h = get_inode-Served s w ino _ h λ x here.
      let y = forget nlookup x in
      let kept =
        Kept-set_inode_at s.nodes ino y w
          (forget-Preserves (number_of_inodes s.nodes) nlookup ino x (w.good ino x here)) in
      elim (Bool-cases (is_forgotten y && has_no_links y)) [
        | inl gone ↦ rw gone (record {
          after = _;
          returns = refl;
          wf = record {
            good = kept.wf.good;
            queue =
                AllBelow-append _ s.nodes.deleted_inodes ino kept.wf.queue
                  (omega (arith, h, kept.count));
          };
          grows = omega (arith, kept.count);
          sent = none_reply;
          one_reply = refl;
        })
        | inr stays ↦
            rw stays (answer_nodes-Served s w none_reply (set_inode_at ino y s.nodes) kept)
      ]
