-- ===== src/FileSystem/Served/Removal.antt =====
-- The handlers of FileSystem/Removal serve their request.
use dagon_fs.Prelude.{
  ℕ, zero, suc, ◌<◌, ◌≡◌, ◌≢◌, refl, ◌∙◌, inl, inr, ◌&&◌, not, some, arith, Bool-cases, ltb,
  get_elem?-inside, ◌==◌, ◌>>=◌, Option-cases,
}
use dagon_fs.Map.{Map}
use dagon_fs.Map.Keys.{Name}
use dagon_fs.Nodes.{
  INode, Nodes, attr_of, number_of_inodes, get_inode, modify_inode, has_no_links, has_children,
  as_directory, no_ino, remove_hard_link, add_hard_link, delete_child, update_child,
  child_inode_number_with_name,
}
use dagon_fs.Nodes.Views.{
  view, view-modify_kept, as_directory-add_hard_link, as_directory-remove_hard_link,
}
use dagon_fs.Nodes.WellFormed.{
  IsWellFormed, Preserves, remove_hard_link-Preserves, add_hard_link-Preserves,
  delete_child-Preserves, update_child-Preserves,
}
use dagon_fs.FileSystem.{with_directory, Fs, with_nodes, err, success, eperm, eisdir}
use dagon_fs.FileSystem.Removal.{
  rmdir_child, rename_child, unlink_child, fuse_unlink, remove_all_links, unlink_directory,
  fuse_rmdir, rename_links, fuse_rename,
}
use dagon_fs.FileSystem.Served.{
  Served, Kept, Kept-refl, Kept-modify_inode, answer-Served, answer_nodes-Served, get_inode-Served,
  with_directory-Served, with_child-Served, if-Served, child-below,
}

remove_all_links-Preserves : (n rounds : ℕ) → Preserves n (remove_all_links rounds)
unfolding remove_all_links
remove_all_links-Preserves n zero i x g = g
remove_all_links-Preserves n (suc rounds) i x g = elim (Bool-cases (has_no_links x)) [
  | inl bare ↦ rw bare g
  | inr linked ↦ rw linked (
      remove_all_links-Preserves n rounds i (remove_hard_link x)
        (remove_hard_link-Preserves n i x g))
]

module _ (s : Fs) (w : IsWellFormed s.nodes) where
  abbrev n : ℕ
  n = number_of_inodes s.nodes

  pub fuse_unlink-Served : (parent : ℕ) (name : Name) → Served s (fuse_unlink parent name s)
  unfolding fuse_unlink unlink_child
  fuse_unlink-Served parent name =
      with_directory-Served s w parent eisdir _ λ d children found is_dir.
        with_child-Served s w parent d name children _ found is_dir λ ino below.
          get_inode-Served s w ino _ below λ x here. answer_nodes-Served s w (err success) _ (
            Kept-modify_inode s.nodes _ parent (delete_child name)
              (Kept-modify_inode s.nodes _ ino remove_hard_link (Kept-refl s w)
                (remove_hard_link-Preserves n))
              (delete_child-Preserves n name))

  rmdir_child-Served :
      (parent : ℕ) (name : Name) (ino : ℕ) → ino < n → Served s (rmdir_child parent name s ino)
  unfolding rmdir_child
  rmdir_child-Served parent name ino below =
      let (x, here) = get_elem?-inside s.nodes.inodes ino below in
      let rest = λ (entries : Map Name ℕ).
        if-Served s w (has_children entries) _ _ (answer-Served s w (err eperm)) (
          answer_nodes-Served s w (err success) _ (
            Kept-modify_inode s.nodes _ parent (delete_child name)
              (Kept-modify_inode s.nodes _ ino unlink_directory
                (Kept-modify_inode s.nodes _ parent remove_hard_link (Kept-refl s w)
                  (remove_hard_link-Preserves n))
                (λ i y g. remove_all_links-Preserves n (attr_of y).st_nlink i y g))
              (delete_child-Preserves n name))) in
      elim (Option-cases (as_directory x)) [
        | inl other ↦ rw (here, ◌>>=◌, other) (answer-Served s w (err eisdir))
        | inr (entries, is_dir) ↦ rw (here, ◌>>=◌, is_dir) (rest entries)
      ]

  pub fuse_rmdir-Served : (parent : ℕ) (name : Name) → Served s (fuse_rmdir parent name s)
  unfolding fuse_rmdir
  fuse_rmdir-Served parent name =
      with_directory-Served s w parent eisdir _ λ d children found is_dir.
        with_child-Served s w parent d name children (rmdir_child parent name s) found is_dir
          (rmdir_child-Served parent name)

  -- Nodes that differ from the state's in link counts.
  pub record Relinked (ns : Nodes) : Type 0 where
    pub kept : Kept s.nodes ns
    pub children : (j : ℕ) → view as_directory j ns ≡ view as_directory j s.nodes

  unchanged : Relinked s.nodes
  unchanged = record { kept = Kept-refl s w; children = λ j. refl }

  relinked :
      (parent newparent : ℕ)
      → Relinked
          (modify_inode newparent add_hard_link (modify_inode parent remove_hard_link s.nodes))
  relinked parent newparent = record {
    kept =
        Kept-modify_inode s.nodes _ newparent add_hard_link
          (Kept-modify_inode s.nodes _ parent remove_hard_link (Kept-refl s w)
            (remove_hard_link-Preserves n))
          (add_hard_link-Preserves n);
    children = λ j.
        view-modify_kept as_directory newparent add_hard_link _ j as_directory-add_hard_link
        ∙ view-modify_kept as_directory parent remove_hard_link s.nodes j
            as_directory-remove_hard_link;
  }

  pub rename_links-Relinked :
      (parent newparent existing : ℕ)
      → (existing ≢ no_ino → existing < n)
      → (ns : Nodes) × (rename_links parent newparent existing s ≡ some (with_nodes s ns))
        × Relinked ns
  unfolding rename_links
  rename_links-Relinked parent newparent existing below =
      elim (Bool-cases (not (existing == no_ino) && ltb 0 existing)) [
        | inr free ↦ (s.nodes, rw free refl, unchanged)
        | inl taken ↦
            let (x, found) = get_elem?-inside s.nodes.inodes existing (below (ground arith)) in
            elim (Option-cases (as_directory x)) [
              | inl other ↦ (s.nodes, rw (taken, found, ◌>>=◌, other) refl, unchanged)
              | inr (c, is_dir) ↦
                  (_, rw (taken, found, ◌>>=◌, is_dir) refl, relinked parent newparent)
            ]
      ]

  rename_child-Served :
      (parent : ℕ) (name : Name) (newparent : ℕ) (newname : Name) (ino : ℕ) (e : INode)
      (new_children : Map Name ℕ)
      → ino < n
      → get_inode newparent s.nodes ≡ some e
      → as_directory e ≡ some new_children
      → Served s (rename_child parent name newparent newname s ino new_children)
  unfolding rename_child
  rename_child-Served parent name newparent newname ino e new_children below found is_dir =
      let (ns, linked, r) =
        rename_links-Relinked parent newparent (child_inode_number_with_name newname new_children)
          (child-below s w newparent e newname new_children found is_dir) in
      rw linked (
        answer_nodes-Served s w (err success) _ (
          Kept-modify_inode s.nodes _ parent (delete_child name)
            (Kept-modify_inode s.nodes _ newparent (update_child newname ino) r.kept
              (update_child-Preserves n newname ino below))
            (delete_child-Preserves n name)))

  pub fuse_rename-Served :
      (parent : ℕ) (name : Name) (newparent : ℕ) (newname : Name)
      → Served s (fuse_rename parent name newparent newname s)
  unfolding fuse_rename
  fuse_rename-Served parent name newparent newname =
      with_directory-Served s w parent eisdir _ λ d children found is_dir.
        with_child-Served s w parent d name children
          (λ ino.
            with_directory newparent eisdir s (rename_child parent name newparent newname s ino))
          found is_dir
          λ ino below.
            with_directory-Served s w newparent eisdir
              (rename_child parent name newparent newname s ino)
              λ e new_children found_new is_new_dir.
                rename_child-Served parent name newparent newname ino e new_children below found_new
                  is_new_dir
