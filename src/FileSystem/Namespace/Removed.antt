-- ===== src/FileSystem/Namespace/Removed.antt =====
-- What the handlers that take a name out of a directory do to the names.
use dagon_fs.Prelude.{
  ℕ, ◌≡◌, refl, ap, sym, ◌∙◌, subst, none, some, ltb, ◌==◌, if◌then◌else◌, ◌>>=◌, zero, suc,
  Bool-cases, Option-cases, inl, inr, ◌&&◌, not,
}
use dagon_fs.Map.{Map, insert, erase}
use dagon_fs.Map.Keys.{Name, name_ord}
use dagon_fs.Blocks.{}
use dagon_fs.Nodes.{
  INode, as_directory, get_inode, modify_inode, add_hard_link, remove_hard_link, update_child,
  has_children, attr_of, has_no_links, no_ino, child_inode_number_with_name,
}
use dagon_fs.Nodes.Views.{as_directory-add_hard_link, as_directory-remove_hard_link}
use dagon_fs.FileSystem.{Fs}
use dagon_fs.FileSystem.Entries.{}
use dagon_fs.FileSystem.Removal.{
  unlink_child, rmdir_child, remove_all_links, unlink_directory, rename_links, rename_child,
}
use dagon_fs.FileSystem.Requests.{}
use dagon_fs.FileSystem.Namespace.{tree_of, put, in_directory}
use dagon_fs.FileSystem.Namespace.Trees.{
  dir_at-tree_of, dirs-modify_kept, dirs-update_child, dirs-delete_child,
}
use dagon_fs.FileSystem.Namespace.Shows.{
  Shows, Shows-some, Shows-if, Shows-both, Shows-bind, Shows-elim, Shows-elim_both,
}

as_directory-remove_all_links :
    (rounds : ℕ) (x : INode) → as_directory (remove_all_links rounds x) ≡ as_directory x
unfolding remove_all_links
as_directory-remove_all_links zero x = refl
as_directory-remove_all_links (suc rounds) x = elim (Bool-cases (has_no_links x)) [
  | inl gone ↦ rw (gone, if◌then◌else◌) refl
  | inr linked ↦
      rw (linked, if◌then◌else◌)
        (as_directory-remove_all_links rounds (remove_hard_link x)
          ∙ as_directory-remove_hard_link x)
]

pub unlink_child-Shows :
    (parent : ℕ) (name : Name) (s : Fs) (ino : ℕ)
    → Shows (put parent (erase name) (tree_of s)) (unlink_child parent name s ino)
unfolding unlink_child
unlink_child-Shows parent name s ino = Shows-bind _ (get_inode ino s.nodes) _ λ x found.
    Shows-some _ _ (
      dirs-delete_child parent name (modify_inode ino remove_hard_link s.nodes)
      ∙ ap (put parent (erase name))
          (dirs-modify_kept ino remove_hard_link s.nodes as_directory-remove_hard_link))

pub rmdir_child-Shows :
    (parent : ℕ) (name : Name) (s : Fs) (ino : ℕ)
    → Shows
        (in_directory ino
          (tree_of s)
          λ below. if has_children below then tree_of s else put parent (erase name) (tree_of s))
        (rmdir_child parent name s ino)
unfolding rmdir_child
rmdir_child-Shows parent name s ino =
    let ns = modify_inode parent remove_hard_link s.nodes in
    let removed =
      dirs-delete_child parent name (modify_inode ino unlink_directory ns)
      ∙ ap (put parent (erase name)) (
          dirs-modify_kept ino unlink_directory ns
            (λ x. as_directory-remove_all_links (attr_of x).st_nlink x)
          ∙ dirs-modify_kept parent remove_hard_link s.nodes as_directory-remove_hard_link) in
    subst
      (λ o.
        Shows
          (elim o [
            | none ↦ tree_of s
            | some below ↦
                if has_children below then tree_of s else put parent (erase name) (tree_of s)
          ])
          (rmdir_child parent name s ino))
      (sym (dir_at-tree_of ino s))
      (elim (Option-cases (get_inode ino s.nodes)) [
        | inl missing ↦ rw (missing, ◌>>=◌) (λ s' e. cc)
        | inr (x, found) ↦
            rw (found, ◌>>=◌)
              (Shows-elim (as_directory x) (tree_of s) _ _ _ (Shows-some (tree_of s) _ refl)
                λ below is_dir.
                  Shows-if (has_children below) _ _ _ _ (Shows-some (tree_of s) _ refl)
                    (Shows-some _ _ removed))
      ])

rename_links-Shows :
    (parent newparent existing : ℕ) (s : Fs)
    → Shows (tree_of s) (rename_links parent newparent existing s)
unfolding rename_links
rename_links-Shows parent newparent existing s =
    Shows-both (not (existing == no_ino) && ltb 0 existing) (tree_of s) _ _
      (Shows-bind (tree_of s) (get_inode existing s.nodes) _ λ x found.
        Shows-elim_both (as_directory x) (tree_of s) _ _ (Shows-some (tree_of s) s refl) λ c.
          Shows-some (tree_of s) _ (
            dirs-modify_kept newparent add_hard_link (modify_inode parent remove_hard_link s.nodes)
              as_directory-add_hard_link
            ∙ dirs-modify_kept parent remove_hard_link s.nodes as_directory-remove_hard_link))
      (Shows-some (tree_of s) s refl)

pub rename_child-Shows :
    (parent : ℕ) (name : Name) (newparent : ℕ) (newname : Name) (s : Fs) (ino : ℕ)
    (new_children : Map Name ℕ)
    → Shows
        (put parent (erase name) (put newparent (insert newname ino) (tree_of s)))
        (rename_child parent name newparent newname s ino new_children)
unfolding rename_child
rename_child-Shows parent name newparent newname s ino new_children =
    let existing = child_inode_number_with_name newname new_children in
    Shows-bind _ (rename_links parent newparent existing s) _ λ s₁ linked. Shows-some _ _ (
      dirs-delete_child parent name (modify_inode newparent (update_child newname ino) s₁.nodes)
      ∙ ap (put parent (erase name)) (
          dirs-update_child newparent newname ino s₁.nodes
          ∙ ap (put newparent (insert newname ino))
              (rename_links-Shows parent newparent existing s s₁ linked)))
