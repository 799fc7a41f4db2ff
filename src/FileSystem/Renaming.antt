-- ===== src/FileSystem/Renaming.antt =====
-- What rename does to the tree.
use dagon_fs.Prelude.{
  ℕ, ◌≡◌, ◌≢◌, ◌∙◌, refl, sym, ap, ◌⊎◌, inl, inr, Option, none, some, ◌∷◌, ℕ_discrete, false, subst,
  ◌>>=◌, >>=-eq-some,
}
use dagon_fs.Map.{Map, find, insert}
use dagon_fs.Map.Keys.{Name, name_ord}
use dagon_fs.Map.Laws.{same, find-insert_self, find-erase, find-erase_self}
use dagon_fs.Nodes.{
  Nodes, get_inode, modify_inode, as_directory, no_ino, update_child, delete_child,
  child_inode_number_with_name,
}
use dagon_fs.Nodes.WellFormed.{IsWellFormed}
use dagon_fs.Nodes.Views.{view, view-modify_ne, children-update_child, children-delete_child}
use dagon_fs.FileSystem.{Fs, success, err, eisdir, children_at, answer, with_nodes, with_directory}
use dagon_fs.FileSystem.Guards.{with_directory-children, with_child-found}
use dagon_fs.FileSystem.Removal.{fuse_rename, rename_child}
use dagon_fs.FileSystem.Served.{child-below}
use dagon_fs.FileSystem.Served.Removal.{Relinked, rename_links-Relinked}

-- The child that a name stands for in the directory at a number.
abbrev pub child_at : ℕ → Name → Fs → Option ℕ
child_at dir name s = children_at dir s >>= find name

pub record Moved (parent : ℕ) (name : Name) (newparent : ℕ) (newname : Name) (ino : ℕ) (s s' : Fs)
    : Type 0 where
  pub gone : child_at parent name s' ≡ none
  pub arrived : child_at newparent newname s' ≡ some ino
  pub others : (j : ℕ) → (parent ≡ j) ⊎ ((newparent ≡ j) ⊎ (children_at j s' ≡ children_at j s))
  pub answered : s'.replies ≡ err success ∷ s.replies

-- The two updates of directories in `FuseRename`.
abbrev renamed : (parent : ℕ) → Name → (newparent : ℕ) → Name → ℕ → Nodes → Nodes
renamed parent name newparent newname ino ns =
    modify_inode parent (delete_child name) (modify_inode newparent (update_child newname ino) ns)

module _ (parent : ℕ) (name : Name) (newparent : ℕ) (newname : Name) (ino : ℕ) (ns : Nodes)
    (old new : Map Name ℕ) (has : view as_directory parent ns ≡ some old)
    (has_new : view as_directory newparent ns ≡ some new) where
  abbrev updated : Nodes
  updated = modify_inode newparent (update_child newname ino) ns

  abbrev after : Nodes
  after = renamed parent name newparent newname ino ns

  -- The old directory, with the new name in it if it is the new directory too.
  old_directory : (c : Map Name ℕ) × (view as_directory parent updated ≡ some c)
  old_directory = elim (ℕ_discrete newparent parent) [
    | yes one ↦ (
      insert newname ino new,
      subst (λ t. view as_directory t updated ≡ some (insert newname ino new)) one
          (children-update_child newparent newname ino ns new has_new),
    )
    | no two ↦
        (old, view-modify_ne as_directory newparent (update_child newname ino) ns parent two ∙ has)
  ]

  renamed-gone : view as_directory parent after >>= find name ≡ none
  renamed-gone =
      let (c, seen) = old_directory in
      ap (λ o. o >>= find name) (children-delete_child parent name updated c seen)
      ∙ find-erase_self name c

  renamed-arrived :
      (newparent ≢ parent) ⊎ (same newname name ≡ false)
      → view as_directory newparent after >>= find newname ≡ some ino
  renamed-arrived differ =
      let there = children-update_child newparent newname ino ns new has_new in
      let inserted = find-insert_self newname ino new in
      elim (ℕ_discrete newparent parent) [
        | no two ↦
            ap (λ o. o >>= find newname)
              (view-modify_ne as_directory parent (delete_child name) updated newparent
                  (λ t. two (sym t))
                ∙ there)
            ∙ inserted
        | yes one ↦
            let names : same newname name ≡ false = elim differ [
              | inl two ↦ absurd (two one)
              | inr d ↦ d
            ] in
            subst (λ t. view as_directory t after >>= find newname ≡ some ino) (sym one)
              (ap (λ o. o >>= find newname)
                  (children-delete_child parent name updated (insert newname ino new) (
                    subst (λ t. view as_directory t updated ≡ some (insert newname ino new)) one
                      there))
                ∙ find-erase newname name (insert newname ino new)
                ∙ rw names inserted)
      ]

  renamed-others :
      (j : ℕ)
      → (parent ≡ j) ⊎ ((newparent ≡ j) ⊎ (view as_directory j after ≡ view as_directory j ns))
  renamed-others j = elim (ℕ_discrete parent j) [
    | yes here ↦ inl here
    | no other ↦ elim (ℕ_discrete newparent j) [
      | yes there ↦ inr (inl there)
      | no another ↦ inr (
          inr (
            view-modify_ne as_directory parent (delete_child name) updated j other
            ∙ view-modify_ne as_directory newparent (update_child newname ino) ns j another))
    ]
  ]

-- The state that `FuseRename` leaves.
rename_lem :
    (parent : ℕ) (name : Name) (newparent : ℕ) (newname : Name) (ino : ℕ) (old new : Map Name ℕ)
    (s : Fs) (w : IsWellFormed s.nodes)
    → children_at parent s ≡ some old
    → find name old ≡ some ino
    → ino ≢ no_ino
    → children_at newparent s ≡ some new
    → (ns : Nodes) × Relinked s w ns
      × (fuse_rename parent name newparent newname s
          ≡ answer (err success) (with_nodes s (renamed parent name newparent newname ino ns)))
unfolding fuse_rename rename_child
rename_lem parent name newparent newname ino old new s w e is_child real f =
    let (d, found, is_dir) = >>=-eq-some (get_inode newparent s.nodes) as_directory f in
    let (ns, linked, r) =
      rename_links-Relinked s w parent newparent (child_inode_number_with_name newname new)
        (child-below s w newparent d newname new found is_dir) in
    (
      ns,
      r,
      with_directory-children parent eisdir s _ old e
          ∙ with_child-found name old s
              (λ i.
                with_directory newparent eisdir s (rename_child parent name newparent newname s i))
              ino is_child real
          ∙ with_directory-children newparent eisdir s
              (rename_child parent name newparent newname s ino) new f
          ∙ rw linked refl,
    )

-- On a well-formed file system, where the name stands for an inode (whose number is not -1), the
-- new parent is a directory, and the two directories or the two names differ: rename returns and
-- replies with success, the old name stands for nothing, the new name stands for the inode, and
-- all other directories keep their children.
pub fuse_rename-Moved :
    (parent : ℕ) (name : Name) (newparent : ℕ) (newname : Name) (ino : ℕ) (old new : Map Name ℕ)
    (s : Fs)
    → IsWellFormed s.nodes
    → children_at parent s ≡ some old
    → find name old ≡ some ino
    → ino ≢ no_ino
    → children_at newparent s ≡ some new
    → (newparent ≢ parent) ⊎ (same newname name ≡ false)
    → (s' : Fs) × (fuse_rename parent name newparent newname s ≡ some s')
      × Moved parent name newparent newname ino s s'
fuse_rename-Moved parent name newparent newname ino old new s w e is_child real f differ =
    let (ns, r, done) =
      rename_lem parent name newparent newname ino old new s w e is_child real f in
    let has = r.children parent ∙ e in
    let has_new = r.children newparent ∙ f in
    (
      _,
      done,
      record {
        gone = renamed-gone parent name newparent newname ino ns old new has has_new;
        arrived = renamed-arrived parent name newparent newname ino ns old new has has_new differ;
        others = λ j.
            elim (renamed-others parent name newparent newname ino ns old new has has_new j) [
              | inl here ↦ inl here
              | inr (inl there) ↦ inr (inl there)
              | inr (inr kept) ↦ inr (inr (kept ∙ r.children j))
            ];
        answered = refl;
      },
    )

-- On a well-formed file system, where the name stands for an inode (whose number is not -1), the
-- rename of the name to itself returns and replies with success, and the name is gone.
pub fuse_rename_self :
    (parent : ℕ) (name : Name) (ino : ℕ) (old : Map Name ℕ) (s : Fs)
    → IsWellFormed s.nodes
    → children_at parent s ≡ some old
    → find name old ≡ some ino
    → ino ≢ no_ino
    → (s' : Fs) × (fuse_rename parent name parent name s ≡ some s')
      × (child_at parent name s' ≡ none)
      × (s'.replies ≡ err success ∷ s.replies)
fuse_rename_self parent name ino old s w e is_child real =
    let (ns, r, done) = rename_lem parent name parent name ino old old s w e is_child real e in
    let has = r.children parent ∙ e in
    (_, done, renamed-gone parent name parent name ino ns old old has has, refl)
