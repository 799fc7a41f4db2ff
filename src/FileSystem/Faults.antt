-- ===== src/FileSystem/Faults.antt =====
-- A request for which a handler goes on after it sent its error.
use dagon_fs.Prelude.{ℕ, ◌≡◌, ◌≢◌, ◌∙◌, refl, sym, some, ◌∷◌, true}
use dagon_fs.Map.{Map, insert}
use dagon_fs.Map.Keys.{Name, name_ord}
use dagon_fs.Map.Laws.{}
use dagon_fs.Nodes.{
  INode, EntryParam, get_inode, modify_inode, as_directory, lookup, add_hard_link, update_child,
}
use dagon_fs.Nodes.Views.{
  view-modify_kept, get_inode-modify_self, get_inode-modify_ne, children-update_child,
  as_directory-lookup, as_directory-add_hard_link,
}
use dagon_fs.FileSystem.{Fs, err, eexist, eisdir, entry, children_at, with_inode, reply, with_nodes}
use dagon_fs.FileSystem.Guards.{with_directory-children, with_inode-found}
use dagon_fs.FileSystem.Inodes.{}
use dagon_fs.FileSystem.Entries.{fuse_link, link_entry, is_taken}

-- Where the new name stands for an inode already, and the target exists and is not the directory,
-- link returns and sends two replies, EEXIST and then an entry, and the name stands for the
-- target.
pub fuse_link-taken :
    (ino newparent : ℕ) (newname : Name) (old : Map Name ℕ) (target : INode) (s : Fs)
    → children_at newparent s ≡ some old
    → is_taken newname old ≡ true
    → get_inode ino s.nodes ≡ some target
    → ino ≢ newparent
    → (s' : Fs) × (p : EntryParam) × (fuse_link ino newparent newname s ≡ some s')
      × (s'.replies ≡ entry p ∷ err eexist ∷ s.replies)
      × (children_at newparent s' ≡ some (insert newname ino old))
unfolding fuse_link link_entry
fuse_link-taken ino newparent newname old target s e taken found other =
    let ns₁ = modify_inode newparent (update_child newname ino) s.nodes in
    let ns₂ = modify_inode ino add_hard_link ns₁ in
    let ns₃ = modify_inode ino lookup ns₂ in
    let here : get_inode ino ns₃ ≡ some (lookup (add_hard_link target)) =
      get_inode-modify_self ino lookup ns₂ (add_hard_link target) (
        get_inode-modify_self ino add_hard_link ns₁ target (
          get_inode-modify_ne newparent ino (update_child newname ino) s.nodes (λ t. other (sym t))
          ∙ found)) in
    (
      reply (entry (lookup (add_hard_link target)).fuse_entry_param)
          (with_nodes (reply (err eexist) s) ns₃),
      (lookup (add_hard_link target)).fuse_entry_param,
      with_directory-children newparent eisdir s
            (λ children. with_inode ino s λ t. link_entry ino newparent newname s children) old e
          ∙ with_inode-found ino s (λ t. link_entry ino newparent newname s old) target found
          ∙ rw (taken, here) refl,
      refl,
      view-modify_kept as_directory ino lookup ns₂ newparent as_directory-lookup
          ∙ view-modify_kept as_directory ino add_hard_link ns₁ newparent as_directory-add_hard_link
          ∙ children-update_child newparent newname ino s.nodes old e,
    )
