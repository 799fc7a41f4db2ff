-- ===== src/FileSystem/Served/Links.antt =====
-- `FuseLink` serves its request, where the new name is free.
use dagon_fs.Prelude.{ℕ, ◌<◌, ◌≡◌, false, some, get_elem?-lt}
use dagon_fs.Map.{Map}
use dagon_fs.Map.Keys.{Name}
use dagon_fs.Blocks.{}
use dagon_fs.Nodes.{number_of_inodes, lookup, add_hard_link, update_child}
use dagon_fs.Nodes.WellFormed.{
  IsWellFormed, lookup-Preserves, add_hard_link-Preserves, update_child-Preserves,
}
use dagon_fs.FileSystem.{children_at, with_inode, Fs, eisdir}
use dagon_fs.FileSystem.Registration.{}
use dagon_fs.FileSystem.Entries.{is_taken, link_entry, fuse_link, is_taken, link_entry, fuse_link}
use dagon_fs.FileSystem.Served.{
  Served, Kept-refl, Kept-modify_inode, with_inode-Served, with_directory-Served,
}
use dagon_fs.FileSystem.Served.Entries.{answer_entry-Served}

module _ (ino newparent : ℕ) (newname : Name) (s : Fs) (w : IsWellFormed s.nodes) where
  link_entry-Served :
      (children : Map Name ℕ)
      → ino < number_of_inodes s.nodes
      → is_taken newname children ≡ false
      → Served s (link_entry ino newparent newname s children)
  unfolding link_entry
  link_entry-Served children h free =
      let n = number_of_inodes s.nodes in
      let named =
        Kept-modify_inode s.nodes s.nodes newparent (update_child newname ino) (Kept-refl s w)
          (update_child-Preserves n newname ino h) in
      let linked =
        Kept-modify_inode s.nodes _ ino add_hard_link named (add_hard_link-Preserves n) in
      rw free (
        answer_entry-Served s w ino _
          (Kept-modify_inode s.nodes _ ino lookup linked (lookup-Preserves n)) h)

  -- The new name is free.
  pub fuse_link-Served :
      ((children : Map Name ℕ)
        → children_at newparent s ≡ some children
        → is_taken newname children ≡ false)
      → Served s (fuse_link ino newparent newname s)
  unfolding fuse_link
  fuse_link-Served free =
      with_directory-Served s w newparent eisdir
        (λ children. with_inode ino s λ target. link_entry ino newparent newname s children)
        λ d children found is_dir. with_inode-Served s w ino _ λ target here.
          link_entry-Served children (get_elem?-lt s.nodes.inodes ino target here)
            (free children (rw found is_dir))
