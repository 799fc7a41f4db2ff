-- ===== src/Peers/Handlers/Entries.antt =====
-- The parts of the handlers behind their guards do to the file system what those of the
-- client-server program do.
use dagon_fs.Prelude.{
  ℕ, ◌≤◌, refl, Bool, ◌++◌, length, false, Bool-cases, inl, inr, if◌then◌else◌, ge→ltb,
}
use dagon_fs.Map.{Map, erase}
use dagon_fs.Map.Keys.{Name, nat_ord}
use dagon_fs.Nodes.{
  symlink, regular_file, symbolic_link, set_inode_at, modify_inode, add_hard_link, delete_child,
  remove_hard_link, INodeType, directory, as_directory, get_inode, has_children,
}
use dagon_fs.FileSystem.{Env, err, eisdir, eperm, success, create, with_nodes, answer}
use dagon_fs.FileSystem.Entries.{
  mkdir_entry, create_entry, truncated, mknod_entry, symlink_entry, enter, answer_entry,
}
use dagon_fs.FileSystem.Requests.{}
use dagon_fs.FileSystem.Removal.{unlink_child, unlink_directory, rmdir_child, rename_child}
use dagon_fs.Blocks.{create_empty_block_list_for_inode}
use dagon_fs.Peers.{
  rename, rename_packet, create_dir, create_file, delete_file, delete_dir, Peer, get_dir_name,
  send_rename_request, name_size, sending, send_to_all,
}
use dagon_fs.Peers.Handlers.{
  with_fs, peer_mkdir_entry, peer_create_entry, peer_mknod_entry, peer_symlink_entry,
  peer_unlink_child, peer_rmdir_child, peer_rename_child, clear_create_dir, clear_create_file,
  clear_delete_file, clear_delete_dir, slash,
}
use dagon_fs.Peers.Handlers.Refines.{
  Refines, Refines-answer, Refines-if, Refines-bind, Refines-elim, Refines-last, refines_told,
  Refines-register,
}

pub peer_mkdir_entry-Refines :
    (env : Env) (parent : ℕ) (name : Name) (p : Peer)
    → length (get_dir_name parent p ++ (name ++ slash)) ≤ name_size
    → Refines (mkdir_entry env parent name p.fs) (peer_mkdir_entry env parent name p)
unfolding mkdir_entry peer_mkdir_entry
peer_mkdir_entry-Refines env parent name p fits =
    Refines-register env directory 0o40777 2 env.gid env.uid p _ _ λ ino s₁.
      Refines-bind (enter parent name ino s₁) _ _ λ s₂ entered.
        Refines-last (answer_entry ino (with_nodes s₂ (modify_inode parent add_hard_link s₂.nodes)))
          _
          λ s₃.
            refines_told p.flags.create_dir_from_thread create_dir
              (get_dir_name parent p ++ (name ++ slash)) _ clear_create_dir s₃ fits refl
              (λ q. (_, refl, refl))

pub peer_create_entry-Refines :
    (env : Env) (parent : ℕ) (name : Name) (truncates : Bool) (p : Peer)
    → length (get_dir_name parent p ++ name) ≤ name_size
    → Refines
        (create_entry env parent name truncates p.fs)
        (peer_create_entry env parent name truncates p)
unfolding create_entry peer_create_entry
peer_create_entry-Refines env parent name truncates p fits =
    Refines-register env regular_file 0o100777 1 env.ctx_gid env.ctx_uid p _ _ λ ino s₁.
      Refines-bind
        (enter parent name ino (record s₁ {
          cluster = record s₁.cluster {
            blocks = create_empty_block_list_for_inode ino s₁.cluster.blocks;
          };
        }))
        _ _
        λ s₂ entered. Refines-bind (get_inode ino s₂.nodes) _ _ λ x found.
          let y = truncated truncates x in
          Refines-last
            (answer (create y.fuse_entry_param) (with_nodes s₂ (set_inode_at ino y s₂.nodes))) _
            λ s₃.
              refines_told p.flags.create_file_from_thread create_file
                (get_dir_name parent p ++ name)
                (record p { fs = s₃; dir_names = erase ino p.dir_names }) clear_create_file s₃ fits
                refl (λ q. (_, refl, refl))

pub peer_mknod_entry-Refines :
    (env : Env) (type : INodeType) (mode nlink parent : ℕ) (name : Name) (p : Peer)
    → Refines
        (mknod_entry env type mode nlink parent name p.fs)
        (peer_mknod_entry env type mode nlink parent name p)
unfolding mknod_entry peer_mknod_entry
peer_mknod_entry-Refines env type mode nlink parent name p =
    Refines-register env type mode nlink env.ctx_uid env.ctx_gid p _ _ λ ino s₁.
      Refines-bind (enter parent name ino s₁) _ _
        λ s₂ entered. Refines-last (answer_entry ino s₂) _ λ s₃. (_, refl, refl)

pub peer_symlink_entry-Refines :
    (env : Env) (link : Name) (parent : ℕ) (name : Name) (p : Peer)
    → Refines (symlink_entry env link parent name p.fs) (peer_symlink_entry env link parent name p)
unfolding symlink_entry peer_symlink_entry
peer_symlink_entry-Refines env link parent name p =
    Refines-register env symbolic_link 0o120755 1 env.ctx_gid env.ctx_uid p _ _ λ ino s₁.
      Refines-bind
        (enter parent name ino
          (with_nodes s₁ (modify_inode ino (λ x. record x { kind = symlink link }) s₁.nodes)))
        _ _ λ s₂ entered. Refines-last (answer_entry ino s₂) _ λ s₃. (_, refl, refl)

pub peer_unlink_child-Refines :
    (parent : ℕ) (name : Name) (p : Peer) (ino : ℕ)
    → length (get_dir_name parent p ++ name) ≤ name_size
    → Refines (unlink_child parent name p.fs ino) (peer_unlink_child parent name p ino)
unfolding peer_unlink_child
peer_unlink_child-Refines parent name p ino fits =
    Refines-last (unlink_child parent name p.fs ino) _ λ s₃.
      refines_told p.flags.delete_file_from_thread delete_file (get_dir_name parent p ++ name) _
        clear_delete_file s₃ fits refl (λ q. (_, refl, refl))

pub peer_rmdir_child-Refines :
    (parent : ℕ) (name : Name) (p : Peer) (ino : ℕ)
    → length (get_dir_name ino p) ≤ name_size
    → Refines (rmdir_child parent name p.fs ino) (peer_rmdir_child parent name p ino)
unfolding rmdir_child peer_rmdir_child
peer_rmdir_child-Refines parent name p ino fits =
    Refines-bind (get_inode ino p.fs.nodes) _ _ λ x found.
      Refines-elim (as_directory x) _ _ _ _ (Refines-answer (err eisdir) p) λ below is_dir.
        Refines-if (has_children below) _ _ _ _ (Refines-answer (err eperm) p) (
          Refines-last
            (answer (err success) (
              with_nodes p.fs (
                modify_inode parent (delete_child name) (
                  modify_inode ino unlink_directory
                    (modify_inode parent remove_hard_link p.fs.nodes)))))
            _
            λ s₃.
              refines_told p.flags.delete_dir_from_thread delete_dir (get_dir_name ino p)
                (with_fs p s₃) clear_delete_dir s₃ fits refl (λ q. (_, refl, refl)))

pub peer_rename_child-Refines :
    (parent : ℕ) (name : Name) (newparent : ℕ) (newname : Name) (p : Peer) (ino : ℕ)
    (children : Map Name ℕ)
    → length (get_dir_name parent p ++ name) ≤ name_size
    → length (get_dir_name newparent p ++ newname) ≤ name_size
    → Refines
        (rename_child parent name newparent newname p.fs ino children)
        (peer_rename_child parent name newparent newname p ino children)
unfolding peer_rename_child send_rename_request
peer_rename_child-Refines parent name newparent newname p ino children fits fits' =
    Refines-last (rename_child parent name newparent newname p.fs ino children) _ λ s.
      elim (Bool-cases p.flags.rename_from_thread) [
        | inl thread ↦ (
          record p { fs = s; flags = record p.flags { rename_from_thread = false } },
          rw thread refl,
          refl,
        )
        | inr local ↦
            let old_name = get_dir_name parent p ++ name in
            let new_name = get_dir_name newparent p ++ newname in
            (
              sending
                  (send_to_all rename (rename_packet old_name new_name) p.mpi_rank 0
                    p.mpi_world_size)
                  (with_fs p s),
              rw
                  (
                    local,
                    if◌then◌else◌,
                    ge→ltb name_size (length old_name) fits,
                    ge→ltb name_size (length new_name) fits',
                  )
                  refl,
              refl,
            )
      ]
