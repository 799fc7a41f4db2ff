-- ===== src/Peers/Handlers/Broadcast.antt =====
-- What the handlers of the peer-to-peer program send to the other processes.
use dagon_fs.Prelude.{
  inr, Each-some, Each-if, Each-bind, Each-elim, ℕ, ◌≡◌, ◌⊎◌, inl, refl, ap, sym, ◌∙◌, some, List,
  ◌++◌, length, ltb,
}
use dagon_fs.Map.{erase}
use dagon_fs.Map.Keys.{nat_ord}
use dagon_fs.Nodes.{
  symlink, has_children, regular_file, symbolic_link, directory, modify_inode, add_hard_link,
  as_directory, get_inode,
}
use dagon_fs.FileSystem.{
  create, success, err, eperm, enametoolong, k_max_filename_length, with_nodes, Env, enoent, eisdir,
}
use dagon_fs.FileSystem.Requests.{Request, handle}
use dagon_fs.Peers.{Peer, Packet, get_dir_name, create_file, delete_file, create_dir, delete_dir}
use dagon_fs.Peers.Shared.{
  peer_get_attr, peer_lookup, peer_forget, peer_set_attr, peer_read_link, peer_access, peer_link,
  peer_set_xattr, peer_get_xattr, peer_remove_xattr, peer_statfs, peer_open_dir, peer_release_dir,
  peer_fsync_dir, peer_fsync, peer_release,
}
use dagon_fs.Peers.Handlers.{
  peer_handle, peer_mkdir, peer_mkdir_entry, peer_create, peer_create_entry, peer_mknod,
  peer_mknod_entry, peer_symlink, peer_symlink_entry, peer_unlink, peer_unlink_child, peer_rmdir,
  peer_rmdir_child, peer_rename, peer_rename_child, peer_with_directory, with_fs, slash,
  clear_create_dir, clear_create_file, clear_delete_file, clear_delete_dir,
}
use dagon_fs.Peers.Handlers.Refinement.{child_number, number_in}
use dagon_fs.FileSystem.Entries.{truncated, is_dir_mode, is_reg_mode, enter, answer_entry}
use dagon_fs.FileSystem.Removal.{unlink_child, rename_child}
use dagon_fs.Blocks.{create_empty_block_list_for_inode}
use dagon_fs.Peers.Handlers.Each.{Each-directory, Each-child, Each-register, Each-told, added}
use dagon_fs.Peers.Handlers.Announcing.{
  answer_entry-Succeeds, unlink_child-Succeeds, rename_child-Succeeds, Told, Refused, Outcome,
  refused, enoent_wrong, eisdir_wrong, silent, quiet, mknod_entry-quiet, rename_told,
}

-- A handler of the peer-to-peer program that leaves a state has announced its request to all
-- processes, unless the flag of the request said that it came from one of them, and has cleared
-- the flag, and a request that it has announced was not answered by an error; or it has replied an error, has announced nothing and has left the flags as they were.
-- The requests that no other process is told of are announced by no packets.
pub peer_handle-Told :
    (env : Env) (r : Request) (p q : Peer) → peer_handle env r p ≡ some q → Told r p q ⊎ Refused p q
unfolding handle peer_handle peer_get_attr peer_lookup peer_forget peer_set_attr peer_read_link
    peer_access peer_link peer_set_xattr peer_get_xattr peer_remove_xattr peer_statfs peer_open_dir
    peer_release_dir peer_fsync_dir peer_fsync peer_release peer_mkdir peer_mkdir_entry peer_create
    peer_create_entry peer_mknod peer_mknod_entry peer_symlink peer_symlink_entry peer_unlink
    peer_unlink_child peer_rmdir peer_rmdir_child peer_rename peer_rename_child
peer_handle-Told env (Request.mkdir parent name) p =
    let r = Request.mkdir parent name in
    Each-directory (Outcome r p) parent eisdir p _ (refused r p enoent enoent_wrong)
      (refused r p eisdir eisdir_wrong)
      λ children here.
        Each-register (Outcome r p) env directory 0o40777 2 env.gid env.uid p _ λ ino s₁.
          Each-bind (Outcome r p) (enter parent name ino s₁) _ λ s₂ entered.
            Each-bind (Outcome r p)
              (answer_entry ino (with_nodes s₂ (modify_inode parent add_hard_link s₂.nodes))) _
              λ s₃ answered.
                Each-told (Outcome r p) p.flags.create_dir_from_thread create_dir
                  (get_dir_name parent p ++ (name ++ slash)) _ clear_create_dir
                  (Each-some (Outcome r p) _
                    (inl (refl, refl, inr (answer_entry-Succeeds ino _ s₃ answered))))
peer_handle-Told env (Request.create parent name truncates) p =
    let r = Request.create parent name truncates in
    Each-directory (Outcome r p) parent enoent p _ (refused r p enoent enoent_wrong)
      (refused r p enoent enoent_wrong)
      λ children here.
        Each-if (Outcome r p) (ltb k_max_filename_length (length name)) _ _
          (refused r p enametoolong (λ e. cc))
          (Each-register (Outcome r p) env regular_file 0o100777 1 env.ctx_gid env.ctx_uid p _
            λ ino s₁.
              Each-bind (Outcome r p)
                (enter parent name ino (record s₁ {
                  cluster = record s₁.cluster {
                    blocks = create_empty_block_list_for_inode ino s₁.cluster.blocks;
                  };
                }))
                _
                λ s₂ entered. Each-bind (Outcome r p) (get_inode ino s₂.nodes) _ λ x found.
                  let y = truncated truncates x in
                  Each-told (Outcome r p) p.flags.create_file_from_thread create_file
                    (get_dir_name parent p ++ name) _ clear_create_file
                    (Each-some (Outcome r p) _ (
                      inl (
                        refl,
                        refl,
                        inr (create y.fuse_entry_param, s₂.replies, refl, λ e h. cc),
                      ))))
peer_handle-Told env (Request.mknod parent name mode) p =
    let r = Request.mknod parent name mode in
    Each-directory (Outcome r p) parent eisdir p _ (refused r p enoent enoent_wrong)
      (refused r p eisdir eisdir_wrong)
      λ children here.
        Each-if (Outcome r p) (ltb k_max_filename_length (length name)) _ _
          (refused r p enametoolong (λ e. cc))
          (Each-if (Outcome r p) (is_dir_mode mode) _ _
            (mknod_entry-quiet env directory mode 0o40777 2 parent name p
              (with_fs p (with_nodes p.fs (modify_inode parent add_hard_link p.fs.nodes))) refl
              refl)
            (Each-if (Outcome r p) (is_reg_mode mode) _ _
              (mknod_entry-quiet env regular_file mode 0o100777 1 parent name p p refl refl)
              (refused r p enoent enoent_wrong)))
peer_handle-Told env (Request.symlink target parent name) p =
    let r = Request.symlink target parent name in
    Each-directory (Outcome r p) parent eisdir p _ (refused r p enoent enoent_wrong)
      (refused r p eisdir eisdir_wrong)
      λ children here.
        Each-register (Outcome r p) env symbolic_link 0o120755 1 env.ctx_gid env.ctx_uid p _
          λ ino s₁.
            Each-bind (Outcome r p)
              (enter parent name ino (
                with_nodes s₁
                  (modify_inode ino (λ x. record x { kind = symlink target }) s₁.nodes)))
              _
              λ s₂ entered. Each-bind (Outcome r p) (answer_entry ino s₂) _ λ s₃ answered.
                let q = record p { fs = s₃; dir_names = erase ino p.dir_names } in
                Each-some (Outcome r p) q (quiet r p q refl refl refl refl refl)
peer_handle-Told env (Request.unlink parent name) p =
    let r = Request.unlink parent name in
    Each-directory (Outcome r p) parent eisdir p _ (refused r p enoent enoent_wrong)
      (refused r p eisdir eisdir_wrong)
      λ children here.
        Each-child (Outcome r p) name children p (peer_unlink_child parent name p)
          (refused r p enoent enoent_wrong)
          λ ino is_ino. Each-bind (Outcome r p) (unlink_child parent name p.fs ino) _ λ s done.
            Each-told (Outcome r p) p.flags.delete_file_from_thread delete_file
              (get_dir_name parent p ++ name) (with_fs p s) clear_delete_file
              (Each-some (Outcome r p) _
                (inl (refl, refl, inr (unlink_child-Succeeds parent name p.fs ino s done))))
peer_handle-Told env (Request.rmdir parent name) p =
    let r = Request.rmdir parent name in
    Each-directory (Outcome r p) parent eisdir p _ (refused r p enoent enoent_wrong)
      (refused r p eisdir eisdir_wrong)
      λ children here.
        Each-child (Outcome r p) name children p (peer_rmdir_child parent name p)
          (refused r p enoent enoent_wrong)
          λ ino is_ino. Each-bind (Outcome r p) (get_inode ino p.fs.nodes) _ λ x found.
            Each-elim (Outcome r p) (as_directory x) _ _ (refused r p eisdir eisdir_wrong)
              λ below is_dir.
                Each-if (Outcome r p) (has_children below) _ _ (refused r p eperm (λ e. cc)) (
                  let number : child_number parent name p ≡ ino =
                    ap (number_in name) here ∙ sym is_ino in
                  let announced : ℕ → List (ℕ × Packet) = λ n.
                    p.sent
                    ++ added p.flags.delete_dir_from_thread delete_dir (get_dir_name n p) p in
                  Each-told (Outcome r p) p.flags.delete_dir_from_thread delete_dir
                    (get_dir_name ino p) _ clear_delete_dir
                    (Each-some (Outcome r p) _ (
                      inl (
                        ap announced (sym number),
                        refl,
                        inr (err success, p.fs.replies, refl, λ e h. cc),
                      ))))
peer_handle-Told env (Request.rename parent name newparent newname) p =
    let r = Request.rename parent name newparent newname in
    Each-directory (Outcome r p) parent eisdir p _ (refused r p enoent enoent_wrong)
      (refused r p eisdir eisdir_wrong)
      λ children here.
        Each-child (Outcome r p) name children p
          (λ ino.
            peer_with_directory newparent eisdir p
              (peer_rename_child parent name newparent newname p ino))
          (refused r p enoent enoent_wrong)
          λ ino is_ino.
            Each-directory (Outcome r p) newparent eisdir p
              (peer_rename_child parent name newparent newname p ino)
              (refused r p enoent enoent_wrong) (refused r p eisdir eisdir_wrong)
              λ new_children there.
                Each-bind (Outcome r p)
                  (rename_child parent name newparent newname p.fs ino new_children) _
                  λ s done. rename_told parent name newparent newname p s (
                    rename_child-Succeeds parent name newparent newname p.fs ino new_children s
                      done)
peer_handle-Told env r p = silent r p (handle env r p.fs) refl refl refl
