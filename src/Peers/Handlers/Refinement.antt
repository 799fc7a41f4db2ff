-- ===== src/Peers/Handlers/Refinement.antt =====
-- The handlers of the peer-to-peer program do to the file system what those of the client-server
-- program do.
use dagon_fs.Prelude.{
  ℕ, ◌≤◌, ◌≡◌, refl, ap, ◌∙◌, sym, subst, Option, none, some, ◌++◌, length, ltb, ◌>>=◌,
}
use dagon_fs.Map.{Map}
use dagon_fs.Map.Keys.{Name, nat_ord}
use dagon_fs.Nodes.{
  regular_file, modify_inode, add_hard_link, directory, child_inode_number_with_name,
}
use dagon_fs.FileSystem.{
  Fs, Env, err, enametoolong, k_max_filename_length, eisdir, enoent, with_nodes, children_at,
}
use dagon_fs.FileSystem.Entries.{
  is_dir_mode, is_reg_mode, fuse_mkdir, fuse_create, fuse_mknod, fuse_symlink,
}
use dagon_fs.FileSystem.Requests.{Request, handle}
use dagon_fs.FileSystem.Removal.{fuse_unlink, fuse_rmdir, fuse_rename}
use dagon_fs.Blocks.{}
use dagon_fs.Peers.{Peer, get_dir_name, name_size}
use dagon_fs.Peers.Shared.{
  peer_get_attr, peer_lookup, peer_forget, peer_set_attr, peer_read_link, peer_access, peer_link,
  peer_set_xattr, peer_get_xattr, peer_remove_xattr, peer_statfs, peer_open_dir, peer_release_dir,
  peer_fsync_dir, peer_fsync, peer_release,
}
use dagon_fs.Peers.Handlers.{
  peer_mkdir, peer_create, peer_mknod, peer_symlink, peer_unlink, peer_rmdir, peer_rename, with_fs,
  peer_handle, slash,
}
use dagon_fs.Peers.Handlers.Refines.{
  Refines, Refines-answer, Refines-if, Refines-directory, Refines-child, Refines-last,
}
use dagon_fs.Peers.Handlers.Entries.{
  peer_mkdir_entry-Refines, peer_create_entry-Refines, peer_mknod_entry-Refines,
  peer_symlink_entry-Refines, peer_unlink_child-Refines, peer_rmdir_child-Refines,
  peer_rename_child-Refines,
}

-- The number that a directory has for a name, or 0 where there is no directory.
abbrev pub number_in : Name → Option (Map Name ℕ) → ℕ
number_in name none = 0
number_in name (some children) = child_inode_number_with_name name children

abbrev pub child_number : ℕ → Name → Peer → ℕ
child_number parent name p = number_in name (children_at parent p.fs)

-- The names that a request announces fit into the packets.
abbrev pub Fits : Request → Peer → Type 0
Fits (Request.mkdir parent name) p = length (get_dir_name parent p ++ (name ++ slash)) ≤ name_size
Fits (Request.create parent name truncates) p = length (get_dir_name parent p ++ name) ≤ name_size
Fits (Request.unlink parent name) p = length (get_dir_name parent p ++ name) ≤ name_size
Fits (Request.rmdir parent name) p =
    length (get_dir_name (child_number parent name p) p) ≤ name_size
Fits (Request.rename parent name newparent newname) p =
    (length (get_dir_name parent p ++ name) ≤ name_size)
    × (length (get_dir_name newparent p ++ newname) ≤ name_size)
Fits _ p = Unit {0}

lifted : (o : Option Fs) (p : Peer) → Refines o (o >>= λ s. some (with_fs p s))
lifted o p = Refines-last o _ λ s. (with_fs p s, refl, refl)

-- If the names that a request announces fit into the packets, and the handler of the client-server
-- program takes the file system of a process to a new one, the handler of the peer-to-peer program
-- succeeds and leaves that one.
pub peer_handle-handle :
    (env : Env) (r : Request) (p : Peer) (s : Fs)
    → Fits r p
    → handle env r p.fs ≡ some s
    → (q : Peer) × (peer_handle env r p ≡ some q) × (q.fs ≡ s)
unfolding handle peer_handle peer_get_attr peer_lookup peer_forget peer_set_attr peer_read_link
    peer_access peer_link peer_set_xattr peer_get_xattr peer_remove_xattr peer_statfs peer_open_dir
    peer_release_dir peer_fsync_dir peer_fsync peer_release fuse_mkdir peer_mkdir fuse_create
    peer_create fuse_mknod peer_mknod fuse_symlink peer_symlink fuse_unlink peer_unlink fuse_rmdir
    peer_rmdir fuse_rename peer_rename
peer_handle-handle env (Request.mkdir parent name) p s fits e =
    Refines-directory parent eisdir p _ _
      (λ children here. peer_mkdir_entry-Refines env parent name p fits) s e
peer_handle-handle env (Request.mknod parent name mode) p s fits e =
    Refines-directory parent eisdir p _ _
      (λ children here.
        Refines-if (ltb k_max_filename_length (length name)) _ _ _ _
          (Refines-answer (err enametoolong) p)
          (Refines-if (is_dir_mode mode) _ _ _ _
            (peer_mknod_entry-Refines env directory 0o40777 2 parent name
              (with_fs p (with_nodes p.fs (modify_inode parent add_hard_link p.fs.nodes))))
            (Refines-if (is_reg_mode mode) _ _ _ _
              (peer_mknod_entry-Refines env regular_file 0o100777 1 parent name p)
              (Refines-answer (err enoent) p))))
      s e
peer_handle-handle env (Request.symlink target parent name) p s fits e =
    Refines-directory parent eisdir p _ _
      (λ children here. peer_symlink_entry-Refines env target parent name p) s e
peer_handle-handle env (Request.create parent name truncates) p s fits e =
    Refines-directory parent enoent p _ _
      (λ children here.
        Refines-if (ltb k_max_filename_length (length name)) _ _ _ _
          (Refines-answer (err enametoolong) p)
          (peer_create_entry-Refines env parent name truncates p fits))
      s e
peer_handle-handle env (Request.unlink parent name) p s fits e =
    Refines-directory parent eisdir p _ _
      (λ children here.
        Refines-child name children p _ _
          λ ino is_ino. peer_unlink_child-Refines parent name p ino fits)
      s e
peer_handle-handle env (Request.rmdir parent name) p s fits e =
    Refines-directory parent eisdir p _ _
      (λ children here. Refines-child name children p _ _ λ ino is_ino.
        peer_rmdir_child-Refines parent name p ino (
          subst (λ n. length (get_dir_name n p) ≤ name_size) (ap (number_in name) here ∙ sym is_ino)
            fits))
      s e
peer_handle-handle env (Request.rename parent name newparent newname) p s fits e =
    Refines-directory parent eisdir p _ _
      (λ children here. Refines-child name children p _ _ λ ino is_ino.
        Refines-directory newparent eisdir p _ _ λ new_children there.
          peer_rename_child-Refines parent name newparent newname p ino new_children fits.0 fits.1)
      s e
peer_handle-handle env r p s fits e = lifted (handle env r p.fs) p s e
