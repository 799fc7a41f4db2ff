-- ===== src/Peers/Handlers.antt =====
-- peer-to-peer/include/ramfs/FileSystem.cpp: the handlers that differ from those of the client-server
-- program, which are the ones that make or name a directory and the ones that tell the other
-- processes. The guards and everything up to the reply are as there.
pub mod Guards
pub mod Refines
pub mod Each
pub mod Entries
pub mod Refinement
pub mod Announcing
pub mod Broadcast
unfoldable pub use dagon_fs.Peers.Handlers.Guards.{peer_register}
pub use dagon_fs.Peers.Handlers.Guards.{
  with_fs, peer_answer, peer_with_inode, peer_with_directory, peer_with_child, unless_from_thread,
  slash, clear_create_dir, clear_create_file, clear_delete_file, clear_delete_dir,
}
use dagon_fs.Prelude.{
  ℕ, Bool, true, false, Option, none, some, List, [], ◌∷◌, ◌++◌, length, ltb, leb, ◌==◌,
  if◌then◌else◌, ◌>>=◌,
}
use dagon_fs.Map.{Map, insert, erase}
use dagon_fs.Map.Keys.{Name, nat_ord}
use dagon_fs.Blocks.{create_empty_block_list_for_inode}
use dagon_fs.Nodes.{
  INode, INodeType, regular_file, directory, symbolic_link, symlink, special_inode_type_no_block,
  no_ino, as_directory, number_of_inodes, get_inode, set_inode_at, modify_inode, has_children,
  lookup, add_hard_link, remove_hard_link, delete_child, update_child, child_inode_number_with_name,
}
use dagon_fs.FileSystem.{
  Fs, Env, Reply, Errno, success, err, enoent, eisdir, eperm, enametoolong, create, reply, answer,
  with_nodes, register_inode, children_at, k_max_filename_length,
}
use dagon_fs.FileSystem.Entries.{enter, answer_entry, truncated, is_dir_mode, is_reg_mode}
use dagon_fs.FileSystem.Removal.{unlink_child, unlink_directory, rename_child}
use dagon_fs.FileSystem.Requests.{Request}
use dagon_fs.Peers.Shared.{
  peer_get_attr, peer_lookup, peer_forget, peer_set_attr, peer_read_link, peer_access, peer_link,
  peer_set_xattr, peer_get_xattr, peer_remove_xattr, peer_statfs, peer_open_dir, peer_release_dir,
  peer_fsync_dir, peer_fsync, peer_release,
}
use dagon_fs.Peers.{
  Peer, Flags, RequestType, get_dir_name, send_name_request, send_rename_request, create_file,
  delete_file, create_dir, delete_dir,
}

-- `FuseInit`
unfoldable pub peer_init : Env → Peer → Option Peer
unfolding peer_register
peer_init env p =
    let st = record p.fs.stbuf {
      f_bfree = p.fs.stbuf.f_blocks;
      f_bavail = p.fs.stbuf.f_blocks;
      f_ffree = p.fs.stbuf.f_files;
      f_favail = p.fs.stbuf.f_files;
    } in
    peer_register env special_inode_type_no_block 0o777 0 env.gid env.uid
      (with_fs p (record p.fs { reclaiming_inodes = false; stbuf = st }))
    >>= λ (ino, p₁). peer_register env directory 0o40777 3 env.gid env.uid p₁ >>= λ (root, p₂).
        some (record p₂ { dir_names = insert root slash p₂.dir_names })

-- `FuseMknod`, for one kind of inode.
unfoldable pub peer_mknod_entry :
    Env → INodeType → (mode nlink parent : ℕ) → Name → Peer → Option Peer
unfolding peer_register modify_inode lookup update_child
peer_mknod_entry env type mode nlink parent name p =
    peer_register env type mode nlink env.ctx_uid env.ctx_gid p >>= λ (ino, p₁).
    enter parent name ino p₁.fs >>= λ s₂. answer_entry ino s₂ >>= λ s₃. some (with_fs p₁ s₃)

-- `FuseMknod`
unfoldable pub peer_mknod : Env → (parent : ℕ) → Name → (mode : ℕ) → Peer → Option Peer
unfolding peer_mknod_entry modify_inode add_hard_link
peer_mknod env parent name mode p = peer_with_directory parent eisdir p λ children.
    if ltb k_max_filename_length (length name)
    then peer_answer (err enametoolong) p
    else if is_dir_mode mode
    then peer_mknod_entry env directory 0o40777 2 parent name
        (with_fs p (with_nodes p.fs (modify_inode parent add_hard_link p.fs.nodes)))
    else if is_reg_mode mode
    then peer_mknod_entry env regular_file 0o100777 1 parent name p
    else peer_answer (err enoent) p

-- `FuseMkdir`, after its guards.
unfoldable pub peer_mkdir_entry : Env → (parent : ℕ) → Name → Peer → Option Peer
unfolding peer_register modify_inode lookup update_child add_hard_link get_dir_name
    send_name_request
peer_mkdir_entry env parent name p =
    peer_register env directory 0o40777 2 env.gid env.uid p >>= λ (ino, p₁).
    enter parent name ino p₁.fs >>= λ s₂.
    answer_entry ino (with_nodes s₂ (modify_inode parent add_hard_link s₂.nodes)) >>= λ s₃.
    let dir_name = get_dir_name parent p ++ (name ++ slash) in
    let p₂ = record p₁ { fs = s₃; dir_names = insert ino dir_name p₁.dir_names } in
    unless_from_thread p.flags.create_dir_from_thread (send_name_request create_dir dir_name) p₂
    >>= clear_create_dir

-- `FuseMkdir`
unfoldable pub peer_mkdir : Env → (parent : ℕ) → Name → Peer → Option Peer
unfolding peer_mkdir_entry
peer_mkdir env parent name p =
    peer_with_directory parent eisdir p λ children. peer_mkdir_entry env parent name p

-- `FuseSymlink`, after its guards.
unfoldable pub peer_symlink_entry : Env → (link : Name) (parent : ℕ) → Name → Peer → Option Peer
unfolding peer_register modify_inode lookup update_child
peer_symlink_entry env link parent name p =
    peer_register env symbolic_link 0o120755 1 env.ctx_gid env.ctx_uid p >>= λ (ino, p₁).
    enter parent name ino
      (with_nodes p₁.fs (modify_inode ino (λ x. record x { kind = symlink link }) p₁.fs.nodes))
    >>= λ s₂. answer_entry ino s₂ >>= λ s₃. some (with_fs p₁ s₃)

-- `FuseSymlink`
unfoldable pub peer_symlink : Env → (link : Name) (parent : ℕ) → Name → Peer → Option Peer
unfolding peer_symlink_entry
peer_symlink env link parent name p =
    peer_with_directory parent eisdir p λ children. peer_symlink_entry env link parent name p

-- `FuseCreate`, after its guards.
unfoldable pub peer_create_entry :
    Env → (parent : ℕ) → Name → (truncates : Bool) → Peer → Option Peer
unfolding peer_register modify_inode lookup update_child get_dir_name send_name_request
peer_create_entry env parent name truncates p =
    peer_register env regular_file 0o100777 1 env.ctx_gid env.ctx_uid p >>= λ (ino, p₁).
    enter parent name ino (record p₁.fs {
      cluster = record p₁.fs.cluster {
        blocks = create_empty_block_list_for_inode ino p₁.fs.cluster.blocks;
      };
    })
    >>= λ s₂. get_inode ino s₂.nodes >>= λ x.
        let y = truncated truncates x in
        answer (create y.fuse_entry_param) (with_nodes s₂ (set_inode_at ino y s₂.nodes)) >>= λ s₃.
        let file_name = get_dir_name parent p ++ name in
        unless_from_thread p.flags.create_file_from_thread (send_name_request create_file file_name)
          (with_fs p₁ s₃)
        >>= clear_create_file

-- `FuseCreate`
unfoldable pub peer_create : Env → (parent : ℕ) → Name → (truncates : Bool) → Peer → Option Peer
unfolding peer_create_entry
peer_create env parent name truncates p = peer_with_directory parent enoent p λ children.
    if ltb k_max_filename_length (length name)
    then peer_answer (err enametoolong) p
    else peer_create_entry env parent name truncates p

-- `FuseUnlink`, once the child is found.
unfoldable pub peer_unlink_child : (parent : ℕ) → Name → Peer → (ino : ℕ) → Option Peer
unfolding unlink_child get_dir_name send_name_request
peer_unlink_child parent name p ino = unlink_child parent name p.fs ino >>= λ s.
    let file_name = get_dir_name parent p ++ name in
    unless_from_thread p.flags.delete_file_from_thread (send_name_request delete_file file_name)
      (with_fs p s)
    >>= clear_delete_file

-- `FuseUnlink`
unfoldable pub peer_unlink : (parent : ℕ) → Name → Peer → Option Peer
unfolding peer_unlink_child
peer_unlink parent name p =
    peer_with_directory parent eisdir p
      λ children. peer_with_child name children p (peer_unlink_child parent name p)

-- `FuseRmdir`, once the child is found.
unfoldable pub peer_rmdir_child : (parent : ℕ) → Name → Peer → (ino : ℕ) → Option Peer
unfolding modify_inode remove_hard_link delete_child get_dir_name send_name_request
peer_rmdir_child parent name p ino = get_inode ino p.fs.nodes >>= λ x. elim (as_directory x) [
  | none ↦ peer_answer (err eisdir) p
  | some below ↦
      if has_children below
      then peer_answer (err eperm) p
      else (answer (err success) (
            with_nodes p.fs (
              modify_inode parent (delete_child name) (
                modify_inode ino unlink_directory
                  (modify_inode parent remove_hard_link p.fs.nodes))))
          >>= λ s.
              unless_from_thread p.flags.delete_dir_from_thread
                (send_name_request delete_dir (get_dir_name ino p)) (with_fs p s)
              >>= clear_delete_dir)
]

-- `FuseRmdir`
unfoldable pub peer_rmdir : (parent : ℕ) → Name → Peer → Option Peer
unfolding peer_rmdir_child
peer_rmdir parent name p =
    peer_with_directory parent eisdir p
      λ children. peer_with_child name children p (peer_rmdir_child parent name p)

-- `FuseRename`, once the inode and the new directory are found. A directory keeps its name.
unfoldable pub peer_rename_child :
    (parent : ℕ) → Name → (newparent : ℕ) → Name → Peer → (ino : ℕ) → Map Name ℕ → Option Peer
unfolding rename_child get_dir_name send_rename_request
peer_rename_child parent name newparent newname p ino new_children =
    rename_child parent name newparent newname p.fs ino new_children >>= λ s.
    let old_name = get_dir_name parent p ++ name in
    let new_name = get_dir_name newparent p ++ newname in
    if p.flags.rename_from_thread
    then some (record p { fs = s; flags = record p.flags { rename_from_thread = false } })
    else send_rename_request old_name new_name (with_fs p s)

-- `FuseRename`
unfoldable pub peer_rename : (parent : ℕ) → Name → (newparent : ℕ) → Name → Peer → Option Peer
unfolding peer_rename_child
peer_rename parent name newparent newname p = peer_with_directory parent eisdir p λ children.
    peer_with_child name children p λ ino.
      peer_with_directory newparent eisdir p (peer_rename_child parent name newparent newname p ino)

-- `FuseOperations`
unfoldable pub peer_handle : Env → Request → Peer → Option Peer
unfolding peer_mknod peer_mkdir peer_symlink peer_create peer_unlink peer_rmdir peer_rename
    peer_get_attr peer_lookup peer_forget peer_set_attr peer_read_link peer_access peer_link
    peer_set_xattr peer_get_xattr peer_remove_xattr peer_statfs peer_open_dir peer_release_dir
    peer_fsync_dir peer_fsync peer_release
peer_handle env (Request.mknod parent name mode) p = peer_mknod env parent name mode p
peer_handle env (Request.mkdir parent name) p = peer_mkdir env parent name p
peer_handle env (Request.symlink target parent name) p = peer_symlink env target parent name p
peer_handle env (Request.create parent name truncates) p = peer_create env parent name truncates p
peer_handle env (Request.unlink parent name) p = peer_unlink parent name p
peer_handle env (Request.rmdir parent name) p = peer_rmdir parent name p
peer_handle env (Request.rename parent name newparent newname) p =
    peer_rename parent name newparent newname p
peer_handle env (Request.get_attr ino) p = peer_get_attr ino p
peer_handle env (Request.lookup parent name) p = peer_lookup parent name p
peer_handle env (Request.forget ino nlookup) p = peer_forget ino nlookup p
peer_handle env (Request.set_attr ino new to_set) p = peer_set_attr env ino new to_set p
peer_handle env (Request.read_link ino) p = peer_read_link ino p
peer_handle env (Request.access ino mask) p = peer_access env ino mask p
peer_handle env (Request.link ino newparent newname) p = peer_link ino newparent newname p
peer_handle env (Request.set_xattr ino name value creates replaces) p =
    peer_set_xattr env ino name value creates replaces p
peer_handle env (Request.get_xattr ino name size) p = peer_get_xattr ino name size p
peer_handle env (Request.remove_xattr ino name) p = peer_remove_xattr ino name p
peer_handle env (Request.stat_fs ino) p = peer_statfs ino p
peer_handle env (Request.open_dir ino) p = peer_open_dir ino p
peer_handle env (Request.release_dir ino) p = peer_release_dir ino p
peer_handle env (Request.fsync_dir ino) p = peer_fsync_dir ino p
peer_handle env (Request.fsync ino) p = peer_fsync ino p
peer_handle env (Request.release ino) p = peer_release ino p
