-- ===== src/FileSystem/Inodes.antt =====
-- The handlers that read or change one inode: getattr, lookup, forget, setattr, readlink, access.
use dagon_fs.Prelude.{
  ℕ, ◌*◌, true, ◌&&◌, Option, some, bit_and, length, leb, ltb, ◌==◌, if◌then◌else◌, ◌>>=◌,
}
use dagon_fs.Map.Keys.{Name}
use dagon_fs.Blocks.{u32}
use dagon_fs.Nodes.{
  INode, Kind, Stat, ToSet, file, dir, symlink, special, attr_of, number_of_inodes, get_inode,
  set_inode_at, delete_inode, lookup, forget, is_forgotten, has_no_links, set_inode_attributes,
}
use dagon_fs.FileSystem.{
  Fs, Env, Errno, Reply, success, enoent, eperm, eacces, err, none_reply, attr, entry, readlink,
  reply, answer, with_nodes, with_inode, with_directory, with_child, k_inode_reclamation_threshold,
}

-- `FuseGetAttr`: the guard sends its error and does not return.
unfoldable pub fuse_get_attr : ℕ → Fs → Option Fs
fuse_get_attr ino s =
    let s' = if leb (number_of_inodes s.nodes) ino then reply (err enoent) s else s in
    get_inode ino s'.nodes >>= λ x. answer (attr (attr_of x)) s'

-- `FuseLookup`, once the child is found.
unfoldable pub lookup_child : Fs → (ino : ℕ) → Option Fs
unfolding lookup
lookup_child s ino = get_inode ino s.nodes >>= λ x.
    answer (entry x.fuse_entry_param) (with_nodes s (set_inode_at ino (lookup x) s.nodes))

-- `FuseLookup`
unfoldable pub fuse_lookup : (parent : ℕ) → Name → Fs → Option Fs
unfolding lookup_child
fuse_lookup parent name s =
    with_directory parent enoent s λ children. with_child name children s (lookup_child s)

-- `FuseForget`
unfoldable pub fuse_forget : (ino nlookup : ℕ) → Fs → Option Fs
unfolding forget delete_inode
fuse_forget ino nlookup s = get_inode ino s.nodes >>= λ x.
    let y = forget nlookup x in
    let s' = reply none_reply (with_nodes s (set_inode_at ino y s.nodes)) in
    let deleted = delete_inode ino s'.nodes in
    if is_forgotten y && has_no_links y
    then some (record s' {
      nodes = deleted;
      reclaiming_inodes =
          if ltb k_inode_reclamation_threshold (length deleted.deleted_inodes)
          then true
          else s'.reclaiming_inodes;
    })
    else some s'

-- `FuseSetAttr`: here too the guard does not return.
unfoldable pub fuse_set_attr : Env → (ino : ℕ) → Stat → ToSet → Fs → Option Fs
unfolding set_inode_attributes
fuse_set_attr env ino new to_set s =
    let s' = if leb (number_of_inodes s.nodes) ino then reply (err enoent) s else s in
    get_inode ino s'.nodes >>= λ x.
    let y = set_inode_attributes env.now new to_set x in
    answer (attr (attr_of y)) (with_nodes s' (set_inode_at ino y s'.nodes))

-- What `FuseReadLink` sends for an inode.
abbrev link_reply : Kind → Reply
link_reply (symlink link) = readlink link
link_reply (file buf waiting) = err eperm
link_reply (dir children) = err eperm
link_reply (special type) = err eperm

-- `FuseReadLink`
unfoldable pub fuse_read_link : ℕ → Fs → Option Fs
fuse_read_link ino s = with_inode ino s λ x. answer (link_reply x.kind) s

-- The error that `FuseAccess` sends: others, then the group of the caller, then the owner.
unfoldable pub access_errno : Env → (mask : ℕ) → INode → Errno
access_errno env mask x =
    let granted = λ (m : ℕ). bit_and (attr_of x).st_mode m == m in
    if x.marked_for_deletion
    then enoent
    else if mask == 0
    then success
    else if granted mask
    then success
    else if granted (u32 (mask * 8)) && (env.ctx_gid == (attr_of x).st_gid)
    then success
    else if (env.ctx_uid == (attr_of x).st_uid) && granted (u32 (mask * 64))
    then success
    else eacces

-- `FuseAccess`
unfoldable pub fuse_access : Env → (ino mask : ℕ) → Fs → Option Fs
unfolding access_errno
fuse_access env ino mask s = with_inode ino s λ x. answer (err (access_errno env mask x)) s
