-- ===== src/FileSystem/Entries.antt =====
-- The handlers that add a name to a directory: mknod, mkdir, symlink, create and link.
use dagon_fs.Prelude.{
  ℕ, ◌/◌, ◌%◌, Bool, ◌&&◌, not, Option, none, some, length, ltb, ◌==◌, if◌then◌else◌, ◌>>=◌,
}
use dagon_fs.Map.{Map}
use dagon_fs.Map.Keys.{Name}
use dagon_fs.Blocks.{create_empty_block_list_for_inode}
use dagon_fs.Nodes.{
  INode, INodeType, regular_file, directory, symbolic_link, symlink, attr_of, with_attr, no_ino,
  get_inode, set_inode_at, modify_inode, lookup, add_hard_link, update_child,
  child_inode_number_with_name,
}
use dagon_fs.FileSystem.{
  Fs, Env, enoent, eisdir, enametoolong, eexist, err, entry, create, reply, answer, with_nodes,
  with_inode, with_directory, register_inode, k_max_filename_length,
}

-- The tail that the handlers share once the new inode is registered: the name goes into the
-- directory and the inode is looked up. `parentDir_p` still points to the directory's object, so
-- the number must not be the directory's own, reclaimed.
abbrev pub enter : (parent : ℕ) → Name → (ino : ℕ) → Fs → Option Fs
enter parent name ino s =
    if ino == parent
    then none
    else some (
        with_nodes s
          (modify_inode ino lookup (modify_inode parent (update_child name ino) s.nodes)))

abbrev pub answer_entry : ℕ → Fs → Option Fs
answer_entry ino s = get_inode ino s.nodes >>= λ x. answer (entry x.fuse_entry_param) s

-- `S_ISDIR` and `S_ISREG`
abbrev pub is_dir_mode : ℕ → Bool
is_dir_mode mode = mode / 4096 % 16 == 4

abbrev pub is_reg_mode : ℕ → Bool
is_reg_mode mode = mode / 4096 % 16 == 8

-- `FuseMknod`, for one kind of inode. Group and user stand in the order of the call, which is not
-- that of the parameters.
unfoldable pub mknod_entry :
    Env → INodeType → (mode nlink : ℕ) → (parent : ℕ) → Name → Fs → Option Fs
unfolding register_inode modify_inode lookup update_child
mknod_entry env type mode nlink parent name s =
    register_inode env type mode nlink env.ctx_uid env.ctx_gid s >>= λ (ino, s₁).
    enter parent name ino s₁ >>= λ s₂. answer_entry ino s₂

-- `FuseMknod`
unfoldable pub fuse_mknod : Env → (parent : ℕ) → Name → (mode : ℕ) → Fs → Option Fs
unfolding mknod_entry modify_inode add_hard_link
fuse_mknod env parent name mode s = with_directory parent eisdir s λ children.
    if ltb k_max_filename_length (length name)
    then answer (err enametoolong) s
    else if is_dir_mode mode
    then mknod_entry env directory 0o40777 2 parent name
        (with_nodes s (modify_inode parent add_hard_link s.nodes))
    else if is_reg_mode mode
    then mknod_entry env regular_file 0o100777 1 parent name s
    else answer (err enoent) s

-- `FuseMkdir`, after its guards.
unfoldable pub mkdir_entry : Env → (parent : ℕ) → Name → Fs → Option Fs
unfolding register_inode modify_inode lookup update_child add_hard_link
mkdir_entry env parent name s =
    register_inode env directory 0o40777 2 env.gid env.uid s >>= λ (ino, s₁).
    enter parent name ino s₁ >>= λ s₂.
    answer_entry ino (with_nodes s₂ (modify_inode parent add_hard_link s₂.nodes))

-- `FuseMkdir`
unfoldable pub fuse_mkdir : Env → (parent : ℕ) → Name → Fs → Option Fs
unfolding mkdir_entry
fuse_mkdir env parent name s =
    with_directory parent eisdir s λ children. mkdir_entry env parent name s

-- `FuseSymlink`, after its guards.
unfoldable pub symlink_entry : Env → (link : Name) (parent : ℕ) → Name → Fs → Option Fs
unfolding register_inode modify_inode lookup update_child
symlink_entry env link parent name s =
    register_inode env symbolic_link 0o120755 1 env.ctx_gid env.ctx_uid s >>= λ (ino, s₁).
    enter parent name ino
      (with_nodes s₁ (modify_inode ino (λ x. record x { kind = symlink link }) s₁.nodes))
    >>= λ s₂. answer_entry ino s₂

-- `FuseSymlink`
unfoldable pub fuse_symlink : Env → (link : Name) (parent : ℕ) → Name → Fs → Option Fs
unfolding symlink_entry
fuse_symlink env link parent name s =
    with_directory parent eisdir s λ children. symlink_entry env link parent name s

-- What `FuseCreate` does to the attributes for `O_WRONLY | O_TRUNC`.
abbrev pub truncated : Bool → INode → INode
truncated truncates x =
    if truncates then with_attr x (record (attr_of x) { st_size = 0; st_blocks = 0 }) else x

-- `FuseCreate`, after its guards; `truncates` is `fi->flags & (O_WRONLY | O_TRUNC)`.
unfoldable pub create_entry : Env → (parent : ℕ) → Name → (truncates : Bool) → Fs → Option Fs
unfolding register_inode modify_inode lookup update_child
create_entry env parent name truncates s =
    register_inode env regular_file 0o100777 1 env.ctx_gid env.ctx_uid s >>= λ (ino, s₁).
    enter parent name ino (record s₁ {
      cluster = record s₁.cluster {
        blocks = create_empty_block_list_for_inode ino s₁.cluster.blocks;
      };
    })
    >>= λ s₂. get_inode ino s₂.nodes >>= λ x.
        let y = truncated truncates x in
        answer (create y.fuse_entry_param) (with_nodes s₂ (set_inode_at ino y s₂.nodes))

-- `FuseCreate`
unfoldable pub fuse_create : Env → (parent : ℕ) → Name → (truncates : Bool) → Fs → Option Fs
unfolding create_entry
fuse_create env parent name truncates s = with_directory parent enoent s λ children.
    if ltb k_max_filename_length (length name)
    then answer (err enametoolong) s
    else create_entry env parent name truncates s

-- The test of `FuseLink` for a child that has the name already.
abbrev pub is_taken : Name → Map Name ℕ → Bool
is_taken name children =
    let existing = child_inode_number_with_name name children in
    not (existing == no_ino) && ltb 0 existing

-- `FuseLink`, after its guards: for a name that is taken the error is sent, and the handler goes on.
unfoldable pub link_entry : (ino newparent : ℕ) → Name → Fs → Map Name ℕ → Option Fs
unfolding modify_inode lookup update_child add_hard_link
link_entry ino newparent newname s children =
    let s₁ = if is_taken newname children then reply (err eexist) s else s in
    let ns = modify_inode newparent (update_child newname ino) s₁.nodes in
    answer_entry ino (with_nodes s₁ (modify_inode ino lookup (modify_inode ino add_hard_link ns)))

-- `FuseLink`
unfoldable pub fuse_link : (ino newparent : ℕ) → Name → Fs → Option Fs
unfolding link_entry
fuse_link ino newparent newname s =
    with_directory newparent eisdir s
      λ children. with_inode ino s λ target. link_entry ino newparent newname s children
