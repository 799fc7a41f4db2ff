-- ===== src/FileSystem/Served/Entries.antt =====
-- The handlers of FileSystem/Entries serve their request, where the directory's number is not the
-- one that is reclaimed next.
use dagon_fs.Prelude.{
  ℕ, ◌<◌, ◌≡◌, ◌≢◌, refl, sym, subst, ◌∙◌, inl, inr, Bool, true, false, List, ◌∷◌, arith, ltb, ◌==◌,
  ◌>>=◌, length, get_elem?-inside, get_elem?-lt, Option-cases,
}
use dagon_fs.Map.{}
use dagon_fs.Map.Keys.{Name}
use dagon_fs.Blocks.{create_empty_block_list_for_inode}
use dagon_fs.Nodes.{
  INode, INodeType, Nodes, directory, regular_file, symbolic_link, symlink, number_of_inodes,
  get_inode, modify_inode, lookup, add_hard_link, update_child,
}
use dagon_fs.Nodes.WellFormed.{
  IsWellFormed, Preserves, lookup-Preserves, add_hard_link-Preserves, update_child-Preserves,
}
use dagon_fs.FileSystem.{
  Fs, k_max_filename_length, Env, with_nodes, err, enoent, eisdir, enametoolong, entry, create,
}
use dagon_fs.FileSystem.Registration.{Registered, register_inode-Registered}
use dagon_fs.FileSystem.Entries.{
  is_dir_mode, is_reg_mode, answer_entry, mknod_entry, fuse_mknod, mkdir_entry, fuse_mkdir,
  symlink_entry, fuse_symlink, truncated, create_entry, fuse_create,
}
use dagon_fs.FileSystem.Served.{
  Served, Served-after, Kept, Kept-refl, Kept-trans, Kept-modify_inode, Kept-set_inode_at,
  answer-Served, answer_nodes-Served, with_directory-Served, if-Served,
}

-- The queue of deleted inodes does not start with the number.
abbrev pub IsNotNext : ℕ → Nodes → Type 0
IsNotNext ino ns = (rest : List ℕ) → ns.deleted_inodes ≢ ino ∷ rest

module _ (s : Fs) (w : IsWellFormed s.nodes) where
  pub answer_entry-Served :
      (ino : ℕ) (ns : Nodes)
      → Kept s.nodes ns
      → ino < number_of_inodes s.nodes
      → Served s (answer_entry ino (with_nodes s ns))
  answer_entry-Served ino ns kept h =
      let (x, found) = get_elem?-inside ns.inodes ino (omega (arith, h, kept.count)) in
      rw found (answer_nodes-Served s w (entry x.fuse_entry_param) ns kept)

  abbrev pub entered : (parent : ℕ) → Name → (ino : ℕ) → Nodes → Nodes
  entered parent name ino ns =
      modify_inode ino lookup (modify_inode parent (update_child name ino) ns)

  pub entered-Kept :
      (parent : ℕ) (name : Name) (ino : ℕ) (ns : Nodes)
      → Kept s.nodes ns
      → ino < number_of_inodes s.nodes
      → Kept s.nodes (entered parent name ino ns)
  entered-Kept parent name ino ns kept h =
      Kept-modify_inode s.nodes _ ino lookup
        (Kept-modify_inode s.nodes ns parent (update_child name ino) kept
          (update_child-Preserves (number_of_inodes s.nodes) name ino h))
        (lookup-Preserves (number_of_inodes s.nodes))

-- The new inode exists, and is not the directory.
pub Registered-inside :
    (env : Env) (type : INodeType) (mode nlink gid uid : ℕ) (s : Fs) (ino : ℕ) (s' : Fs)
    → Registered env type mode nlink gid uid s ino s'
    → ino < number_of_inodes s'.nodes
Registered-inside env type mode nlink gid uid s ino s' r = get_elem?-lt s'.nodes.inodes ino _ r.new

pub Registered-other :
    (env : Env) (type : INodeType) (mode nlink gid uid : ℕ) (s : Fs) (ino : ℕ) (s' : Fs)
    (parent : ℕ)
    → Registered env type mode nlink gid uid s ino s'
    → parent < number_of_inodes s.nodes
    → IsNotNext parent s.nodes
    → (ino == parent) ≡ false
Registered-other env type mode nlink gid uid s ino s' parent r h free = elim r.source [
  | inl new ↦ ground arith
  | inr (rest, e) ↦
      let different : ino ≢ parent =
        λ same. free rest (subst (λ t. s.nodes.deleted_inodes ≡ t ∷ rest) same e) in
      ground arith
]

symlink-Preserves : (n : ℕ) (link : Name) → Preserves n (λ x. record x { kind = symlink link })
symlink-Preserves n link i x g = record {
  number = g.number;
  ino = g.ino;
  children = λ children name c e _. cc e;
}

truncated-Preserves : (n : ℕ) (truncates : Bool) → Preserves n (truncated truncates)
truncated-Preserves n true i x g = record { number = g.number; ino = g.ino; children = g.children }
truncated-Preserves n false i x g = g

module _ (env : Env) (parent : ℕ) (name : Name) (s : Fs) (w : IsWellFormed s.nodes)
    (inside : parent < number_of_inodes s.nodes) (free : IsNotNext parent s.nodes) where
  mknod_entry-Served :
      (type : INodeType) (mode nlink : ℕ) → Served s (mknod_entry env type mode nlink parent name s)
  unfolding mknod_entry
  mknod_entry-Served type mode nlink =
      let (ino, s', made, r) =
        register_inode-Registered env type mode nlink env.ctx_uid env.ctx_gid s w in
      let other =
        Registered-other env type mode nlink env.ctx_uid env.ctx_gid s ino s' parent r inside
          free in
      let h = Registered-inside env type mode nlink env.ctx_uid env.ctx_gid s ino s' r in
      Served-after s s' _ r.grows r.replies (
        rw (made, ◌>>=◌, other)
          (answer_entry-Served s' r.wf ino _
            (entered-Kept s' r.wf parent name ino s'.nodes (Kept-refl s' r.wf) h) h))

  mkdir_entry-Served : Served s (mkdir_entry env parent name s)
  unfolding mkdir_entry
  mkdir_entry-Served =
      let (ino, s', made, r) =
        register_inode-Registered env directory 0o40777 2 env.gid env.uid s w in
      let other =
        Registered-other env directory 0o40777 2 env.gid env.uid s ino s' parent r inside free in
      let h = Registered-inside env directory 0o40777 2 env.gid env.uid s ino s' r in
      let kept = entered-Kept s' r.wf parent name ino s'.nodes (Kept-refl s' r.wf) h in
      Served-after s s' _ r.grows r.replies (
        rw (made, ◌>>=◌, other)
          (answer_entry-Served s' r.wf ino _
            (Kept-modify_inode s'.nodes _ parent add_hard_link kept
              (add_hard_link-Preserves (number_of_inodes s'.nodes)))
            h))

  symlink_entry-Served : (link : Name) → Served s (symlink_entry env link parent name s)
  unfolding symlink_entry
  symlink_entry-Served link =
      let (ino, s', made, r) =
        register_inode-Registered env symbolic_link 0o120755 1 env.ctx_gid env.ctx_uid s w in
      let other =
        Registered-other env symbolic_link 0o120755 1 env.ctx_gid env.ctx_uid s ino s' parent r
          inside free in
      let h = Registered-inside env symbolic_link 0o120755 1 env.ctx_gid env.ctx_uid s ino s' r in
      let linked =
        Kept-modify_inode s'.nodes s'.nodes ino (λ x. record x { kind = symlink link })
          (Kept-refl s' r.wf) (symlink-Preserves (number_of_inodes s'.nodes) link) in
      Served-after s s' _ r.grows r.replies (
        rw (made, ◌>>=◌, other)
          (answer_entry-Served s' r.wf ino _ (entered-Kept s' r.wf parent name ino _ linked h) h))

  create_entry-Served : (truncates : Bool) → Served s (create_entry env parent name truncates s)
  unfolding create_entry
  create_entry-Served truncates =
      let (ino, s', made, r) =
        register_inode-Registered env regular_file 0o100777 1 env.ctx_gid env.ctx_uid s w in
      let other =
        Registered-other env regular_file 0o100777 1 env.ctx_gid env.ctx_uid s ino s' parent r
          inside free in
      let h = Registered-inside env regular_file 0o100777 1 env.ctx_gid env.ctx_uid s ino s' r in
      let kept = entered-Kept s' r.wf parent name ino s'.nodes (Kept-refl s' r.wf) h in
      let (x, found) =
        get_elem?-inside (entered s' r.wf parent name ino s'.nodes).inodes ino
          (omega (arith, h, kept.count)) in
      let good = truncated-Preserves _ truncates ino x (kept.wf.good ino x found) in
      let s'' = record s' {
        cluster = record s'.cluster {
          blocks = create_empty_block_list_for_inode ino s'.cluster.blocks;
        };
      } in
      Served-after s s'' _ r.grows r.replies (
        rw (made, ◌>>=◌, other, found)
          (answer_nodes-Served s'' r.wf (create (truncated truncates x).fuse_entry_param) _ (
            Kept-trans s'.nodes _ _ kept
              (Kept-set_inode_at _ ino (truncated truncates x) kept.wf good))))

deleted_inodes-modify_inode :
    (i : ℕ) (f : INode → INode) (ns : Nodes)
    → (modify_inode i f ns).deleted_inodes ≡ ns.deleted_inodes
unfolding modify_inode
deleted_inodes-modify_inode i f ns = elim (Option-cases (get_inode i ns)) [
  | inl missing ↦ rw (missing, modify_inode) refl
  | inr (x, found) ↦ rw (found, modify_inode) refl
]

module _ (env : Env) (parent : ℕ) (name : Name) (s : Fs) (w : IsWellFormed s.nodes)
    (free : IsNotNext parent s.nodes) where
  pub fuse_mkdir-Served : Served s (fuse_mkdir env parent name s)
  unfolding fuse_mkdir
  fuse_mkdir-Served =
      with_directory-Served s w parent eisdir (λ children. mkdir_entry env parent name s)
        λ d children found is_dir.
          mkdir_entry-Served env parent name s w (get_elem?-lt s.nodes.inodes parent d found) free

  pub fuse_symlink-Served : (link : Name) → Served s (fuse_symlink env link parent name s)
  unfolding fuse_symlink
  fuse_symlink-Served link =
      with_directory-Served s w parent eisdir (λ children. symlink_entry env link parent name s)
        λ d children found is_dir.
          symlink_entry-Served env parent name s w (get_elem?-lt s.nodes.inodes parent d found) free
            link

  pub fuse_create-Served : (truncates : Bool) → Served s (fuse_create env parent name truncates s)
  unfolding fuse_create
  fuse_create-Served truncates =
      with_directory-Served s w parent enoent _ λ d children found is_dir.
        if-Served s w (ltb k_max_filename_length (length name)) _ _
          (answer-Served s w (err enametoolong))
          (create_entry-Served env parent name s w (get_elem?-lt s.nodes.inodes parent d found) free
            truncates)

  pub fuse_mknod-Served : (mode : ℕ) → Served s (fuse_mknod env parent name mode s)
  unfolding fuse_mknod
  fuse_mknod-Served mode = with_directory-Served s w parent eisdir _ λ d children found is_dir.
      let inside = get_elem?-lt s.nodes.inodes parent d found in
      let linked =
        Kept-modify_inode s.nodes s.nodes parent add_hard_link (Kept-refl s w)
          (add_hard_link-Preserves (number_of_inodes s.nodes)) in
      let s' = with_nodes s (modify_inode parent add_hard_link s.nodes) in
      let free' : IsNotNext parent s'.nodes =
        λ rest e. free rest (sym (deleted_inodes-modify_inode parent add_hard_link s.nodes) ∙ e) in
      if-Served s w (ltb k_max_filename_length (length name)) _ _
        (answer-Served s w (err enametoolong))
        (if-Served s w (is_dir_mode mode) _ _
          (Served-after s s' _ (omega (arith, linked.count)) refl (
            mknod_entry-Served env parent name s' linked.wf (omega (arith, inside, linked.count))
              free' directory 0o40777 2))
          (if-Served s w (is_reg_mode mode) _ _
            (mknod_entry-Served env parent name s w inside free regular_file 0o100777 1)
            (answer-Served s w (err enoent))))
