-- ===== src/FileSystem/Making.antt =====
-- What lookup finds, and what mkdir makes.
use dagon_fs.Prelude.{
  ℕ, ◌<◌, ◌≤◌, ◌≡◌, ◌≢◌, ◌∙◌, refl, ap, inl, inr, some, [], ◌∷◌, arith, subst, ◌>>=◌, >>=-eq-some,
  get_elem?-inside, get_elem?-lt, get_elem?-set_self,
}
use dagon_fs.Map.{Map, find, insert}
use dagon_fs.Map.Keys.{Name, name_ord}
use dagon_fs.Map.Laws.{find-insert_self}
use dagon_fs.Blocks.{}
use dagon_fs.Nodes.{
  INode, EntryParam, directory, get_inode, set_inode_at, modify_inode, as_directory, no_ino,
  number_of_inodes, lookup, add_hard_link, update_child, create_empty_inode, initialize_inode,
}
use dagon_fs.Nodes.WellFormed.{IsWellFormed, AllBelow, add_hard_link-Preserves}
use dagon_fs.Nodes.Views.{
  view, view-modify_ne, view-modify_kept, children-update_child, as_directory-lookup,
  as_directory-add_hard_link,
}
use dagon_fs.FileSystem.{Fs, Env, entry, enoent, eisdir, children_at, reply, with_nodes}
use dagon_fs.FileSystem.Guards.{with_directory-children, with_child-found}
use dagon_fs.FileSystem.Registration.{Registered, register_inode-Registered}
use dagon_fs.FileSystem.Inodes.{fuse_lookup, lookup_child}
use dagon_fs.FileSystem.Entries.{fuse_mkdir, mkdir_entry}
use dagon_fs.FileSystem.Served.{Kept-refl, Kept-modify_inode}
use dagon_fs.FileSystem.Served.Entries.{
  IsNotNext, Registered-inside, Registered-other, entered-Kept,
}

-- The reply to a lookup that finds inode `ino`, whose lookups it counts.
pub record Found (ino : ℕ) (s s' : Fs) : Type 0 where
  pub inode : INode
  known : get_inode ino s.nodes ≡ some inode
  pub number : inode.fuse_entry_param.ino ≡ ino
  pub counted : get_inode ino s'.nodes ≡ some (lookup inode)
  pub answered : s'.replies ≡ entry inode.fuse_entry_param ∷ s.replies

-- On a well-formed file system, where the name stands for an inode (whose number is not -1),
-- lookup returns, replies with the entry of that inode, which carries its number, and counts one
-- lookup more.
fuse_lookup-Found :
    (parent : ℕ) (name : Name) (ino : ℕ) (old : Map Name ℕ) (s : Fs)
    → IsWellFormed s.nodes
    → children_at parent s ≡ some old
    → find name old ≡ some ino
    → ino ≢ no_ino
    → (s' : Fs) × (fuse_lookup parent name s ≡ some s') × Found ino s s'
unfolding fuse_lookup lookup_child
fuse_lookup-Found parent name ino old s w e is_child real =
    let (d, found, is_dir) = >>=-eq-some (get_inode parent s.nodes) as_directory e in
    let below = (w.good parent d found).children old name ino is_dir is_child in
    let (x, here) = get_elem?-inside s.nodes.inodes ino below in
    (
      reply (entry x.fuse_entry_param) (with_nodes s (set_inode_at ino (lookup x) s.nodes)),
      with_directory-children parent enoent s _ old e
          ∙ with_child-found name old s (lookup_child s) ino is_child real
          ∙ rw here refl,
      record {
        inode = x;
        known = here;
        number = (w.good ino x here).ino;
        counted = get_elem?-set_self s.nodes.inodes ino (lookup x) below;
        answered = refl;
      },
    )

-- What `FuseMkdir` leaves: an empty directory under the name.
pub record Made (parent : ℕ) (name : Name) (old : Map Name ℕ) (s : Fs) (ino : ℕ) (s' : Fs)
    : Type 0 where
  pub wf : IsWellFormed s'.nodes
  pub fresh : ino ≤ number_of_inodes s.nodes
  pub named : children_at parent s' ≡ some (insert name ino old)
  pub empty : children_at ino s' ≡ some []
  pub entry_param : EntryParam
  pub number : entry_param.ino ≡ ino
  pub answered : s'.replies ≡ entry entry_param ∷ s.replies

Registered-fresh :
    (env : Env) (mode nlink gid uid : ℕ) (s : Fs) (ino : ℕ) (s' : Fs)
    → IsWellFormed s.nodes
    → Registered env directory mode nlink gid uid s ino s'
    → ino ≤ number_of_inodes s.nodes
Registered-fresh env mode nlink gid uid s ino s' w r = elim r.source [
  | inl new ↦ omega arith
  | inr (rest, e) ↦
      let below : AllBelow (number_of_inodes s.nodes) (ino ∷ rest) =
        subst (AllBelow (number_of_inodes s.nodes)) e w.queue in
      omega (arith, below.0)
]

-- On a well-formed file system, in a directory that is not the next to be reclaimed, mkdir
-- returns: it sends one entry, with the number of an inode that is an empty directory and that
-- the name stands for; the number is at most that of the inodes there were, and the file system
-- is well formed.
fuse_mkdir-Made :
    (env : Env) (parent : ℕ) (name : Name) (old : Map Name ℕ) (s : Fs)
    → IsWellFormed s.nodes
    → IsNotNext parent s.nodes
    → children_at parent s ≡ some old
    → (ino : ℕ) × (s' : Fs) × (fuse_mkdir env parent name s ≡ some s')
      × Made parent name old s ino s'
unfolding fuse_mkdir mkdir_entry create_empty_inode initialize_inode
fuse_mkdir-Made env parent name old s w free e =
    let (d, found, is_dir) = >>=-eq-some (get_inode parent s.nodes) as_directory e in
    let inside = get_elem?-lt s.nodes.inodes parent d found in
    let (ino, s₁, made, r) =
      register_inode-Registered env directory 0o40777 2 env.gid env.uid s w in
    let other =
      Registered-other env directory 0o40777 2 env.gid env.uid s ino s₁ parent r inside free in
    let ne : ino ≢ parent = ground arith in
    let ne' : parent ≢ ino = ground arith in
    let h = Registered-inside env directory 0o40777 2 env.gid env.uid s ino s₁ r in
    let before : view as_directory parent s₁.nodes ≡ some old =
      ap (λ o. o >>= as_directory) (r.others parent inside ne) ∙ e in
    let ns₂ = modify_inode parent (update_child name ino) s₁.nodes in
    let ns₃ = modify_inode ino lookup ns₂ in
    let ns₄ = modify_inode parent add_hard_link ns₃ in
    let kept =
      Kept-modify_inode s₁.nodes ns₃ parent add_hard_link
        (entered-Kept s₁ r.wf parent name ino s₁.nodes (Kept-refl s₁ r.wf) h)
        (add_hard_link-Preserves (number_of_inodes s₁.nodes)) in
    let (x, here) = get_elem?-inside ns₄.inodes ino (omega (arith, h, kept.count)) in
    let seen : (j : ℕ) → view as_directory j ns₄ ≡ view as_directory j ns₂ = λ j.
      view-modify_kept as_directory parent add_hard_link ns₃ j as_directory-add_hard_link
      ∙ view-modify_kept as_directory ino lookup ns₂ j as_directory-lookup in
    (
      ino,
      reply (entry x.fuse_entry_param) (with_nodes s₁ ns₄),
      with_directory-children parent eisdir s (λ children. mkdir_entry env parent name s) old e
          ∙ rw (made, ◌>>=◌, other, here) refl,
      record {
        wf = kept.wf;
        fresh = Registered-fresh env 0o40777 2 env.gid env.uid s ino s₁ w r;
        named = seen parent ∙ children-update_child parent name ino s₁.nodes old before;
        empty =
            seen ino
            ∙ view-modify_ne as_directory parent (update_child name ino) s₁.nodes ino ne'
            ∙ ap (λ o. o >>= as_directory) r.new;
        entry_param = x.fuse_entry_param;
        number = (kept.wf.good ino x here).ino;
        answered = ap (λ l. entry x.fuse_entry_param ∷ l) r.replies;
      },
    )

-- On a well-formed file system of fewer than 2 ^ 31 - 1 inodes, in a directory that is not the
-- next to be reclaimed: mkdir returns, a lookup of the name right after it returns too and
-- replies with the entry of the inode made, and this is a directory without children.
pub fuse_lookup-fuse_mkdir :
    (env : Env) (parent : ℕ) (name : Name) (old : Map Name ℕ) (s : Fs)
    → IsWellFormed s.nodes
    → IsNotNext parent s.nodes
    → children_at parent s ≡ some old
    → number_of_inodes s.nodes < 2147483647
    → (ino : ℕ) × (s' : Fs) × (s'' : Fs) × (fuse_mkdir env parent name s ≡ some s')
      × (fuse_lookup parent name s' ≡ some s'')
      × Found ino s' s''
      × (children_at ino s' ≡ some [])
fuse_lookup-fuse_mkdir env parent name old s w free e few =
    let (ino, s', made, m) = fuse_mkdir-Made env parent name old s w free e in
    let real : ino ≢ no_ino = omega (arith, m.fresh) in
    let (s'', looked, f) =
      fuse_lookup-Found parent name ino (insert name ino old) s' m.wf m.named
        (find-insert_self name ino old) real in
    (ino, s', s'', made, looked, f, m.empty)
