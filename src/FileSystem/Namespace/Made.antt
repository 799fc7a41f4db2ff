-- ===== src/FileSystem/Namespace/Made.antt =====
-- What the handlers that add a name do to the names.
use dagon_fs.Prelude.{
  ℕ, ◌≡◌, refl, ap, sym, ◌∙◌, subst, Bool, true, false, Option, none, some, [], ◌∷◌, ◌++◌, length,
  if◌then◌else◌, Bool-cases, inl, inr, Bool-cases, inl, inr, some-injective,
}
use dagon_fs.Map.{Map, insert}
use dagon_fs.Map.Keys.{Name, name_ord}
use dagon_fs.Blocks.{create_empty_block_list_for_inode}
use dagon_fs.Nodes.{
  INode, INodeType, regular_file, directory, symbolic_link, symlink, as_directory, get_inode,
  modify_inode, create_empty_inode, lookup, add_hard_link, update_child,
}
use dagon_fs.Nodes.Views.{as_directory-lookup, as_directory-add_hard_link}
use dagon_fs.FileSystem.{Fs, Env, reply, with_nodes, err, eexist}
use dagon_fs.FileSystem.Entries.{
  mknod_entry, mkdir_entry, symlink_entry, create_entry, link_entry, truncated, is_taken,
}
use dagon_fs.FileSystem.Removal.{}
use dagon_fs.FileSystem.Requests.{}
use dagon_fs.FileSystem.Namespace.{Tree, tree_of, put, added}
use dagon_fs.FileSystem.Namespace.Trees.{
  dirs-set_inode_at, dirs-modify_at, dirs-modify_kept, dirs-update_child,
}
use dagon_fs.FileSystem.Namespace.Shows.{
  Shows, Shows-some, Shows-bind, Shows-register, Shows-enter, Shows-answer_entry,
}

-- The end of the handlers that make an inode.
pub named_lem :
    (parent : ℕ) (name : Name) (entry : Option (Map Name ℕ)) (tree tree' : Tree) (s : Fs)
    → tree_of s ≡ put parent (insert name (length tree)) tree'
    → tree' ≡ tree ++ entry ∷ []
    → tree_of s ≡ added entry parent name tree
named_lem parent name entry tree tree' s entered grown =
    entered ∙ ap (put parent (insert name (length tree))) grown

pub mknod_entry-Shows :
    (env : Env) (type : INodeType) (mode nlink parent : ℕ) (name : Name) (s : Fs) (tree : Tree)
    → s.reclaiming_inodes ≡ false
    → tree_of s ≡ tree
    → Shows
        (added (as_directory (create_empty_inode type)) parent name tree)
        (mknod_entry env type mode nlink parent name s)
unfolding mknod_entry
mknod_entry-Shows env type mode nlink parent name s tree fresh same =
    let goal = added (as_directory (create_empty_inode type)) parent name in
    subst (λ t. Shows (goal t) (mknod_entry env type mode nlink parent name s)) same
      (Shows-register s env type mode nlink env.ctx_uid env.ctx_gid (goal (tree_of s)) _ fresh
        λ s₁ x kind here grown.
          Shows-enter parent name (length (tree_of s)) s₁ (goal (tree_of s)) _ λ s₂ entered.
            Shows-answer_entry (length (tree_of s)) s₂ _
              (named_lem parent name _ (tree_of s) (tree_of s₁) s₂ entered grown))

pub mkdir_entry-Shows :
    (env : Env) (parent : ℕ) (name : Name) (s : Fs)
    → s.reclaiming_inodes ≡ false
    → Shows (added (some []) parent name (tree_of s)) (mkdir_entry env parent name s)
unfolding mkdir_entry create_empty_inode
mkdir_entry-Shows env parent name s fresh =
    let tree = added (some []) parent name (tree_of s) in
    Shows-register s env directory 0o40777 2 env.gid env.uid tree _ fresh λ s₁ x kind here grown.
      Shows-enter parent name (length (tree_of s)) s₁ tree _ λ s₂ entered.
        Shows-answer_entry (length (tree_of s)) _ tree (
          dirs-modify_kept parent add_hard_link s₂.nodes as_directory-add_hard_link
          ∙ named_lem parent name (some []) (tree_of s) (tree_of s₁) s₂ entered grown)

pub symlink_entry-Shows :
    (env : Env) (link : Name) (parent : ℕ) (name : Name) (s : Fs)
    → s.reclaiming_inodes ≡ false
    → Shows (added none parent name (tree_of s)) (symlink_entry env link parent name s)
unfolding symlink_entry create_empty_inode
symlink_entry-Shows env link parent name s fresh =
    let tree = added none parent name (tree_of s) in
    let ino = length (tree_of s) in
    Shows-register s env symbolic_link 0o120755 1 env.ctx_gid env.ctx_uid tree _ fresh
      λ s₁ x kind here grown.
        Shows-enter parent name ino
          (with_nodes s₁ (modify_inode ino (λ z. record z { kind = symlink link }) s₁.nodes)) tree _
          λ s₂ entered. Shows-answer_entry ino s₂ tree (
            named_lem parent name none (tree_of s) _ s₂ entered (
              dirs-modify_at ino _ s₁.nodes
                (λ y found. sym (ap as_directory (some-injective y x (sym found ∙ here)) ∙ kind))
              ∙ grown))

as_directory-truncated : (b : Bool) (x : INode) → as_directory (truncated b x) ≡ as_directory x
as_directory-truncated true x = refl
as_directory-truncated false x = refl

pub create_entry-Shows :
    (env : Env) (parent : ℕ) (name : Name) (truncates : Bool) (s : Fs)
    → s.reclaiming_inodes ≡ false
    → Shows (added none parent name (tree_of s)) (create_entry env parent name truncates s)
unfolding create_entry create_empty_inode
create_entry-Shows env parent name truncates s fresh =
    let tree = added none parent name (tree_of s) in
    let ino = length (tree_of s) in
    Shows-register s env regular_file 0o100777 1 env.ctx_gid env.ctx_uid tree _ fresh
      λ s₁ x kind here grown.
        Shows-enter parent name ino
          (record s₁ {
            cluster = record s₁.cluster {
              blocks = create_empty_block_list_for_inode ino s₁.cluster.blocks;
            };
          })
          tree _
          λ s₂ entered. Shows-bind tree (get_inode ino s₂.nodes) _ λ y found. Shows-some tree _ (
            dirs-set_inode_at ino (truncated truncates y) y s₂.nodes found
              (as_directory-truncated truncates y)
            ∙ named_lem parent name none (tree_of s) (tree_of s₁) s₂ entered grown)

pub link_entry-Shows :
    (ino newparent : ℕ) (newname : Name) (s : Fs) (children : Map Name ℕ)
    → Shows
        (put newparent (insert newname ino) (tree_of s))
        (link_entry ino newparent newname s children)
unfolding link_entry
link_entry-Shows ino newparent newname s children =
    let s₁ = if is_taken newname children then reply (err eexist) s else s in
    let same : tree_of s₁ ≡ tree_of s = elim (Bool-cases (is_taken newname children)) [
      | inl taken ↦ rw (taken, if◌then◌else◌) refl
      | inr free ↦ rw (free, if◌then◌else◌) refl
    ] in
    let ns = modify_inode newparent (update_child newname ino) s₁.nodes in
    Shows-answer_entry ino
      (with_nodes s₁ (modify_inode ino lookup (modify_inode ino add_hard_link ns))) _
      (dirs-modify_kept ino lookup (modify_inode ino add_hard_link ns) as_directory-lookup
        ∙ dirs-modify_kept ino add_hard_link ns as_directory-add_hard_link
        ∙ dirs-update_child newparent newname ino s₁.nodes
        ∙ ap (put newparent (insert newname ino)) same)
