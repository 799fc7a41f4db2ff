-- ===== src/Tests/Trees.antt =====
-- A tree with the root 1, an empty directory 2 named `a` and a file 3 named `f`.
use dagon_fs.Prelude.{
  ℕ, zero, suc, ◌<◌, ◌≡◌, refl, subst, inl, Option, none, some, some-injective, List, [], ◌∷◌,
  arith, false, true,
}
use dagon_fs.Map.{Map, find, insert}
use dagon_fs.Map.Keys.{Name, name_ord, name_cmp}
use dagon_fs.Map.Laws.{}
use dagon_fs.Blocks.{cs_block_size}
use dagon_fs.Nodes.{
  INode, Kind, file, dir, special, empty_inode, zero_stat, special_inode_type_no_block,
  regular_file, has_children, child_inode_number_with_name, ToSet, EntryParam,
}
use dagon_fs.Nodes.WellFormed.{IsGood, AllGood, IsWellFormed}
use dagon_fs.Nodes.Views.{}
use dagon_fs.Cluster.{Cluster}
use dagon_fs.FileSystem.{
  Fs, Env, err, eexist, entry, start, children_at, register_inode, fuse_init, success,
}
use dagon_fs.Nodes.{get_inode}
use dagon_fs.FileSystem.Registration.{Registered, IsNew, register_inode-IsNew}
use dagon_fs.FileSystem.Inodes.{fuse_lookup}
use dagon_fs.FileSystem.Entries.{fuse_mkdir, fuse_link}
use dagon_fs.FileSystem.Removal.{fuse_unlink, fuse_rmdir, fuse_rename}
use dagon_fs.FileSystem.Served.{}
use dagon_fs.FileSystem.Requests.{}
use dagon_fs.FileSystem.Init.{fuse_init-root, first_inodes}
use dagon_fs.FileSystem.Unlinking.{Unlinked, fuse_unlink-Unlinked, Removed, fuse_rmdir-Removed}
use dagon_fs.FileSystem.Renaming.{Moved, fuse_rename-Moved, fuse_rename_self, child_at}
use dagon_fs.FileSystem.Making.{Found, fuse_lookup-fuse_mkdir}
use dagon_fs.FileSystem.Faults.{fuse_link-taken}

abbrev pub a : Name
a = 97 ∷ []

abbrev pub f : Name
f = 102 ∷ []

abbrev pub b : Name
b = 98 ∷ []

abbrev pub node : ℕ → Kind → ℕ → INode
node i k nlink = record (empty_inode k) {
  inode_number = i;
  fuse_entry_param = record {
    ino = i;
    attr = record zero_stat { st_nlink = nlink };
    attr_timeout = 1;
    entry_timeout = 1;
  };
}

abbrev pub root_children : Map Name ℕ
root_children = (a, 2) ∷ (f, 3) ∷ []

abbrev tree_inodes : List INode
tree_inodes =
    node 0 (special special_inode_type_no_block) 0
    ∷ node 1 (dir root_children) 3
    ∷ node 2 (dir []) 2
    ∷ node 3 (file none false) 1
    ∷ []

root_children-below : (name : Name) (c : ℕ) → find name root_children ≡ some c → c < 4
unfolding find
root_children-below name c e = ground arith

tree-AllGood : AllGood 4 tree_inodes
unfolding find
tree-AllGood zero x e =
    subst (IsGood 4 0) (some-injective _ x e)
      (record { number = refl; ino = refl; children = λ children name c d h. cc d })
tree-AllGood (suc zero) x e = subst (IsGood 4 1) (some-injective _ x e) (record {
  number = refl;
  ino = refl;
  children = λ children name c d h.
      root_children-below name c
        (subst (λ t. find name t ≡ some c) (some-injective children root_children (cc d)) h);
})
tree-AllGood (suc (suc zero)) x e = subst (IsGood 4 2) (some-injective _ x e) (record {
  number = refl;
  ino = refl;
  children = λ children name c d h.
      cc (subst (λ t. find name t ≡ some c) (some-injective children [] (cc d)) h);
})
tree-AllGood (suc (suc (suc zero))) x e =
    subst (IsGood 4 3) (some-injective _ x e)
      (record { number = refl; ino = refl; children = λ children name c d h. cc d })
tree-AllGood (suc (suc (suc (suc i)))) x e = cc e

abbrev pub empty_cluster : Cluster
empty_cluster = record { master_heap = []; blocks = []; nodes = [] }

abbrev pub tree : Fs
tree = record (start empty_cluster) { nodes = record { inodes = tree_inodes; deleted_inodes = [] } }

pub tree-IsWellFormed : IsWellFormed tree.nodes
tree-IsWellFormed = record { good = tree-AllGood; queue = tt }

abbrev pub test_env : Env
test_env = record {
  ctx_uid = 1000;
  ctx_gid = 1000;
  uid = 0;
  gid = 0;
  now = 5;
  alloc = λ size. true;
  block_size = cs_block_size;
}

abbrev pub or_tree : Option Fs → Fs
or_tree none = tree
or_tree (some s) = s

fuse_rename-Moved_example :
    (s' : Fs) × (fuse_rename 1 f 2 b tree ≡ some s') × Moved 1 f 2 b 3 tree s'
unfolding find name_cmp
fuse_rename-Moved_example =
    fuse_rename-Moved 1 f 2 b 3 root_children [] tree tree-IsWellFormed refl refl (ground arith)
      refl (inl (ground arith))

fuse_rename_self_example :
    (s' : Fs) × (fuse_rename 1 f 1 f tree ≡ some s')
    × (child_at 1 f s' ≡ none)
    × (s'.replies ≡ err success ∷ [])
unfolding find name_cmp
fuse_rename_self_example =
    fuse_rename_self 1 f 3 root_children tree tree-IsWellFormed refl refl (ground arith)

fuse_lookup-fuse_mkdir_example :
    (ino : ℕ) × (s' : Fs) × (s'' : Fs) × (fuse_mkdir test_env 2 b tree ≡ some s')
    × (fuse_lookup 2 b s' ≡ some s'')
    × Found ino s' s''
    × (children_at ino s' ≡ some [])
fuse_lookup-fuse_mkdir_example =
    fuse_lookup-fuse_mkdir test_env 2 b [] tree tree-IsWellFormed (λ rest e. cc e) refl
      (omega arith)

fuse_unlink-Unlinked_example :
    (s' : Fs) × (fuse_unlink 1 f tree ≡ some s') × Unlinked 1 f 3 1 root_children tree s'
unfolding find name_cmp
fuse_unlink-Unlinked_example =
    fuse_unlink-Unlinked 1 f 3 1 root_children tree tree-IsWellFormed refl refl (ground arith) refl

fuse_rmdir-Removed_example :
    (s' : Fs) × (fuse_rmdir 1 a tree ≡ some s') × Removed 1 a 2 3 root_children tree s'
unfolding find name_cmp has_children
fuse_rmdir-Removed_example =
    fuse_rmdir-Removed 1 a 2 root_children [] tree 2 3 refl refl (ground arith) (ground arith) refl
      refl refl refl (omega arith)

-- The tree where directory 2 has the file as its child `b`.
abbrev full_tree : Fs
full_tree = record tree {
  nodes = record {
    inodes =
        node 0 (special special_inode_type_no_block) 0
        ∷ node 1 (dir root_children) 3
        ∷ node 2 (dir ((b, 3) ∷ [])) 2
        ∷ node 3 (file none false) 1
        ∷ [];
    deleted_inodes = [];
  };
}

register_inode-IsNew_example :
    (ino : ℕ) × (s' : Fs) × (x : INode) × (register_inode test_env regular_file 0o100777 1 8 9 tree
      ≡ some (ino, s'))
    × Registered test_env regular_file 0o100777 1 8 9 tree ino s'
    × (get_inode ino s'.nodes ≡ some x)
    × IsNew test_env regular_file 0o100777 1 8 9 ino x
register_inode-IsNew_example =
    register_inode-IsNew test_env regular_file 0o100777 1 8 9 tree tree-IsWellFormed

fuse_init-root_example :
    (s : Fs) × (fuse_init test_env (start empty_cluster) ≡ some s)
    × IsWellFormed s.nodes
    × (s.nodes.inodes ≡ first_inodes test_env)
    × (children_at 1 s ≡ some [])
fuse_init-root_example = fuse_init-root test_env empty_cluster

abbrev nothing : ToSet
nothing = record {
  set_mode = false;
  set_uid = false;
  set_gid = false;
  set_size = false;
  set_atime = false;
  set_mtime = false;
  set_ctime = false;
}

fuse_link-taken_example :
    (s' : Fs) × (p : EntryParam) × (fuse_link 3 1 a tree ≡ some s')
    × (s'.replies ≡ entry p ∷ err eexist ∷ [])
    × (children_at 1 s' ≡ some (insert a 3 root_children))
unfolding find name_cmp child_inode_number_with_name
fuse_link-taken_example =
    fuse_link-taken 3 1 a root_children (node 3 (file none false) 1) tree refl refl refl
      (ground arith)
