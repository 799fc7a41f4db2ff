-- ===== src/FileSystem/Init.antt =====
-- `FuseInit` on the state before the first request.
use dagon_fs.Prelude.{zero, suc, ◌≡◌, refl, subst, some-injective, some, List, [], ◌∷◌}
use dagon_fs.Cluster.{Cluster}
use dagon_fs.Nodes.{
  INode, directory, special_inode_type_no_block, initialize_inode, create_empty_inode,
}
use dagon_fs.Nodes.WellFormed.{AllGood, IsGood, IsWellFormed, initialize_inode-IsGood}
use dagon_fs.FileSystem.{Fs, Env, fuse_init, start, children_at}

-- The two inodes of the new file system.
abbrev pub first_inodes : Env → List INode
first_inodes env =
    initialize_inode env.block_size env.now 0 0o777 0 env.gid env.uid
      (create_empty_inode special_inode_type_no_block)
    ∷ initialize_inode env.block_size env.now 1 0o40777 3 env.gid env.uid
        (create_empty_inode directory)
    ∷ []

first_inodes-AllGood : (env : Env) → AllGood 2 (first_inodes env)
first_inodes-AllGood env zero x e = subst (IsGood 2 0) (some-injective _ x e) (
    initialize_inode-IsGood 2 env.block_size env.now 0 0o777 0 env.gid env.uid
      special_inode_type_no_block)
first_inodes-AllGood env (suc zero) x e =
    subst (IsGood 2 1) (some-injective _ x e)
      (initialize_inode-IsGood 2 env.block_size env.now 1 0o40777 3 env.gid env.uid directory)
first_inodes-AllGood env (suc (suc i)) x e = cc e

-- On the state before the first request `FuseInit` returns: inode 0 is special, inode 1 is a
-- directory without children, there is no other, and the file system is well formed.
pub fuse_init-root :
    (env : Env) (c : Cluster)
    → (s : Fs) × (fuse_init env (start c) ≡ some s)
      × IsWellFormed s.nodes
      × (s.nodes.inodes ≡ first_inodes env)
      × (children_at 1 s ≡ some [])
unfolding fuse_init initialize_inode create_empty_inode
fuse_init-root env c = (_, refl, record { good = first_inodes-AllGood env; queue = tt }, refl, refl)
