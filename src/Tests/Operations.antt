-- ===== src/Tests/Operations.antt =====
-- A session of two requests: a program writes to a file, and renames it.
use dagon_fs.Prelude.{ℕ, ◌≡◌, refl, subst, some, none, false, List, [], ◌∷◌, arith, some-injective}
use dagon_fs.Map.{find, insert, erase}
use dagon_fs.Map.Keys.{Name, name_cmp}
use dagon_fs.Cluster.{Byte}
use dagon_fs.Nodes.{
  INode, file, get_inode, modify_inode, update_child, delete_child, remove_hard_link,
  child_inode_number_with_name,
}
use dagon_fs.FileSystem.{Env, Fs, update_used_blocks}
use dagon_fs.FileSystem.Requests.{Request, handle}
use dagon_fs.FileSystem.Removal.{fuse_rename, rename_child, rename_links}
use dagon_fs.FileSystem.Files.{fuse_write, write_kind, write_file, grow, poke}
use dagon_fs.FileSystem.Served.{Served}
use dagon_fs.FileSystem.Served.Files.{CanWrite}
use dagon_fs.FileSystem.Operations.{
  Operation, operate, operate-Served, Session, done, next, AllServable, IsSound, Session-IsSound,
}
use dagon_fs.Tests.Transfers.{list_mpi}
use dagon_fs.Tests.Trees.{b, f, node, tree, tree-IsWellFormed, test_env, or_tree}

abbrev entry_size : Name → ℕ
entry_size name = 32

-- Blocks of 8 bytes.
abbrev small_env : Env
small_env = record test_env { block_size = 8 }

abbrev written : Operation
written = Operation.write 3 (some (some 7 ∷ some 8 ∷ [])) 5

abbrev renamed : Operation
renamed = Operation.table (Request.rename 1 f 2 b)

can_write :
    (content : List Byte) (x : INode)
    → some (some 7 ∷ some 8 ∷ []) ≡ some content
    → get_inode 3 tree.nodes ≡ some x
    → CanWrite 8 small_env content 5 x x.kind
can_write content x same found =
    subst (λ c. CanWrite 8 small_env c 5 x x.kind) (some-injective _ _ same)
      (subst (λ y. CanWrite 8 small_env (some 7 ∷ some 8 ∷ []) 5 y y.kind)
        (some-injective (node 3 (file none false) 1) x found)
        (omega arith, λ n. refl, omega arith, omega arith, omega arith))

operate-Served_example : Served tree (operate list_mpi entry_size small_env written tree)
operate-Served_example =
    operate-Served list_mpi entry_size small_env written tree tree-IsWellFormed can_write

abbrev after_first : Fs
after_first = or_tree (operate list_mpi entry_size small_env written tree)

abbrev after_second : Fs
after_second = or_tree (operate list_mpi entry_size small_env renamed after_first)

two_requests :
    (run : Session list_mpi entry_size tree 2 after_second) × AllServable list_mpi entry_size tree 2
      after_second run
unfolding operate handle fuse_write write_kind write_file grow poke update_used_blocks fuse_rename
    rename_child rename_links find insert erase name_cmp update_child delete_child remove_hard_link
    modify_inode child_inode_number_with_name
two_requests = (
  next small_env written tree after_first after_second 1 refl
      (next small_env renamed after_first after_second after_second 0 refl (done after_second)),
  (can_write, (tt, tt)),
)

Session-IsSound_example : IsSound list_mpi entry_size 2 tree after_second
Session-IsSound_example =
    Session-IsSound list_mpi entry_size tree 2 after_second tree-IsWellFormed two_requests.0
      two_requests.1
