-- ===== src/Tests/Renames.antt =====
-- A process whose directory `a` is renamed to `b`, and then gets a file `f`.
use dagon_fs.Prelude.{ℕ, ◌≡◌, refl, false, none, some, [], ◌∷◌, ◌++◌, arith}
use dagon_fs.Map.{Map, find, insert, erase}
use dagon_fs.Map.Keys.{Name, name_ord, nat_ord, name_cmp}
use dagon_fs.Nodes.{
  child_inode_number_with_name, add_inode, initialize_inode, modify_inode, update_child, lookup,
  delete_child, add_hard_link, remove_hard_link,
}
use dagon_fs.FileSystem.{register_inode, place_inode}
use dagon_fs.FileSystem.Removal.{rename_child, rename_links}
use dagon_fs.FileSystem.Requests.{Request}
use dagon_fs.FileSystem.Namespace.{tree_of, dir_at}
use dagon_fs.Peers.{
  Peer, create_file, name_packet, get_dir_name, send_to_all, send_name_request, send_rename_request,
}
use dagon_fs.Peers.Handlers.{
  peer_handle, peer_rename, peer_rename_child, peer_create, peer_create_entry, peer_register,
}
use dagon_fs.Peers.Replicas.{}
use dagon_fs.Peers.Paths.Stale.{create-stale}
use dagon_fs.Tests.Trees.{a, b, f, root_children, tree-IsWellFormed}
use dagon_fs.Tests.Peers.{peer, peer_env, or_peer}

-- The directories `/` and `/a/`.
abbrev named : Peer
named = record (peer 0) { dir_names = (1, 47 ∷ []) ∷ (2, 47 ∷ 97 ∷ 47 ∷ []) ∷ [] }

abbrev a_to_b : Request
a_to_b = Request.rename 1 a 1 b

abbrev renamed : Peer
renamed = or_peer (peer_handle peer_env a_to_b named)

abbrev with_file : Peer
with_file = or_peer (peer_handle peer_env (Request.create 2 f false) renamed)

create-stale_example :
    (after : Map Name ℕ) × (dir_at 1 (tree_of renamed.fs) ≡ some after)
    × (find a after ≡ none)
    × (with_file.sent
        ≡ renamed.sent ++ send_to_all create_file (name_packet ((47 ∷ 97 ∷ 47 ∷ []) ++ f)) 0 0 3)
unfolding peer_handle peer_rename peer_rename_child rename_child rename_links peer_create
    peer_create_entry peer_register register_inode place_inode add_inode initialize_inode
    modify_inode update_child delete_child lookup add_hard_link remove_hard_link get_dir_name find
    send_name_request send_rename_request insert erase child_inode_number_with_name name_cmp
create-stale_example =
    create-stale peer_env peer_env 1 a 1 b root_children root_children 2 f false named renamed
      with_file tree-IsWellFormed
      (record { proper = tt; fits = (omega arith, omega arith); fresh = refl }) refl refl
      (omega arith) refl refl refl refl
