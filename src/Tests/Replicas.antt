-- ===== src/Tests/Replicas.antt =====
-- Two processes of the peer-to-peer program that serve the same requests.
use dagon_fs.Prelude.{◌≡◌, refl, false, some, [], ◌∷◌, arith, ℕ}
use dagon_fs.Map.{Map, find, insert, erase}
use dagon_fs.Map.Keys.{Name, name_ord, name_cmp}
use dagon_fs.FileSystem.{Env, Fs, register_inode, place_inode}
use dagon_fs.FileSystem.Requests.{Request, handle}
use dagon_fs.FileSystem.Namespace.{tree_of, renamed_by, dir_at}
use dagon_fs.FileSystem.Namespace.Refinement.{handle-renamed_by}
use dagon_fs.Nodes.{
  add_inode, initialize_inode, create_empty_inode, modify_inode, update_child, lookup,
}
use dagon_fs.Blocks.{create_empty_block_list_for_inode}
use dagon_fs.Peers.{Peer, get_dir_name, send_name_request, send_to_all}
use dagon_fs.Peers.Handlers.{peer_handle, peer_create, peer_create_entry, peer_register}
use dagon_fs.Peers.Replicas.{Serves, AllCanServe, idle, serves, Serves-tree_of, create-order}
use dagon_fs.Tests.Trees.{tree, tree-IsWellFormed, test_env, b, f, root_children}
use dagon_fs.Tests.Peers.{peer, peer_env, or_peer}

handle-renamed_by_example :
    (s' : Fs) × (handle test_env (Request.rename 1 f 2 b) tree ≡ some s')
    × (tree_of s' ≡ renamed_by (Request.rename 1 f 2 b) (tree_of tree))
handle-renamed_by_example =
    handle-renamed_by test_env (Request.rename 1 f 2 b) tree tree-IsWellFormed tt refl

-- `c`
abbrev c : Name
c = 99 ∷ []

abbrev create_b : Request
create_b = Request.create 1 b false

abbrev create_c : Request
create_c = Request.create 1 c false

-- Another clock.
abbrev late_env : Env
late_env = record peer_env { now = 9 }

abbrev after : Env → Request → Peer → Peer
after env r p = or_peer (peer_handle env r p)

first_b-Serves :
    (run : Serves
      (peer 0)
      (create_b ∷ create_c ∷ [])
      (after peer_env create_c (after peer_env create_b (peer 0))))
    × AllCanServe
        (peer 0)
        (create_b ∷ create_c ∷ [])
        (after peer_env create_c (after peer_env create_b (peer 0)))
        run
unfolding peer_handle peer_create peer_create_entry peer_register register_inode place_inode
    add_inode initialize_inode create_empty_inode modify_inode update_child lookup find insert
    name_cmp create_empty_block_list_for_inode get_dir_name send_name_request send_to_all erase
first_b-Serves = (
  serves peer_env create_b (create_c ∷ []) (peer 0) _ _ refl
      (serves peer_env create_c [] _ _ _ refl (idle _)),
  (
    record { proper = λ rest e. cc e; fits = omega arith; fresh = refl },
    (record { proper = λ rest e. cc e; fits = omega arith; fresh = refl }, tt),
  ),
)

again_b-Serves :
    (run : Serves
      (peer 1)
      (create_b ∷ create_c ∷ [])
      (after peer_env create_c (after late_env create_b (peer 1))))
    × AllCanServe
        (peer 1)
        (create_b ∷ create_c ∷ [])
        (after peer_env create_c (after late_env create_b (peer 1)))
        run
unfolding peer_handle peer_create peer_create_entry peer_register register_inode place_inode
    add_inode initialize_inode create_empty_inode modify_inode update_child lookup find insert
    name_cmp create_empty_block_list_for_inode get_dir_name send_name_request send_to_all erase
again_b-Serves = (
  serves late_env create_b (create_c ∷ []) (peer 1) _ _ refl
      (serves peer_env create_c [] _ _ _ refl (idle _)),
  (
    record { proper = λ rest e. cc e; fits = omega arith; fresh = refl },
    (record { proper = λ rest e. cc e; fits = omega arith; fresh = refl }, tt),
  ),
)

first_c-Serves :
    (run : Serves
      (peer 1)
      (create_c ∷ create_b ∷ [])
      (after late_env create_b (after peer_env create_c (peer 1))))
    × AllCanServe
        (peer 1)
        (create_c ∷ create_b ∷ [])
        (after late_env create_b (after peer_env create_c (peer 1)))
        run
unfolding peer_handle peer_create peer_create_entry peer_register register_inode place_inode
    add_inode initialize_inode create_empty_inode modify_inode update_child lookup find insert
    name_cmp create_empty_block_list_for_inode get_dir_name send_name_request send_to_all erase
first_c-Serves = (
  serves peer_env create_c (create_b ∷ []) (peer 1) _ _ refl
      (serves late_env create_b [] _ _ _ refl (idle _)),
  (
    record { proper = λ rest e. cc e; fits = omega arith; fresh = refl },
    (record { proper = λ rest e. cc e; fits = omega arith; fresh = refl }, tt),
  ),
)

Serves-tree_of_example :
    tree_of (after peer_env create_c (after peer_env create_b (peer 0))).fs
    ≡ tree_of (after peer_env create_c (after late_env create_b (peer 1))).fs
Serves-tree_of_example =
    Serves-tree_of (peer 0) (peer 1) (after peer_env create_c (after peer_env create_b (peer 0)))
      (after peer_env create_c (after late_env create_b (peer 1))) (create_b ∷ create_c ∷ [])
      tree-IsWellFormed tree-IsWellFormed refl first_b-Serves.0 again_b-Serves.0 first_b-Serves.1
      again_b-Serves.1

create-order_example :
    (here : Map Name ℕ) × (there : Map Name ℕ) × (dir_at 1
        (tree_of (after peer_env create_c (after peer_env create_b (peer 0))).fs)
      ≡ some here)
    × (dir_at 1 (tree_of (after late_env create_b (after peer_env create_c (peer 1))).fs)
        ≡ some there)
    × (find b here ≡ some 4)
    × (find c there ≡ some 4)
create-order_example =
    create-order (peer 0) (peer 1) (after peer_env create_c (after peer_env create_b (peer 0)))
      (after late_env create_b (after peer_env create_c (peer 1))) 1 b c false false false false
      root_children tree-IsWellFormed tree-IsWellFormed refl refl (omega arith) (omega arith)
      (ground arith) first_b-Serves.0 first_c-Serves.0 first_b-Serves.1 first_c-Serves.1
