-- ===== src/Tests/Peers.antt =====
-- Three processes of the peer-to-peer program.
use dagon_fs.Prelude.{
  ℕ, ◌≡◌, refl, Bool, true, false, Option, none, some, List, [], ◌∷◌, ◌++◌, replicate, length,
  get_elem?, ◌≤◌, arith, ◌⊎◌, ◌>>=◌,
}
use dagon_fs.Map.{find}
use dagon_fs.Map.Keys.{Name}
use dagon_fs.Cluster.{Byte}
use dagon_fs.Nodes.{
  INode, file, empty_inode, attr_of, with_attr, set_inode_at, add_inode, initialize_inode,
  modify_inode, update_child, lookup, add_hard_link,
}
use dagon_fs.FileSystem.{with_nodes, Env, register_inode, place_inode}
use dagon_fs.FileSystem.Entries.{fuse_mkdir, mkdir_entry}
use dagon_fs.FileSystem.Requests.{Request, handle}
use dagon_fs.Peers.{
  get_dir_name, name_size, Peer, Flags, Packet, IoRequest, read, create_dir, request, name_packet,
  terminate, send_to_all,
}
use dagon_fs.Peers.Transfer.{peer_number_of_blocks, peers_write, peers_read}
use dagon_fs.Peers.Transfer.Saved.{HaveInode, no_peer, has_inode, index_of}
use dagon_fs.Peers.Transfer.ReadBack.{peers_read-peers_write}
use dagon_fs.Peers.Transfer.Sync.{Knows, peers_write-Knows}
use dagon_fs.Peers.Files.{peer_open, peer_flush}
use dagon_fs.Peers.Files.Handled.{buffer_at}
use dagon_fs.Peers.Files.Storage.{peer_open-peer_flush}
use dagon_fs.Peers.Handlers.{with_fs, peer_handle, slash}
use dagon_fs.Peers.Handlers.Refinement.{peer_handle-handle}
use dagon_fs.Peers.Handlers.Announcing.{Told, Refused}
use dagon_fs.Peers.Handlers.Broadcast.{peer_handle-Told}
use dagon_fs.Peers.Loop.{call_with, Call, Loop, awaits_request, run, raised, stopped}
use dagon_fs.Peers.Loop.Whole.{
  Message, create_dir_message, read_message, arrivals, all_arrivals, perform_all, run-all_arrivals,
}
use dagon_fs.FileSystem.Namespace.{tree_of, added}
use dagon_fs.Peers.Replicas.{}
use dagon_fs.Peers.Loop.Stopping.{run-terminate}
use dagon_fs.Peers.Loop.Delivery.{packets_for, packets_for-send_to_all}
use dagon_fs.Peers.Loop.Lost.{run-failed}
use dagon_fs.Tests.Transfers.{list_mpi, list_mpi-IsMpi}
use dagon_fs.Tests.Trees.{tree, root_children, tree-IsWellFormed, test_env, b, or_tree}
use dagon_fs.Blocks.{p2p_block_size}

-- The environment of a process.
abbrev pub peer_env : Env
peer_env = record test_env { block_size = p2p_block_size }

abbrev no_flags : Flags
no_flags = record {
  unmount_from_thread = false;
  create_file_from_thread = false;
  delete_file_from_thread = false;
  create_dir_from_thread = false;
  delete_dir_from_thread = false;
  rename_from_thread = false;
}

abbrev pub peer : ℕ → Peer
peer rank = record {
  fs = tree;
  dir_names = (1, 47 ∷ []) ∷ [];
  flags = no_flags;
  mpi_rank = rank;
  mpi_world_size = 3;
  sent = [];
}

abbrev three_peers : List Peer
three_peers = peer 0 ∷ peer 1 ∷ peer 2 ∷ []

three_peers-HaveInode : HaveInode 3 three_peers
three_peers-HaveInode =
    has_inode (peer 0) _ (omega arith)
      (has_inode (peer 1) _ (omega arith) (has_inode (peer 2) _ (omega arith) no_peer))

abbrev content : List Byte
content = replicate 24 (some 7)

peers_read-peers_write_example :
    (peers' : List Peer) × (peers_write list_mpi 8 1 3 20 content three_peers ≡ some peers')
    × (peers_read list_mpi 8 2 3 20 20 peers' ≡ some (some content))
unfolding peer_number_of_blocks
peers_read-peers_write_example =
    peers_read-peers_write list_mpi list_mpi-IsMpi 8 1 2 3 20 20 content three_peers (omega arith)
      (omega arith) (omega arith) (omega arith) (omega arith) three_peers-HaveInode (omega arith)

peers_write-Knows_example :
    (peers' : List Peer) × (a' : Peer) × (b' : Peer) × (peers_write list_mpi 8 1 3 20 content
        three_peers
      ≡ some peers')
    × (get_elem? peers' 0 ≡ some a')
    × (get_elem? peers' 1 ≡ some b')
    × (index_of a' ≡ index_of b')
    × Knows 3 20 a'
unfolding peer_number_of_blocks
peers_write-Knows_example =
    peers_write-Knows list_mpi 8 1 3 20 content three_peers 0 1 (peer 0) (peer 1) (omega arith)
      (omega arith) (omega arith) three_peers-HaveInode refl refl refl (omega arith)

-- A directory `b` in the root.
abbrev make_b : Request
make_b = Request.mkdir 1 b

abbrev pub or_peer : Option Peer → Peer
or_peer none = peer 0
or_peer (some p) = p

made_b : handle peer_env make_b tree ≡ some (or_tree (handle peer_env make_b tree))
unfolding handle fuse_mkdir mkdir_entry register_inode place_inode add_inode initialize_inode
    modify_inode update_child lookup add_hard_link
made_b = refl

b-Fits : length (get_dir_name 1 (peer 0) ++ (b ++ slash)) ≤ name_size
unfolding get_dir_name find
b-Fits = omega arith

peer_handle-handle_example :
    (q : Peer) × (peer_handle peer_env make_b (peer 0) ≡ some q)
    × (q.fs ≡ or_tree (handle peer_env make_b tree))
peer_handle-handle_example = peer_handle-handle peer_env make_b (peer 0) _ b-Fits made_b

-- The process behind the request.
abbrev with_b : Peer
with_b = (peer_handle-handle peer_env make_b (peer 0) _ b-Fits made_b).0

peer_handle-Told_example : Told make_b (peer 0) with_b ⊎ Refused (peer 0) with_b
peer_handle-Told_example =
    peer_handle-Told peer_env make_b (peer 0) with_b
      (peer_handle-handle peer_env make_b (peer 0) _ b-Fits made_b).1

-- A kernel that does nothing, with success and without.
abbrev kernel : Bool → Call → Peer → Bool × Peer
kernel succeeds c p = (succeeds, p)

abbrev waiting : Loop
waiting = record { peer = peer 0; mode = awaits_request; transfers = [] }

abbrev path : Name
path = 47 ∷ 98 ∷ 47 ∷ []

abbrev io : IoRequest
io = record { inode = 3; file_size = 20; req_size = 20; offset = 0 }

abbrev messages : List (ℕ × Message)
messages = (1, create_dir_message path) ∷ (2, read_message io) ∷ []

abbrev ending : List (ℕ × Packet)
ending = (2, request terminate) ∷ []

run-all_arrivals_example :
    run (kernel true) (all_arrivals messages ++ ending) waiting
    ≡ (perform_all (kernel true) messages waiting >>= run (kernel true) ending)
run-all_arrivals_example =
    run-all_arrivals (kernel true) (λ c p. refl) messages ending waiting refl
      (λ e. ground arith, (λ e. ground arith, tt))

-- The loop behind the messages.
abbrev served : Loop
served = record {
  peer = raised create_dir (peer 0);
  mode = awaits_request;
  transfers = (read, 2, io) ∷ [];
}

run-terminate_example :
    run (kernel true) (all_arrivals messages ++ (2, request terminate) ∷ ending) waiting
    ≡ some (record served { peer = raised terminate served.peer; mode = stopped })
unfolding call_with
run-terminate_example =
    run-terminate (kernel true) (λ c p. refl) messages 2 ending waiting served refl
      (λ e. ground arith, (λ e. ground arith, tt)) refl

packets_for-send_to_all_example :
    packets_for 2 (send_to_all create_dir (name_packet path) 0 0 3)
    ≡ request create_dir ∷ name_packet path ∷ []
packets_for-send_to_all_example =
    packets_for-send_to_all create_dir (name_packet path) 0 2 3 (omega arith)

run-failed_example :
    (l : Loop) × (q : Peer) × (run (kernel false) (arrivals (1, create_dir_message path)) waiting
      ≡ some l)
    × (l.mode ≡ awaits_request)
    × (peer_handle peer_env make_b l.peer ≡ some q)
    × (q.sent ≡ [])
    × (tree_of q.fs ≡ added (some []) 1 b (tree_of tree))
run-failed_example =
    run-failed (kernel false) peer_env 1 1 path b root_children waiting refl (λ e. ground arith)
      (omega arith) (λ p. refl) tree-IsWellFormed
      (record { proper = λ rest e. cc e; fits = b-Fits; fresh = refl }) refl

abbrev a_file : Option (List Byte) → (waiting : Bool) → (size : ℕ) → INode
a_file m_buf waiting size =
    let x = empty_inode (file m_buf waiting) in with_attr x (record (attr_of x) { st_size = size })

-- The inode 3 of a process becomes a file.
abbrev with_file : INode → Peer → Peer
with_file x p = with_fs p (with_nodes p.fs (set_inode_at 3 x p.fs.nodes))

-- Process 1 has bytes that wait, and process 2 has an empty file.
abbrev written : INode
written = a_file (some content) true 20

abbrev unread : INode
unread = a_file none false 0

abbrev sharing_peers : List Peer
sharing_peers = peer 0 ∷ with_file written (peer 1) ∷ with_file unread (peer 2) ∷ []

peer_open-peer_flush_example :
    (flushed : List Peer) × (loaded : List Peer) × (peer_flush list_mpi 8 1 3 sharing_peers
      ≡ some flushed)
    × (peer_open list_mpi 8 2 3 false flushed ≡ some loaded)
    × (buffer_at 2 3 loaded ≡ some content)
unfolding peer_number_of_blocks
peer_open-peer_flush_example =
    peer_open-peer_flush list_mpi list_mpi-IsMpi 8 1 2 3 content sharing_peers
      (with_file written (peer 1)) (with_file unread (peer 2)) written unread none false
      (omega arith) (omega arith) (omega arith) (omega arith)
      (has_inode _ _ (omega arith)
        (has_inode _ _ (omega arith) (has_inode _ _ (omega arith) no_peer)))
      refl refl (omega arith) refl refl refl refl
