-- ===== src/Peers/Handlers/Guards.antt =====
-- peer-to-peer/include/ramfs/FileSystem.cpp: what its handlers share.
use dagon_fs.Prelude.{ℕ, Bool, false, Option, none, some, [], ◌∷◌, leb, ◌==◌, if◌then◌else◌, ◌>>=◌}
use dagon_fs.Map.{Map, erase}
use dagon_fs.Map.Keys.{Name, nat_ord}
use dagon_fs.Nodes.{
  INode, INodeType, no_ino, as_directory, number_of_inodes, get_inode, child_inode_number_with_name,
}
use dagon_fs.FileSystem.{Fs, Env, Reply, Errno, err, enoent, reply, register_inode}
use dagon_fs.Peers.{Peer}

abbrev pub with_fs : Peer → Fs → Peer
with_fs p s = record p { fs = s }

abbrev pub peer_answer : Reply → Peer → Option Peer
peer_answer r p = some (with_fs p (reply r p.fs))

-- The guards, as in the client-server program.
abbrev pub peer_with_inode : ℕ → Peer → (INode → Option Peer) → Option Peer
peer_with_inode ino p k =
    if leb (number_of_inodes p.fs.nodes) ino
    then peer_answer (err enoent) p
    else (get_inode ino p.fs.nodes >>= k)

abbrev pub peer_with_directory : ℕ → Errno → Peer → (Map Name ℕ → Option Peer) → Option Peer
peer_with_directory ino wrong p k =
    peer_with_inode ino p
      λ x. elim (as_directory x) [ none ↦ peer_answer (err wrong) p | some children ↦ k children ]

abbrev pub peer_with_child : Name → Map Name ℕ → Peer → (ℕ → Option Peer) → Option Peer
peer_with_child name children p k =
    let ino = child_inode_number_with_name name children in
    let found = k ino in if ino == no_ino then peer_answer (err enoent) p else found

-- `RegisterINode`: a new `Directory` has an empty name, and so has one that takes the place of
-- another.
unfoldable pub peer_register : Env → INodeType → (mode nlink gid uid : ℕ) → Peer → Option (ℕ × Peer)
unfolding register_inode
peer_register env type mode nlink gid uid p =
    register_inode env type mode nlink gid uid p.fs >>= λ (ino, s).
    some (ino, record p { fs = s; dir_names = erase ino p.dir_names })

-- `if (!…FromThread) RequestSender::send…(…);`
abbrev pub unless_from_thread : Bool → (Peer → Option Peer) → Peer → Option Peer
unless_from_thread from_thread send p = if from_thread then some p else send p

-- A name with its separator.
abbrev pub slash : Name
slash = 47 ∷ []

-- `…FromThread = false;`
abbrev pub clear_create_dir : Peer → Option Peer
clear_create_dir p = some (record p { flags = record p.flags { create_dir_from_thread = false } })

abbrev pub clear_create_file : Peer → Option Peer
clear_create_file p = some (record p { flags = record p.flags { create_file_from_thread = false } })

abbrev pub clear_delete_file : Peer → Option Peer
clear_delete_file p = some (record p { flags = record p.flags { delete_file_from_thread = false } })

abbrev pub clear_delete_dir : Peer → Option Peer
clear_delete_dir p = some (record p { flags = record p.flags { delete_dir_from_thread = false } })
