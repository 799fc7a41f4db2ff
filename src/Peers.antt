-- ===== src/Peers.antt =====
-- The peer-to-peer program, where every process has a file system of its own: mpi/mpi_data.hpp,
-- mpi/RequestSender.cpp and the state of a process. The number of a process is its place in the
-- list of all of them.
pub mod Shared
pub mod Handlers
pub mod Transfer
pub mod Files
pub mod Loop
pub mod Replicas
pub mod Paths
pub mod Threads
use dagon_fs.Prelude.{
  ℕ, zero, suc, ◌+◌, Bool, Option, none, some, List, [], ◌∷◌, ◌++◌, length, ltb, ◌==◌, not,
  if◌then◌else◌,
}
use dagon_fs.Map.{Map, find}
use dagon_fs.Map.Keys.{Name, nat_ord}
use dagon_fs.FileSystem.{Fs}

-- `RequestType`
pub data RequestType : Type 0 where
  write read create_file delete_file create_dir delete_dir rename terminate : RequestType

-- `IORequestPacket`, without its unused pointer.
pub record IoRequest : Type 0 where
  pub inode : ℕ
  pub file_size : ℕ
  pub req_size : ℕ
  pub offset : ℕ

-- What a process sends: a `RequestPacket`, an `IORequestPacket`, and the packets with one name and
-- with two. A name stands for its bytes up to the first 0 of the 256.
pub data Packet : Type 0 where
  request : RequestType → Packet
  io_request : IoRequest → Packet
  name_packet : Name → Packet
  rename_packet : Name → Name → Packet

-- The flags `…FromThread` of `FileSystem`.
pub record Flags : Type 0 where
  pub unmount_from_thread : Bool
  pub create_file_from_thread : Bool
  pub delete_file_from_thread : Bool
  pub create_dir_from_thread : Bool
  pub delete_dir_from_thread : Bool
  pub rename_from_thread : Bool

-- A process: its file system, of which `cluster` has its own memory and its own index of blocks
-- and no nodes; the `dir_name` of each directory, by inode number; its flags; its number and how
-- many there are; and what it has sent, oldest first, each packet with its destination.
pub record Peer : Type 0 where
  pub fs : Fs
  pub dir_names : Map ℕ Name
  pub flags : Flags
  pub mpi_rank : ℕ
  pub mpi_world_size : ℕ
  pub sent : List (ℕ × Packet)

-- `getDirName`; a `Directory` is made with an empty name.
unfoldable pub get_dir_name : ℕ → Peer → Name
get_dir_name ino p = elim (find ino p.dir_names) [ none ↦ [] | some name ↦ name ]

-- The size of the names in the packets.
abbrev pub name_size : ℕ
name_size = 256

-- The loop of `sendWriteRequest` and `sendReadRequest`: to the others, from `i` on.
unfoldable pub send_to_others : RequestType → (source_rank i left : ℕ) → List (ℕ × Packet)
send_to_others type source_rank i zero = []
send_to_others type source_rank i (suc left) =
    let rest = send_to_others type source_rank (i + 1) left in
    if i == source_rank then rest else (i, request type) ∷ rest

-- The loop of the requests with a name: the type goes to every process, the name to the others.
unfoldable pub send_to_all : RequestType → Packet → (source_rank i left : ℕ) → List (ℕ × Packet)
send_to_all type payload source_rank i zero = []
send_to_all type payload source_rank i (suc left) =
    let rest = send_to_all type payload source_rank (i + 1) left in
    (i, request type) ∷ (if i == source_rank then rest else (i, payload) ∷ rest)

-- The loop of `sendTerminationRequest`: to every process.
unfoldable pub send_termination : (i left : ℕ) → List (ℕ × Packet)
send_termination i zero = []
send_termination i (suc left) = (i, request terminate) ∷ send_termination (i + 1) left

abbrev pub sending : List (ℕ × Packet) → Peer → Peer
sending packets p = record p { sent = p.sent ++ packets }

-- `sendWriteRequest`
unfoldable pub send_write_request : Peer → Peer
unfolding send_to_others
send_write_request p = sending (send_to_others write p.mpi_rank 0 p.mpi_world_size) p

-- `sendReadRequest`
unfoldable pub send_read_request : Peer → Peer
unfolding send_to_others
send_read_request p = sending (send_to_others read p.mpi_rank 0 p.mpi_world_size) p

-- `sendCreateFileRequest`, `sendDeleteFileRequest`, `sendCreateDirectoryRequest` and
-- `sendDeleteDirectoryRequest`, which differ in the type: a name that is longer than the packet is
-- copied past its end.
unfoldable pub send_name_request : RequestType → Name → Peer → Option Peer
unfolding send_to_all
send_name_request type name p =
    if ltb name_size (length name)
    then none
    else some (sending (send_to_all type (name_packet name) p.mpi_rank 0 p.mpi_world_size) p)

-- `sendRenameRequest`
unfoldable pub send_rename_request : Name → Name → Peer → Option Peer
unfolding send_to_all
send_rename_request old_name new_name p =
    if ltb name_size (length old_name)
    then none
    else if ltb name_size (length new_name)
    then none
    else some (
        sending (send_to_all rename (rename_packet old_name new_name) p.mpi_rank 0 p.mpi_world_size)
          p)

-- `sendTerminationRequest`
unfoldable pub send_termination_request : Peer → Peer
unfolding send_termination
send_termination_request p = sending (send_termination 0 p.mpi_world_size) p
