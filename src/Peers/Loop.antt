-- ===== src/Peers/Loop.antt =====
-- peer-to-peer/include/mpi/DistributedCode.cpp: `start` and the handlers of the requests that other
-- processes have announced. The packets come in the order in which they arrive, each with its
-- sender: every receive takes the next one, from whatever process.
pub mod Whole
pub mod Stopping
pub mod Mixed
pub mod Delivery
pub mod Lost
use dagon_fs.Prelude.{
  ℕ, zero, suc, ◌+◌, Bool, true, false, Option, none, some, List, [], ◌∷◌, ◌++◌, ◌/◌, ◌%◌, length,
  ◌==◌, if◌then◌else◌, ◌>>=◌,
}
use dagon_fs.Map.Keys.{Name}
use dagon_fs.Peers.{
  RequestType, write, read, create_file, delete_file, create_dir, delete_dir, rename, terminate,
  IoRequest, Packet, request, io_request, name_packet, rename_packet, Peer, Flags, name_size,
}

-- The calls by which the loop asks the kernel for a change of the process's own file system.
pub data Call : Type 0 where
  fopen_call unlink_call mkdir_call rmdir_call : Name → Call
  rename_call : Name → Name → Call
  unmount_call : Call

-- Where the loop stands: at its first receive, at the receive of the packet of a request, or
-- behind the loop.
pub data Mode : Type 0 where
  awaits_request : Mode
  awaits_packet : RequestType → Mode
  stopped : Mode

-- The process, the mode of the loop, and the transfers that it has taken part in, oldest first:
-- the type of each, the source that the process took for it, and its packet.
pub record Loop : Type 0 where
  pub peer : Peer
  pub mode : Mode
  pub transfers : List (RequestType × ℕ × IoRequest)

-- The assignment of `true` to the flag that a handler begins with.
abbrev pub raise : RequestType → Flags → Flags
raise create_file f = record f { create_file_from_thread = true }
raise delete_file f = record f { delete_file_from_thread = true }
raise create_dir f = record f { create_dir_from_thread = true }
raise delete_dir f = record f { delete_dir_from_thread = true }
raise rename f = record f { rename_from_thread = true }
raise terminate f = record f { unmount_from_thread = true }
raise write f = f
raise read f = f

abbrev pub raised : RequestType → Peer → Peer
raised type p = record p { flags = raise type p.flags }

-- An integer of some bytes, with its least one first.
abbrev pub le_bytes : (size : ℕ) → ℕ → List ℕ
le_bytes zero n = []
le_bytes (suc size) n = n % 256 ∷ le_bytes size (n / 256)

-- The bytes up to the first 0; `none` where a string goes on behind them.
abbrev pub c_string : List ℕ → Option Name
c_string [] = none
c_string (byte ∷ bytes) =
    let rest = c_string bytes in
    if byte == 0 then some [] else (rest >>= λ name. some (byte ∷ name))

-- The value of a `RequestType`.
abbrev pub code : RequestType → ℕ
code write = 0
code read = 1
code create_file = 2
code delete_file = 3
code create_dir = 4
code delete_dir = 5
code rename = 6
code terminate = 7

-- The name that stands in a packet with names, which is filled with 0 at first, when a packet is
-- received there, on a machine with the least byte first. The packet with two names is longer than
-- that with one, which is an error of MPI; the pointer of an `IORequestPacket`, which follows the
-- inode, is never set.
unfoldable pub name_received : Packet → Option Name
name_received (request type) = c_string (le_bytes 4 (code type))
name_received (io_request io) = c_string (le_bytes 8 io.inode)
name_received (name_packet name) = some name
name_received (rename_packet old_name new_name) = none

-- `kernel` makes a call on the file system of the process, and returns whether it succeeded.
module _ (kernel : Call → Peer → Bool × Peer) where
  -- The end of the handlers, with the packet received; `fclose` needs a file. A name that fills
  -- its packet has no end.
  unfoldable pub call_with : RequestType → Name → Peer → Option Peer
  call_with type name p = if length name == name_size then none else elim type [
    | create_file ↦
        let opened = kernel (fopen_call name) p in if opened.0 then some opened.1 else none
    | delete_file ↦ some (kernel (unlink_call name) p).1
    | create_dir ↦ some (kernel (mkdir_call name) p).1
    | delete_dir ↦ some (kernel (rmdir_call name) p).1
    | _ ↦ some p
  ]

  -- The same for `renameHandler`.
  unfoldable pub rename_with : Name → Name → Peer → Option Peer
  rename_with old_name new_name p =
      if length old_name == name_size
      then none
      else if length new_name == name_size
      then none
      else some (kernel (rename_call old_name new_name) p).1

  abbrev pub back_to_request : Loop → Peer → Option Loop
  back_to_request l p = some (record l { peer = p; mode = awaits_request })

  -- A transfer: the receive of the packet tells its source.
  abbrev pub transfer : RequestType → ℕ → IoRequest → Loop → Option Loop
  transfer type source io l =
      some (record l { mode = awaits_request; transfers = l.transfers ++ (type, source, io) ∷ [] })

  -- The end of a handler that has received a name.
  abbrev pub named : RequestType → Packet → Loop → Option Loop
  named type packet l =
      name_received packet >>= λ name. call_with type name l.peer >>= back_to_request l

  -- The receive of a packet, for the type of its request. `none` where the packet does not fit into
  -- the one expected, which ends the program, or leaves bytes of it unset that are read.
  unfoldable pub receive_packet : RequestType → ℕ → Packet → Loop → Option Loop
  unfolding call_with rename_with name_received
  receive_packet write source (io_request io) l = transfer write source io l
  receive_packet read source (io_request io) l = transfer read source io l
  receive_packet rename source (rename_packet old_name new_name) l =
      rename_with old_name new_name l.peer >>= back_to_request l
  receive_packet rename source packet l =
      name_received packet >>= λ name. rename_with name [] l.peer >>= back_to_request l
  receive_packet create_file source packet l = named create_file packet l
  receive_packet delete_file source packet l = named delete_file packet l
  receive_packet create_dir source packet l = named create_dir packet l
  receive_packet delete_dir source packet l = named delete_dir packet l
  receive_packet _ source packet l = none

  -- The receive of a request and the `switch`: a process's own requests are skipped, and TERMINATE
  -- ends the loop. A longer packet in its place is an error of MPI, which ends the program.
  unfoldable pub receive_request : ℕ → Packet → Loop → Option Loop
  receive_request source (request terminate) l =
      let p =
        if source == l.peer.mpi_rank
        then l.peer
        else (kernel unmount_call (raised terminate l.peer)).1 in
      some (record l { peer = p; mode = stopped })
  receive_request source (request type) l =
      if source == l.peer.mpi_rank
      then some l
      else some (record l { peer = raised type l.peer; mode = awaits_packet type })
  receive_request source packet l = none

  -- One receive; nothing is received outside the loop.
  unfoldable pub receive : ℕ × Packet → Loop → Option Loop
  unfolding receive_request receive_packet
  receive (source, packet) l = elim l.mode [
    | awaits_request ↦ receive_request source packet l
    | awaits_packet type ↦ receive_packet type source packet l
    | stopped ↦ some l
  ]

  -- `start`, on the packets that arrive.
  unfoldable pub run : List (ℕ × Packet) → Loop → Option Loop
  unfolding receive
  run [] l = some l
  run (arrival ∷ arrivals) l = receive arrival l >>= run arrivals
