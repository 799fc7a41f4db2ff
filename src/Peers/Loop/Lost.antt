-- ===== src/Peers/Loop/Lost.antt =====
-- A request whose call fails at a process, and the next one of that process.
use dagon_fs.Prelude.{
  ℕ, ◌≡◌, ◌≢◌, ◌<◌, ◌∙◌, refl, Bool, false, some, [], append-nil, arith, length, ◌==◌,
  if◌then◌else◌,
}
use dagon_fs.Map.{Map}
use dagon_fs.Map.Keys.{Name}
use dagon_fs.FileSystem.{Env}
use dagon_fs.FileSystem.Requests.{Request}
use dagon_fs.FileSystem.Namespace.{tree_of, dir_at, added}
use dagon_fs.Nodes.WellFormed.{IsWellFormed}
use dagon_fs.Peers.Replicas.{CanServe, peer_handle-renamed_by}
use dagon_fs.Peers.{get_dir_name, Peer, create_dir, name_size}
use dagon_fs.Peers.Handlers.{peer_handle}
use dagon_fs.Peers.Loop.{Call, mkdir_call, Loop, awaits_request, raised, run}
use dagon_fs.Peers.Loop.Whole.{arrivals, create_dir_message, run-arrivals}
use dagon_fs.Peers.Paths.Made.{mkdir-MadeDir}

-- The packets of a directory that another process announces arrive at a loop that waits, and the
-- `mkdir` that the loop makes with the flag of directories set, for a name that ends in its packet,
-- fails and changes nothing; a program then asks the process for a directory, properly, in a
-- directory of its well-formed file system, which uses no numbers of deleted inodes again, and the
-- path fits into a packet. Then the loop takes the packets and waits again, and the handler returns
-- and makes the program's directory, but nothing is sent to any process.
pub run-failed :
    (kernel : Call → Peer → Bool × Peer) (env : Env) (source parent : ℕ) (made name : Name)
    (children : Map Name ℕ) (l : Loop)
    → l.mode ≡ awaits_request
    → source ≢ l.peer.mpi_rank
    → length made < name_size
    → ((p : Peer) → kernel (mkdir_call made) p ≡ (false, p))
    → IsWellFormed l.peer.fs.nodes
    → CanServe (Request.mkdir parent name) l.peer
    → dir_at parent (tree_of l.peer.fs) ≡ some children
    → (l' : Loop) × (q : Peer) × (run kernel (arrivals (source, create_dir_message made)) l
        ≡ some l')
      × (l'.mode ≡ awaits_request)
      × (peer_handle env (Request.mkdir parent name) l'.peer ≡ some q)
      × (q.sent ≡ l.peer.sent)
      × (tree_of q.fs ≡ added (some []) parent name (tree_of l.peer.fs))
unfolding run get_dir_name
run-failed kernel env source parent made name children l waits foreign fits fails w can is_dir =
    let long : (length made == name_size) ≡ false = ground arith in
    let p = raised create_dir l.peer in
    let can_p : CanServe (Request.mkdir parent name) p = record {
      proper = can.proper;
      fits = can.fits;
      fresh = can.fresh;
    } in
    let (q, done, _, _) = peer_handle-renamed_by env (Request.mkdir parent name) p w can_p in
    let dir = mkdir-MadeDir env parent name p children is_dir can.fresh q done in
    (
      record l { peer = p; mode = awaits_request },
      q,
      run-arrivals kernel source (create_dir_message made) l [] waits foreign
          ∙ rw (long, if◌then◌else◌, fails p) refl,
      refl,
      done,
      dir.sent ∙ append-nil l.peer.sent,
      dir.names,
    )
