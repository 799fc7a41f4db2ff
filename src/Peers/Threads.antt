-- ===== src/Peers/Threads.antt =====
-- peer-to-peer/main.cpp: the two threads of a process, of which one serves the requests of FUSE and
-- the other takes part in what the other processes announce (mpi/DistributedCode.cpp). They share
-- the flags of `FileSystem`: a handler of the loop raises its flag and asks the kernel for the change,
-- and the thread of FUSE serves the request of that call among those of the machine's programs.
pub mod Flagged
pub mod Announced
use dagon_fs.Prelude.{
  ℕ, Bool, true, false, Option, none, some, List, [], ◌∷◌, ◌++◌, if◌then◌else◌, ◌>>=◌,
}
use dagon_fs.FileSystem.{Env, Errno, success, Fs, Reply, err}
use dagon_fs.FileSystem.Requests.{Request}
use dagon_fs.Peers.{
  Peer, Packet, RequestType, create_file, delete_file, create_dir, delete_dir, rename,
}
use dagon_fs.Peers.Handlers.{peer_handle}
use dagon_fs.Peers.Handlers.Announcing.{packets}
use dagon_fs.Peers.Loop.{raised}

-- What the threads do, one after the other: FUSE serves the request of a program; the loop enters a
-- handler, which raises its flag; FUSE serves the request of the call that the handler has made.
pub data Event : Type 0 where
  own : Env → Request → Event
  raises : RequestType → Event
  asked : Env → Request → Event

-- One event; the thread of FUSE cannot tell the requests apart.
abbrev pub step : Event → Peer → Option Peer
step (own env r) p = peer_handle env r p
step (raises type) p = some (raised type p)
step (asked env r) p = peer_handle env r p

unfoldable pub run_threads : List Event → Peer → Option Peer
run_threads [] p = some p
run_threads (e ∷ rest) p = step e p >>= run_threads rest

-- Whether a request is announced as one of a type.
abbrev pub announces : RequestType → Request → Bool
announces create_dir (Request.mkdir parent name) = true
announces create_file (Request.create parent name truncates) = true
announces delete_file (Request.unlink parent name) = true
announces delete_dir (Request.rmdir parent name) = true
announces rename (Request.rename parent name newparent newname) = true
announces _ _ = false

-- Whether a request is announced as the one that the handler waits for, if there is one.
abbrev pub disturbs : Option RequestType → Request → Bool
disturbs none r = false
disturbs (some type) r = announces type r

-- The loop waits for each of its calls, which ends in a request of its type, and meanwhile no
-- program makes a request of that type.
unfoldable pub orderly : Option RequestType → List Event → Bool
orderly none [] = true
orderly (some type) [] = false
orderly asking (own env r ∷ rest) =
    let others = orderly asking rest in if disturbs asking r then false else others
orderly none (raises type ∷ rest) = orderly (some type) rest
orderly (some type) (raises type' ∷ rest) = false
orderly none (asked env r ∷ rest) = false
orderly (some type) (asked env r ∷ rest) =
    let others = orderly none rest in if announces type r then others else false

abbrev is_error : Errno → Bool
is_error success = false
is_error _ = true

-- Whether the last reply is an error.
abbrev pub last_fails : List Reply → Bool
last_fails (err e ∷ rest) = is_error e
last_fails _ = false

abbrev fails : Event → Peer → Bool
fails (asked env r) q = last_fails q.fs.replies
fails _ q = false

-- Whether all the calls of the loop succeed.
unfoldable pub granted : List Event → Peer → Bool
granted [] p = true
granted (e ∷ rest) p = elim (step e p) [
  | none ↦ false
  | some q ↦ if fails e q then false else granted rest q
]

-- What an event is to announce: the request of a program that succeeds.
abbrev pub news : Event → Peer → Peer → List (ℕ × Packet)
news (own env r) p q = if last_fails q.fs.replies then [] else packets r p
news _ p q = []

unfoldable pub all_news : List Event → Peer → List (ℕ × Packet)
all_news [] p = []
all_news (e ∷ rest) p = elim (step e p) [ none ↦ [] | some q ↦ news e p q ++ all_news rest q ]
