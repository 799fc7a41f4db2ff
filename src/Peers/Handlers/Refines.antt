-- ===== src/Peers/Handlers/Refines.antt =====
-- How results of the two programs' handlers correspond, and what keeps the correspondence.
use dagon_fs.Prelude.{
  ℕ, ◌≤◌, ◌≡◌, refl, ◌∙◌, Bool, Option, none, some, length, leb, true, false, ◌==◌, if◌then◌else◌,
  ◌>>=◌, >>=-eq-some, some-injective, ge→ltb,
}
use dagon_fs.Map.{Map, erase}
use dagon_fs.Map.Keys.{Name, nat_ord}
use dagon_fs.Nodes.{
  INodeType, as_directory, number_of_inodes, get_inode, no_ino, child_inode_number_with_name,
}
use dagon_fs.FileSystem.{
  Fs, Env, Reply, Errno, err, enoent, reply, answer, register_inode, with_directory, with_child,
  children_at,
}
use dagon_fs.FileSystem.Entries.{}
use dagon_fs.FileSystem.Requests.{}
use dagon_fs.Peers.{
  Peer, RequestType, send_name_request, name_size, name_packet, sending, send_to_all,
}
use dagon_fs.Peers.Handlers.{
  with_fs, peer_answer, peer_register, peer_with_directory, peer_with_child, unless_from_thread,
}

-- Where the first result is a state, the second one is a process with that file system.
abbrev pub Refines : Option Fs → Option Peer → Type 0
Refines o r = (s : Fs) → o ≡ some s → (q : Peer) × (r ≡ some q) × (q.fs ≡ s)

pub Refines-answer : (r : Reply) (p : Peer) → Refines (answer r p.fs) (peer_answer r p)
Refines-answer r p s e = (with_fs p (reply r p.fs), refl, some-injective _ _ e)

pub Refines-if :
    (b : Bool) (o o' : Option Fs) (r r' : Option Peer)
    → Refines o r
    → Refines o' r'
    → Refines (if b then o else o') (if b then r else r')
Refines-if true o o' r r' h h' = h
Refines-if false o o' r r' h h' = h'

pub Refines-bind :
    {A : Type 0} (m : Option A) (k : A → Option Fs) (k' : A → Option Peer)
    → ((a : A) → m ≡ some a → Refines (k a) (k' a))
    → Refines (m >>= k) (m >>= k')
Refines-bind none k k' h s e = cc
Refines-bind (some a) k k' h s e = h a refl s e

pub Refines-elim :
    {A : Type 0} (m : Option A) (o : Option Fs) (r : Option Peer) (k : A → Option Fs)
    (k' : A → Option Peer)
    → Refines o r
    → ((a : A) → m ≡ some a → Refines (k a) (k' a))
    → Refines (elim m [ none ↦ o | some a ↦ k a ]) (elim m [ none ↦ r | some a ↦ k' a ])
Refines-elim none o r k k' h h' = h
Refines-elim (some a) o r k k' h h' = h' a refl

pub Refines-directory :
    (ino : ℕ) (wrong : Errno) (p : Peer) (k : Map Name ℕ → Option Fs)
    (k' : Map Name ℕ → Option Peer)
    → ((children : Map Name ℕ)
        → children_at ino p.fs ≡ some children
        → Refines (k children) (k' children))
    → Refines (with_directory ino wrong p.fs k) (peer_with_directory ino wrong p k')
Refines-directory ino wrong p k k' h =
    Refines-if (leb (number_of_inodes p.fs.nodes) ino) _ _ _ _ (Refines-answer (err enoent) p) (
      Refines-bind (get_inode ino p.fs.nodes) _ _ λ x found.
        Refines-elim (as_directory x) _ _ k k' (Refines-answer (err wrong) p)
          λ children is_dir. h children (rw found is_dir))

pub Refines-child :
    (name : Name) (children : Map Name ℕ) (p : Peer) (k : ℕ → Option Fs) (k' : ℕ → Option Peer)
    → ((ino : ℕ) → ino ≡ child_inode_number_with_name name children → Refines (k ino) (k' ino))
    → Refines (with_child name children p.fs k) (peer_with_child name children p k')
Refines-child name children p k k' h =
    Refines-if (child_inode_number_with_name name children == no_ino) _ _ _ _
      (Refines-answer (err enoent) p) (h (child_inode_number_with_name name children) refl)

pub Refines-last :
    (m : Option Fs) (k : Fs → Option Peer)
    → ((s : Fs) → (q : Peer) × (k s ≡ some q) × (q.fs ≡ s))
    → Refines m (m >>= k)
Refines-last none k h s e = cc
Refines-last (some t) k h s e =
    let (q, there, same) = h t in (q, there, same ∙ some-injective _ _ e)

-- To tell the others does not change the file system.
told :
    (from_thread : Bool) (type : RequestType) (name : Name) (p : Peer)
    → length name ≤ name_size
    → (q : Peer) × (unless_from_thread from_thread (send_name_request type name) p ≡ some q)
      × (q.fs ≡ p.fs)
unfolding send_name_request
told true type name p fits = (p, refl, refl)
told false type name p fits = (
  sending (send_to_all type (name_packet name) p.mpi_rank 0 p.mpi_world_size) p,
  rw (ge→ltb name_size (length name) fits) refl,
  refl,
)

pub refines_told :
    (from_thread : Bool) (type : RequestType) (name : Name) (p : Peer) (clear : Peer → Option Peer)
    (s : Fs)
    → length name ≤ name_size
    → p.fs ≡ s
    → ((q : Peer) → (q' : Peer) × (clear q ≡ some q') × (q'.fs ≡ q.fs))
    → (q : Peer) × ((unless_from_thread from_thread (send_name_request type name) p >>= clear)
        ≡ some q)
      × (q.fs ≡ s)
refines_told from_thread type name p clear s fits same cleared =
    let (q, sent, kept) = told from_thread type name p fits in
    let (q', done, kept') = cleared q in (q', rw sent done, kept' ∙ kept ∙ same)

-- The registration.
pub Refines-register :
    (env : Env) (type : INodeType) (mode nlink gid uid : ℕ) (p : Peer) (k : ℕ × Fs → Option Fs)
    (k' : ℕ × Peer → Option Peer)
    → ((ino : ℕ) (s : Fs)
        → Refines (k (ino, s)) (k' (ino, record p { fs = s; dir_names = erase ino p.dir_names })))
    → Refines
        (register_inode env type mode nlink gid uid p.fs >>= k)
        (peer_register env type mode nlink gid uid p >>= k')
unfolding peer_register
Refines-register env type mode nlink gid uid p k k' h s e =
    let ((ino, s₁), registered, done) =
      >>=-eq-some (register_inode env type mode nlink gid uid p.fs) k e in
    let (q, there, same) = h ino s₁ s done in (q, rw (registered, ◌>>=◌) there, same)
