-- ===== src/Peers/Handlers/Each.antt =====
-- What holds of the process that a handler of the peer-to-peer program leaves.
use dagon_fs.Prelude.{
  Each, Each-if, Each-bind, Each-elim, ℕ, ◌≡◌, inl, inr, refl, sym, subst, Bool, true, false,
  Option, some, List, [], ◌++◌, append-nil, length, ltb, leb, ◌==◌, Bool-cases, if◌then◌else◌,
  ◌>>=◌, >>=-eq-some, some-injective,
}
use dagon_fs.Map.{Map, erase}
use dagon_fs.Map.Keys.{Name, nat_ord}
use dagon_fs.Nodes.{
  INodeType, as_directory, number_of_inodes, get_inode, no_ino, child_inode_number_with_name,
}
use dagon_fs.FileSystem.{register_inode, Fs, Env, Errno, err, enoent, children_at}
use dagon_fs.FileSystem.Requests.{}
use dagon_fs.Peers.{
  Peer, RequestType, Packet, name_packet, name_size, send_to_all, send_name_request,
}
use dagon_fs.Peers.Handlers.{
  peer_answer, peer_with_directory, peer_with_child, unless_from_thread, peer_register,
}

module _ (P : Peer → Type 0) where
  pub Each-directory :
      (ino : ℕ) (wrong : Errno) (p : Peer) (k : Map Name ℕ → Option Peer)
      → Each P (peer_answer (err enoent) p)
      → Each P (peer_answer (err wrong) p)
      → ((children : Map Name ℕ) → children_at ino p.fs ≡ some children → Each P (k children))
      → Each P (peer_with_directory ino wrong p k)
  Each-directory ino wrong p k missing other h =
      Each-if P (leb (number_of_inodes p.fs.nodes) ino) _ _ missing (
        Each-bind P (get_inode ino p.fs.nodes) _ λ x found.
          Each-elim P (as_directory x) _ k other λ children is_dir. h children (rw found is_dir))

  pub Each-child :
      (name : Name) (children : Map Name ℕ) (p : Peer) (k : ℕ → Option Peer)
      → Each P (peer_answer (err enoent) p)
      → ((ino : ℕ) → ino ≡ child_inode_number_with_name name children → Each P (k ino))
      → Each P (peer_with_child name children p k)
  Each-child name children p k missing h =
      Each-if P (child_inode_number_with_name name children == no_ino) _ _ missing
        (h (child_inode_number_with_name name children) refl)

  pub Each-register :
      (env : Env) (type : INodeType) (mode nlink gid uid : ℕ) (p : Peer)
      (k : ℕ × Peer → Option Peer)
      → ((ino : ℕ) (s : Fs)
          → Each P (k (ino, record p { fs = s; dir_names = erase ino p.dir_names })))
      → Each P (peer_register env type mode nlink gid uid p >>= k)
  unfolding peer_register
  Each-register env type mode nlink gid uid p k h q e =
      let (m, registered, done) = >>=-eq-some (peer_register env type mode nlink gid uid p) k e in
      let ((ino, s), placed, same) =
        >>=-eq-some (register_inode env type mode nlink gid uid p.fs) _ registered in
      h ino s q (subst (λ t. k t ≡ some q) (sym (some-injective _ _ same)) done)

-- What `unless_from_thread` adds to the packets sent.
abbrev pub added : Bool → RequestType → Name → Peer → List (ℕ × Packet)
added b type name p =
    if b then [] else send_to_all type (name_packet name) p.mpi_rank 0 p.mpi_world_size

pub Each-told :
    (P : Peer → Type 0) (b : Bool) (type : RequestType) (name : Name) (p : Peer)
    (clear : Peer → Option Peer)
    → Each P (clear (record p { sent = p.sent ++ added b type name p }))
    → Each P (unless_from_thread b (send_name_request type name) p >>= clear)
unfolding send_name_request
Each-told P true type name p clear h =
    subst (λ l. Each P (clear (record p { sent = l }))) (append-nil p.sent) h
Each-told P false type name p clear h = elim (Bool-cases (ltb name_size (length name))) [
  | inl long ↦ λ q e. cc (rw long at e)
  | inr fits ↦ λ q e. h q (rw fits at e)
]
