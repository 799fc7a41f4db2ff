-- ===== src/Peers/Handlers/Announcing.antt =====
-- What the requests announce to the other processes of the peer-to-peer program, and the outcomes of
-- a handler.
use dagon_fs.Prelude.{
  Each, Each-some, Each-if, Each-if_eq, Each-bind, ℕ, ◌≡◌, ◌≢◌, ◌⊎◌, inl, inr, refl, ap, sym, ◌∙◌,
  Bool, false, Option, some, List, [], ◌++◌, ◌∷◌, append-nil, length, ltb, if◌then◌else◌, ◌>>=◌,
}
use dagon_fs.Map.{Map, erase}
use dagon_fs.Map.Keys.{Name, nat_ord}
use dagon_fs.Nodes.{INodeType, get_inode, child_inode_number_with_name}
use dagon_fs.FileSystem.{Fs, Env, Errno, Reply, success, err, entry, enoent, eisdir}
use dagon_fs.FileSystem.Requests.{Request}
use dagon_fs.Peers.{
  Peer, Flags, Packet, name_packet, rename_packet, get_dir_name, name_size, send_to_all,
  send_rename_request, create_file, delete_file, create_dir, delete_dir, rename,
}
use dagon_fs.Peers.Handlers.{peer_mknod_entry, peer_answer, with_fs, slash}
use dagon_fs.Peers.Handlers.Refinement.{child_number}
use dagon_fs.FileSystem.Entries.{enter, answer_entry}
use dagon_fs.FileSystem.Removal.{unlink_child, rename_child, rename_links}
use dagon_fs.Blocks.{}
use dagon_fs.Peers.Handlers.Each.{Each-register}

-- The flag that a request reads.
abbrev pub from_thread : Request → Flags → Bool
from_thread (Request.mkdir parent name) f = f.create_dir_from_thread
from_thread (Request.create parent name truncates) f = f.create_file_from_thread
from_thread (Request.unlink parent name) f = f.delete_file_from_thread
from_thread (Request.rmdir parent name) f = f.delete_dir_from_thread
from_thread (Request.rename parent name newparent newname) f = f.rename_from_thread
from_thread _ f = false

-- The packets that announce a request to all processes.
abbrev pub packets : Request → Peer → List (ℕ × Packet)
packets (Request.mkdir parent name) p =
    send_to_all create_dir (name_packet (get_dir_name parent p ++ (name ++ slash))) p.mpi_rank 0
      p.mpi_world_size
packets (Request.create parent name truncates) p =
    send_to_all create_file (name_packet (get_dir_name parent p ++ name)) p.mpi_rank 0
      p.mpi_world_size
packets (Request.unlink parent name) p =
    send_to_all delete_file (name_packet (get_dir_name parent p ++ name)) p.mpi_rank 0
      p.mpi_world_size
packets (Request.rmdir parent name) p =
    send_to_all delete_dir (name_packet (get_dir_name (child_number parent name p) p)) p.mpi_rank 0
      p.mpi_world_size
packets (Request.rename parent name newparent newname) p =
    send_to_all rename
      (rename_packet (get_dir_name parent p ++ name) (get_dir_name newparent p ++ newname))
      p.mpi_rank 0 p.mpi_world_size
packets _ p = []

-- The last reply is not an error.
abbrev pub Succeeds : Fs → Type 0
Succeeds s =
    (last : Reply) × (rest : List Reply) × (s.replies ≡ last ∷ rest)
    × ((e : Errno) → last ≡ err e → e ≡ success)

-- The flags when a request has cleared its own.
abbrev pub cleared : Request → Flags → Flags
cleared (Request.mkdir parent name) f = record f { create_dir_from_thread = false }
cleared (Request.create parent name truncates) f = record f { create_file_from_thread = false }
cleared (Request.unlink parent name) f = record f { delete_file_from_thread = false }
cleared (Request.rmdir parent name) f = record f { delete_dir_from_thread = false }
cleared (Request.rename parent name newparent newname) f = record f { rename_from_thread = false }
cleared _ f = f

-- The request was announced if it did not come from the thread, and its flag is cleared; a request
-- that is announced was answered without an error.
abbrev pub Told : Request → Peer → Peer → Type 0
Told r p q =
    (q.sent ≡ p.sent ++ (if from_thread r p.flags then [] else packets r p))
    × (q.flags ≡ cleared r p.flags)
    × ((packets r p ≡ []) ⊎ Succeeds q.fs)

-- The request was answered by an error, and nothing was sent or cleared.
abbrev pub Refused : Peer → Peer → Type 0
Refused p q =
    (e : Errno) × (e ≢ success)
    × (q.fs.replies ≡ err e ∷ p.fs.replies)
    × (q.sent ≡ p.sent)
    × (q.flags ≡ p.flags)

-- Each request is announced or refused.
abbrev pub Outcome : Request → Peer → Peer → Type 0
Outcome r p q = Told r p q ⊎ Refused p q

pub refused :
    (r : Request) (p : Peer) (e : Errno) → e ≢ success → Each (Outcome r p) (peer_answer (err e) p)
refused r p e wrong = Each-some (Outcome r p) _ (inr (e, wrong, refl, refl, refl))

pub enoent_wrong : enoent ≢ success
enoent_wrong e = cc

pub eisdir_wrong : eisdir ≢ success
eisdir_wrong e = cc

-- A request that is not announced.
pub silent :
    (r : Request) (p : Peer) (o : Option Fs)
    → packets r p ≡ []
    → from_thread r p.flags ≡ false
    → p.flags ≡ cleared r p.flags
    → Each (Outcome r p) (o >>= λ s. some (with_fs p s))
silent r p o nothing clear kept = Each-bind (Outcome r p) o _ λ s done.
    Each-some (Outcome r p) (with_fs p s)
      (inl (rw (clear, nothing) (sym (append-nil p.sent)), kept, inl nothing))

pub quiet :
    (r : Request) (p q : Peer)
    → packets r p ≡ []
    → from_thread r p.flags ≡ false
    → p.flags ≡ cleared r p.flags
    → q.sent ≡ p.sent
    → q.flags ≡ p.flags
    → Outcome r p q
quiet r p q nothing clear kept same flags =
    inl (rw (clear, nothing) (same ∙ sym (append-nil p.sent)), flags ∙ kept, inl nothing)

pub answer_entry-Succeeds : (ino : ℕ) (s : Fs) → Each Succeeds (answer_entry ino s)
answer_entry-Succeeds ino s =
    Each-bind Succeeds (get_inode ino s.nodes) _
      λ x found. Each-some Succeeds _ (entry x.fuse_entry_param, s.replies, refl, λ e h. cc)

pub unlink_child-Succeeds :
    (parent : ℕ) (name : Name) (s : Fs) (ino : ℕ) → Each Succeeds (unlink_child parent name s ino)
unfolding unlink_child
unlink_child-Succeeds parent name s ino =
    Each-bind Succeeds (get_inode ino s.nodes) _
      λ x found. Each-some Succeeds _ (err success, s.replies, refl, λ e h. cc)

pub rename_child-Succeeds :
    (parent : ℕ) (name : Name) (newparent : ℕ) (newname : Name) (s : Fs) (ino : ℕ)
    (children : Map Name ℕ)
    → Each Succeeds (rename_child parent name newparent newname s ino children)
unfolding rename_child
rename_child-Succeeds parent name newparent newname s ino children =
    Each-bind Succeeds
      (rename_links parent newparent (child_inode_number_with_name newname children) s) _
      λ s₁ linked. Each-some Succeeds _ (err success, s₁.replies, refl, λ e h. cc)

pub mknod_entry-quiet :
    (env : Env) (type : INodeType) (m mode nlink parent : ℕ) (name : Name) (p p' : Peer)
    → p'.sent ≡ p.sent
    → p'.flags ≡ p.flags
    → let r = Request.mknod parent name m in
      Each (Outcome r p) (peer_mknod_entry env type mode nlink parent name p')
unfolding peer_mknod_entry
mknod_entry-quiet env type m mode nlink parent name p p' sent flags =
    let r = Request.mknod parent name m in
    Each-register (Outcome r p) env type mode nlink env.ctx_uid env.ctx_gid p' _ λ ino s₁.
      Each-bind (Outcome r p) (enter parent name ino s₁) _ λ s₂ entered.
        Each-bind (Outcome r p) (answer_entry ino s₂) _ λ s₃ answered.
          let q = record p' { fs = s₃; dir_names = erase ino p'.dir_names } in
          Each-some (Outcome r p) q (quiet r p q refl refl refl sent flags)

pub rename_told :
    (parent : ℕ) (name : Name) (newparent : ℕ) (newname : Name) (p : Peer) (s : Fs)
    → Succeeds s
    → let r = Request.rename parent name newparent newname in
      Each (Outcome r p) (
        if p.flags.rename_from_thread
        then some (record p { fs = s; flags = record p.flags { rename_from_thread = false } })
        else send_rename_request
            (get_dir_name parent p ++ name)
            (get_dir_name newparent p ++ newname)
            (with_fs p s))
unfolding send_rename_request
rename_told parent name newparent newname p s fine =
    let r = Request.rename parent name newparent newname in
    let old_name = get_dir_name parent p ++ name in
    let new_name = get_dir_name newparent p ++ newname in
    let told : Bool → List (ℕ × Packet) = λ b. p.sent ++ (if b then [] else packets r p) in
    Each-if_eq (Outcome r p) p.flags.rename_from_thread _ _
      (λ thread.
        Each-some (Outcome r p)
          (record p { fs = s; flags = record p.flags { rename_from_thread = false } })
          (inl (sym (append-nil p.sent) ∙ sym (ap told thread), refl, inr fine)))
      (λ local.
        Each-if (Outcome r p) (ltb name_size (length old_name)) _ _ (λ t f. cc)
          (Each-if (Outcome r p) (ltb name_size (length new_name)) _ _ (λ t f. cc)
            (Each-some (Outcome r p) (record p { fs = s; sent = p.sent ++ packets r p })
              (inl (
                sym (ap told local),
                ap (λ b. record p.flags { rename_from_thread = b }) local,
                inr fine,
              )))))
