-- ===== src/Peers/Paths/Stale.antt =====
-- A directory that is renamed keeps its `dir_name`.
use dagon_fs.Prelude.{
  ℕ, ◌≡◌, ◌≢◌, refl, ap, ap₂, sym, some-injective, ◌∙◌, Bool, false, none, some, List, [], ◌++◌,
  arith, length, ltb, ◌==◌, if◌then◌else◌, ℕ_discrete, Each, Each-some, Each-if, Each-bind,
}
use dagon_fs.Map.{Map, insert, erase, find}
use dagon_fs.Map.Keys.{Name, name_ord, nat_ord}
use dagon_fs.Map.Laws.{find-erase_self}
use dagon_fs.Nodes.{no_ino, child_inode_number_with_name}
use dagon_fs.Nodes.WellFormed.{IsWellFormed}
use dagon_fs.FileSystem.{Env, enoent, eisdir, err}
use dagon_fs.FileSystem.Removal.{rename_child}
use dagon_fs.FileSystem.Requests.{Request}
use dagon_fs.FileSystem.Namespace.{Tree, tree_of, dir_at, put, in_child, in_directory, renamed_by}
use dagon_fs.FileSystem.Namespace.Added.{dir_at-put}
use dagon_fs.Peers.{
  Peer, Packet, create_file, name_packet, name_size, get_dir_name, send_to_all, send_rename_request,
}
use dagon_fs.Peers.Handlers.{
  peer_handle, peer_rename, peer_rename_child, peer_with_directory, peer_answer,
}
use dagon_fs.Peers.Handlers.Each.{Each-directory, Each-child}
use dagon_fs.Peers.Handlers.Announcing.{packets}
use dagon_fs.Peers.Replicas.{CanServe, peer_handle-renamed_by}
use dagon_fs.Peers.Paths.{dir_at-put_ne}
use dagon_fs.Peers.Threads.{last_fails}
use dagon_fs.Peers.Threads.Flagged.{peer_handle-clear}

-- What a rename leaves as it was.
record KeepsPaths (p q : Peer) : Type 0 where
  dir_names : q.dir_names ≡ p.dir_names
  rank : q.mpi_rank ≡ p.mpi_rank
  world : q.mpi_world_size ≡ p.mpi_world_size

same_paths : (p : Peer) → KeepsPaths p p
same_paths p = record { dir_names = refl; rank = refl; world = refl }

rename-KeepsPaths :
    (env : Env) (parent : ℕ) (name : Name) (newparent : ℕ) (newname : Name) (p : Peer)
    → Each (KeepsPaths p) (peer_handle env (Request.rename parent name newparent newname) p)
unfolding peer_handle peer_rename peer_rename_child send_rename_request
rename-KeepsPaths env parent name newparent newname p =
    let P = KeepsPaths p in
    let kept : (e : _) → Each P (peer_answer (err e) p) =
      λ e. Each-some P _ (record { dir_names = refl; rank = refl; world = refl }) in
    Each-directory P parent eisdir p _ (kept enoent) (kept eisdir) λ children here.
      Each-child P name children p
        (λ ino.
          peer_with_directory newparent eisdir p
            (peer_rename_child parent name newparent newname p ino))
        (kept enoent)
        λ ino is_ino.
          Each-directory P newparent eisdir p
            (peer_rename_child parent name newparent newname p ino) (kept enoent) (kept eisdir)
            λ new_children there.
              Each-bind P (rename_child parent name newparent newname p.fs ino new_children) _
                λ s done.
                  Each-if P p.flags.rename_from_thread _ _
                    (Each-some P _ (record { dir_names = refl; rank = refl; world = refl }))
                    (Each-if P (ltb name_size (length (get_dir_name parent p ++ name))) _ _
                      (λ t e. cc)
                      (Each-if P (ltb name_size (length (get_dir_name newparent p ++ newname))) _ _
                        (λ t e. cc)
                        (Each-some P _ (record { dir_names = refl; rank = refl; world = refl }))))

children_behind :
    (i j : ℕ) (f : Map Name ℕ → Map Name ℕ) (tree : Tree) (children : Map Name ℕ)
    → dir_at i tree ≡ some children
    → (c : Map Name ℕ) × (dir_at i (put j f tree) ≡ some c)
children_behind i j f tree children e = elim (ℕ_discrete j i) [
  | yes same ↦ (f children, ap (λ k. dir_at i (put k f tree)) same ∙ dir_at-put i f tree children e)
  | no apart ↦ (children, dir_at-put_ne j i f tree apart ∙ e)
]

-- The old name is gone.
renamed_by-gone :
    (parent : ℕ) (name : Name) (newparent : ℕ) (newname : Name) (tree : Tree)
    (children below : Map Name ℕ)
    → dir_at parent tree ≡ some children
    → dir_at newparent tree ≡ some below
    → child_inode_number_with_name name children ≢ no_ino
    → (after : Map Name ℕ) × (dir_at parent
          (renamed_by (Request.rename parent name newparent newname) tree)
        ≡ some after)
      × (find name after ≡ none)
unfolding renamed_by
renamed_by-gone parent name newparent newname tree children below here there real =
    let ino = child_inode_number_with_name name children in
    let other : (ino == no_ino) ≡ false = ground arith in
    let moved = put parent (erase name) (put newparent (insert newname ino) tree) in
    let (c, left) = children_behind parent newparent (insert newname ino) tree children here in
    let found : renamed_by (Request.rename parent name newparent newname) tree ≡ moved =
      ap
        (λ o. elim o [
          | none ↦ tree
          | some c ↦ in_child name c tree λ n.
              in_directory newparent tree
                λ b. put parent (erase name) (put newparent (insert newname n) tree)
        ])
        here
      ∙ rw (other, if◌then◌else◌) (ap (λ o. elim o [ none ↦ tree | some b ↦ moved ]) there) in
    (
      erase name c,
      ap (dir_at parent) found
          ∙ dir_at-put parent (erase name) (put newparent (insert newname ino) tree) c left,
      find-erase_self name c,
    )

-- A process with a well-formed file system that can serve the request, and uses no numbers of
-- deleted inodes again, renames a child of one directory into another one, and then creates a file
-- in any directory, with the flag of that clear and without an error. Then the old name is gone from
-- its directory, and the file is announced to all processes under the name that its directory had
-- before the rename, also where it is the one that was renamed.
pub create-stale :
    (env later : Env) (parent : ℕ) (name : Name) (newparent : ℕ) (newname : Name)
    (children below : Map Name ℕ) (ino : ℕ) (file : Name) (truncates : Bool) (p q t : Peer)
    → IsWellFormed p.fs.nodes
    → CanServe (Request.rename parent name newparent newname) p
    → dir_at parent (tree_of p.fs) ≡ some children
    → dir_at newparent (tree_of p.fs) ≡ some below
    → child_inode_number_with_name name children ≢ no_ino
    → peer_handle env (Request.rename parent name newparent newname) p ≡ some q
    → q.flags.create_file_from_thread ≡ false
    → peer_handle later (Request.create ino file truncates) q ≡ some t
    → last_fails t.fs.replies ≡ false
    → (after : Map Name ℕ) × (dir_at parent (tree_of q.fs) ≡ some after)
      × (find name after ≡ none)
      × (t.sent
          ≡ q.sent
            ++ send_to_all create_file
                (name_packet (get_dir_name ino p ++ file))
                p.mpi_rank
                0
                p.mpi_world_size)
unfolding get_dir_name
create-stale env later parent name newparent newname children below ino file truncates p q t w can
      here there real renames local creates succeeds =
    let r = Request.rename parent name newparent newname in
    let (q', done, _, names) = peer_handle-renamed_by env r p w can in
    let now : q' ≡ q = some-injective q' q (sym done ∙ renames) in
    let (after, is_dir, gone) =
      renamed_by-gone parent name newparent newname (tree_of p.fs) children below here there real in
    let kept = rename-KeepsPaths env parent name newparent newname p q renames in
    let (sent, _) =
      peer_handle-clear later (Request.create ino file truncates) q t local
        (ap (λ b. record q.flags { create_file_from_thread = b }) (sym local)) creates in
    let announced : Map ℕ Name → (rank world : ℕ) → List (ℕ × Packet) = λ m rank world.
      send_to_all create_file
        (name_packet (elim (find ino m) [ none ↦ [] | some path ↦ path ] ++ file)) rank 0 world in
    (
      after,
      ap (λ u. dir_at parent (tree_of u.fs)) (sym now) ∙ ap (dir_at parent) names ∙ is_dir,
      gone,
      sent
          ∙ ap (λ b. q.sent ++ (if b then [] else packets (Request.create ino file truncates) q))
              succeeds
          ∙ ap (λ l. q.sent ++ l)
              (ap (λ m. announced m q.mpi_rank q.mpi_world_size) kept.dir_names
                ∙ ap₂ (announced p.dir_names) kept.rank kept.world),
    )
