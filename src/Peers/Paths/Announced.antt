-- ===== src/Peers/Paths/Announced.antt =====
-- A directory that one process of the peer-to-peer program makes, and another one after it.
use dagon_fs.Prelude.{
  ℕ, ◌≡◌, ◌≢◌, ◌<◌, refl, ap, sym, ◌∙◌, subst, Bool, true, false, none, some, List, [], ◌∷◌, ◌++◌,
  map, arith, length, ◌==◌, if◌then◌else◌,
}
use dagon_fs.Map.{Map, find}
use dagon_fs.Map.Keys.{Name, name_ord, nat_ord}
use dagon_fs.Map.Laws.{same, same_refl}
use dagon_fs.Nodes.{}
use dagon_fs.Nodes.WellFormed.{IsWellFormed}
use dagon_fs.FileSystem.{Env}
use dagon_fs.FileSystem.Inodes.{}
use dagon_fs.FileSystem.Requests.{Request, handle-Served}
use dagon_fs.FileSystem.Served.{}
use dagon_fs.FileSystem.Namespace.{tree_of, dir_at, added}
use dagon_fs.FileSystem.Namespace.Kept.{}
use dagon_fs.Peers.{Peer, Packet, request, create_dir, name_packet, name_size, get_dir_name}
use dagon_fs.Peers.Shared.{}
use dagon_fs.Peers.Handlers.{peer_handle, slash}
use dagon_fs.Peers.Handlers.Announcing.{packets}
use dagon_fs.Peers.Handlers.Refinement.{peer_handle-handle}
use dagon_fs.Peers.Loop.{Call, mkdir_call, Loop, awaits_request, raised, call_with, run}
use dagon_fs.Peers.Loop.Whole.{arrivals, create_dir_message, run-arrivals}
use dagon_fs.Peers.Loop.Delivery.{packets_for, packets_for-send_to_all}
use dagon_fs.Peers.Replicas.{CanServe}
use dagon_fs.Peers.Paths.{IsComponent, Walks, added-Walks}
use dagon_fs.Peers.Paths.Made.{path_of, mkdir-MadeDir}
use dagon_fs.Peers.Paths.Synced.{
  InSync, MakesDirectory, MakesDirectory-MadeDir, get_dir_name-MadeDir, InSync-MadeDir,
}

-- `mkdir` at a process: where the path fits into a packet and leads to a directory without the
-- name, the call succeeds, and the directory was asked for there.
abbrev pub Resolves : (Call → Peer → Bool × Peer) → Peer → Type 0
Resolves kernel p =
    (path name : Name) (parent : ℕ) (children : Map Name ℕ)
    → Walks (tree_of p.fs) path parent
    → dir_at parent (tree_of p.fs) ≡ some children
    → find name children ≡ none
    → IsComponent name
    → length (path ++ (name ++ slash)) < name_size
    → (q : Peer) × (kernel (mkdir_call (path ++ (name ++ slash))) p ≡ (true, q))
      × MakesDirectory parent name p q

-- The packets that a process receives, each with its sender.
abbrev pub received : (source rank : ℕ) → List (ℕ × Packet) → List (ℕ × Packet)
received source rank sent = map (λ packet. (source, packet)) (packets_for rank sent)

arriving :
    (parent : ℕ) (name : Name) (p : Peer) (rank : ℕ)
    → p.mpi_rank ≢ rank
    → rank < p.mpi_world_size
    → received p.mpi_rank rank (packets (Request.mkdir parent name) p)
      ≡ arrivals (p.mpi_rank, create_dir_message (path_of parent name p))
arriving parent name p rank apart member =
    let other : (rank == p.mpi_rank) ≡ false = ground arith in
    let payload = name_packet (path_of parent name p) in
    let also : (if rank == p.mpi_rank then [] else payload ∷ []) ≡ payload ∷ [] =
      rw (other, if◌then◌else◌) refl in
    ap (map (λ packet. (p.mpi_rank, packet))) (
      packets_for-send_to_all create_dir payload p.mpi_rank rank p.mpi_world_size member
      ∙ ap (λ t. request create_dir ∷ t) also)

-- The loop takes the packets of a directory that the kernel can make.
run-made :
    (kernel : Call → Peer → Bool × Peer) (source : ℕ) (path : Name) (l : Loop) (q : Peer)
    → l.mode ≡ awaits_request
    → source ≢ l.peer.mpi_rank
    → length path < name_size
    → kernel (mkdir_call path) (raised create_dir l.peer) ≡ (true, q)
    → run kernel (arrivals (source, create_dir_message path)) l
      ≡ some (record l { peer = q; mode = awaits_request })
unfolding run call_with
run-made kernel source path l q waits apart fits asked =
    let short : (length path == name_size) ≡ false = ground arith in
    run-arrivals kernel source (create_dir_message path) l [] waits apart
    ∙ rw (short, if◌then◌else◌, asked) refl

-- A process with a well-formed file system makes a directory of a free name, in a directory that
-- its name leads to; the whole path is shorter than a packet, the request is not one of another
-- process, and no numbers of deleted inodes are used again. Another process has the same tree and
-- the same names, its loop waits for a request, and its kernel makes a directory by looking names
-- up and then asking for it. Then the process answers and announces its directory; the loop of the
-- other process, given the packets of the announcement that are for it, makes the directory too and
-- waits again; both processes have the same tree and the same names of directories again, and
-- the name of the new directory leads to it.
pub mkdir-InSync :
    (kernel : Call → Peer → Bool × Peer) (env : Env) (parent : ℕ) (name : Name)
    (children : Map Name ℕ) (p : Peer) (l : Loop)
    → IsWellFormed p.fs.nodes
    → CanServe (Request.mkdir parent name) p
    → length (path_of parent name p) < name_size
    → dir_at parent (tree_of p.fs) ≡ some children
    → find name children ≡ none
    → IsComponent name
    → Walks (tree_of p.fs) (get_dir_name parent p) parent
    → p.flags.create_dir_from_thread ≡ false
    → InSync p l.peer
    → l.peer.fs.reclaiming_inodes ≡ false
    → l.mode ≡ awaits_request
    → p.mpi_rank ≢ l.peer.mpi_rank
    → l.peer.mpi_rank < p.mpi_world_size
    → Resolves kernel (raised create_dir l.peer)
    → (p' : Peer) × (l' : Loop) × (announced : List (ℕ × Packet)) × (peer_handle env
          (Request.mkdir parent name)
          p
        ≡ some p')
      × (p'.sent ≡ p.sent ++ announced)
      × (run kernel (received p.mpi_rank l.peer.mpi_rank announced) l ≡ some l')
      × (l'.mode ≡ awaits_request)
      × InSync p' l'.peer
      × (let ino = length (tree_of p.fs) in Walks (tree_of p'.fs) (get_dir_name ino p') ino)
unfolding get_dir_name
mkdir-InSync kernel env parent name children p l w can fits is_dir free proper walks quiet sync
      fresh waits apart member resolves =
    let served = handle-Served env (Request.mkdir parent name) p.fs w can.proper in
    let (p', done, _) =
      peer_handle-handle env (Request.mkdir parent name) p served.after can.fits served.returns in
    let here = mkdir-MadeDir env parent name p children is_dir can.fresh p' done in
    let tree = tree_of p.fs in
    let there : dir_at parent (tree_of l.peer.fs) ≡ some children =
      ap (dir_at parent) (sym sync.names) ∙ is_dir in
    let walks' = subst (λ t. Walks t (get_dir_name parent p) parent) sync.names walks in
    let (q, asked, makes_it) =
      resolves (get_dir_name parent p) name parent children walks' there free proper fits in
    let made =
      MakesDirectory-MadeDir parent name (raised create_dir l.peer) q children there fresh
        makes_it in
    let same_sync : InSync p (raised create_dir l.peer) = record {
      names = sync.names;
      dir_names = sync.dir_names;
    } in
    let own : same (length tree) (length tree) ≡ true = same_refl (length tree) in
    (
      p',
      record l { peer = q; mode = awaits_request },
      packets (Request.mkdir parent name) p,
      done,
      here.sent ∙ rw (quiet, if◌then◌else◌) refl,
      ap (λ t. run kernel t l) (arriving parent name p l.peer.mpi_rank apart member)
          ∙ run-made kernel p.mpi_rank (path_of parent name p) l q waits apart fits asked,
      refl,
      InSync-MadeDir parent name p p' (raised create_dir l.peer) q same_sync here made,
      subst (λ t. Walks t (get_dir_name (length tree) p') (length tree)) (sym here.names)
          (subst (λ t. Walks (added (some []) parent name tree) t (length tree))
            (sym (
              get_dir_name-MadeDir parent name p p' (length tree) here
              ∙ rw (own, if◌then◌else◌) refl))
            (added-Walks (get_dir_name parent p) name parent tree children walks is_dir free
              proper)),
    )
