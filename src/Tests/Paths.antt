-- ===== src/Tests/Paths.antt =====
-- Two processes with a root directory only, of which one makes a directory and announces it.
use dagon_fs.Prelude.{
  ℕ, zero, suc, ◌-◌, ◌≡◌, ◌≤◌, ◌<◌, ◌≢◌, refl, ap, sym, ◌∙◌, subst, Bool, true, some, List, [], ◌∷◌,
  ◌++◌, arith, length, take, drop, take-append_left, length-append, get_elem?, some-injective,
}
use dagon_fs.Map.{find}
use dagon_fs.Map.Keys.{Name, name_ord, nat_ord}
use dagon_fs.Nodes.{INode, dir, special, special_inode_type_no_block}
use dagon_fs.Nodes.WellFormed.{IsWellFormed, AllGood, IsGood}
use dagon_fs.FileSystem.{Fs, start}
use dagon_fs.FileSystem.Requests.{Request, handle-Served}
use dagon_fs.FileSystem.Served.{}
use dagon_fs.FileSystem.Namespace.{tree_of, dir_at}
use dagon_fs.Peers.{Peer, Packet, name_size, get_dir_name, create_dir}
use dagon_fs.Peers.Handlers.{peer_handle, slash, with_fs}
use dagon_fs.Peers.Handlers.Refinement.{peer_handle-handle}
use dagon_fs.Peers.Loop.{Call, mkdir_call, Loop, awaits_request, raised, run}
use dagon_fs.Peers.Replicas.{}
use dagon_fs.Peers.Paths.{IsComponent, Walks, at_root, at_child}
use dagon_fs.Peers.Paths.Announced.{Resolves, received, mkdir-InSync}
use dagon_fs.Peers.Paths.Synced.{InSync, MakesDirectory, makes}
use dagon_fs.Tests.Trees.{node, empty_cluster, b}
use dagon_fs.Tests.Peers.{peer, peer_env, or_peer}

abbrev lone_inodes : List INode
lone_inodes = node 0 (special special_inode_type_no_block) 0 ∷ node 1 (dir []) 3 ∷ []

abbrev lone : Fs
lone = record (start empty_cluster) { nodes = record { inodes = lone_inodes; deleted_inodes = [] } }

lone-AllGood : AllGood 2 lone_inodes
unfolding find
lone-AllGood zero x e =
    subst (IsGood 2 0) (some-injective _ x e)
      (record { number = refl; ino = refl; children = λ children name c d h. cc d })
lone-AllGood (suc zero) x e = subst (IsGood 2 1) (some-injective _ x e) (record {
  number = refl;
  ino = refl;
  children = λ children name c d h.
      cc (subst (λ t. find name t ≡ some c) (some-injective children [] (cc d)) h);
})
lone-AllGood (suc (suc i)) x e = cc e

lone-IsWellFormed : IsWellFormed lone.nodes
lone-IsWellFormed = record { good = lone-AllGood; queue = tt }

abbrev lone_peer : ℕ → Peer
lone_peer rank = with_fs (peer rank) lone

-- The only path is that of the root.
lone-Walks : (path : Name) (ino : ℕ) → Walks (tree_of lone) path ino → (path ≡ slash) × (ino ≡ 1)
unfolding find
lone-Walks _ _ at_root = (refl, refl)
lone-Walks _ _ (at_child path name parent ino children walks is_dir is_child proper) =
    let (_, root) = lone-Walks path parent walks in
    let empty : children ≡ [] =
      some-injective children [] (sym is_dir ∙ ap (λ n. dir_at n (tree_of lone)) root) in
    cc (subst (λ t. find name t ≡ some ino) empty is_child)

-- A kernel that makes directories in the root.
abbrev kernel : Call → Peer → Bool × Peer
kernel (mkdir_call path) p = (
  true,
  or_peer (peer_handle peer_env (Request.mkdir 1 (take (length path - 2) (drop 1 path))) p),
)
kernel _ p = (true, p)

bare :
    (name : Name)
    → take (length (slash ++ (name ++ slash)) - 2) (drop 1 (slash ++ (name ++ slash))) ≡ name
bare name = take-append_left name slash _ (omega (arith, length-append name slash))

abbrev asked : Peer
asked = raised create_dir (lone_peer 1)

in_root :
    (name : Name)
    → length (slash ++ (name ++ slash)) < name_size
    → (q : Peer) × (kernel (mkdir_call (slash ++ (name ++ slash))) asked ≡ (true, q))
      × MakesDirectory 1 name asked q
unfolding get_dir_name find
in_root name fits =
    let served =
      handle-Served peer_env (Request.mkdir 1 name) lone lone-IsWellFormed (λ rest e. cc e) in
    let short : length (slash ++ (name ++ slash)) ≤ name_size = omega (arith, fits) in
    let (q, made, _) =
      peer_handle-handle peer_env (Request.mkdir 1 name) asked served.after short served.returns in
    (
      q,
      ap (λ t. (true, or_peer (peer_handle peer_env (Request.mkdir 1 t) asked))) (bare name)
          ∙ ap (λ o. (true, or_peer o)) made,
      makes peer_env asked q made,
    )

kernel-Resolves : Resolves kernel asked
kernel-Resolves path name parent children walks is_dir free proper fits =
    let (is_slash, is_root) = lone-Walks path parent walks in
    subst
      (λ t.
        length (t ++ (name ++ slash)) < name_size
        → (q : Peer) × (kernel (mkdir_call (t ++ (name ++ slash))) asked ≡ (true, q))
          × MakesDirectory parent name asked q)
      (sym is_slash)
      (subst
        (λ n.
          length (slash ++ (name ++ slash)) < name_size
          → (q : Peer) × (kernel (mkdir_call (slash ++ (name ++ slash))) asked ≡ (true, q))
            × MakesDirectory n name asked q)
        (sym is_root) (in_root name))
      fits

no_slash : (i : ℕ) → get_elem? b i ≢ some 47
no_slash zero e = omega (arith, some-injective 98 47 e)
no_slash (suc i) e = cc e

b-IsComponent : IsComponent b
b-IsComponent = (cc, no_slash)

-- The loop of process 1 waits.
abbrev waiting : Loop
waiting = record { peer = lone_peer 1; mode = awaits_request; transfers = [] }

mkdir-InSync_example :
    (p' : Peer) × (l' : Loop) × (announced : List (ℕ × Packet)) × (peer_handle peer_env
        (Request.mkdir 1 b)
        (lone_peer 0)
      ≡ some p')
    × (p'.sent ≡ (lone_peer 0).sent ++ announced)
    × (run kernel (received 0 1 announced) waiting ≡ some l')
    × (l'.mode ≡ awaits_request)
    × InSync p' l'.peer
    × Walks (tree_of p'.fs) (get_dir_name 2 p') 2
unfolding get_dir_name find
mkdir-InSync_example =
    mkdir-InSync kernel peer_env 1 b [] (lone_peer 0) waiting lone-IsWellFormed
      (record { proper = λ rest e. cc e; fits = omega arith; fresh = refl }) (omega arith) refl refl
      b-IsComponent at_root refl (record { names = refl; dir_names = λ ino. refl }) refl refl
      (omega arith) (omega arith) kernel-Resolves
