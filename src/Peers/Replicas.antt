-- ===== src/Peers/Replicas.antt =====
-- The file systems of two processes of the peer-to-peer program that serve the same requests, each
-- with its own environment.
use dagon_fs.Prelude.{
  ℕ, suc, ◌≡◌, ◌≢◌, ◌≤◌, refl, ap, sym, ◌∙◌, subst, Bool, false, some, List, [], ◌∷◌, length, ltb,
  some-injective, none, ge→ltb, if◌then◌else◌, Bool-cases, inl, inr,
}
use dagon_fs.Map.{Map, insert, find}
use dagon_fs.Map.Keys.{Name, name_ord}
use dagon_fs.Map.Laws.{find-insert_self, find-insert, eq_of_same, same}
use dagon_fs.Nodes.WellFormed.{IsWellFormed}
use dagon_fs.FileSystem.{Env, k_max_filename_length}
use dagon_fs.FileSystem.Served.{}
use dagon_fs.FileSystem.Requests.{Request, IsProper, handle-Served}
use dagon_fs.FileSystem.Namespace.{Tree, tree_of, dir_at, added, renamed_by}
use dagon_fs.FileSystem.Namespace.Refinement.{tree_of-handle}
use dagon_fs.FileSystem.Namespace.Added.{dir_at-added, length-added}
use dagon_fs.Peers.{Peer}
use dagon_fs.Peers.Handlers.{peer_handle}
use dagon_fs.Peers.Handlers.Refinement.{Fits, peer_handle-handle}

-- What a request needs of a process: FUSE keeps to its rules, the names that are announced fit
-- into their packets, and no number of a deleted inode is used again.
pub record CanServe (r : Request) (p : Peer) : Type 0 where
  pub proper : IsProper r p.fs
  pub fits : Fits r p
  pub fresh : p.fs.reclaiming_inodes ≡ false

-- A process serves requests one after the other.
pub data Serves : Peer → List Request → Peer → Type 0 where
  idle : (p : Peer) → Serves p [] p
  serves :
      (env : Env) (r : Request) (rs : List Request) (p q q' : Peer)
      → peer_handle env r p ≡ some q
      → Serves q rs q'
      → Serves p (r ∷ rs) q'

-- Each of the requests can be served where its turn comes.
abbrev pub AllCanServe : (p : Peer) (rs : List Request) (q : Peer) → Serves p rs q → Type 0
AllCanServe _ _ _ (idle _) = Unit {0}
AllCanServe _ _ _ (serves env r rs p q q' done rest) = CanServe r p × AllCanServe q rs q' rest

-- What the requests do to the names.
abbrev pub renamed_by_all : List Request → Tree → Tree
renamed_by_all [] tree = tree
renamed_by_all (r ∷ rs) tree = renamed_by_all rs (renamed_by r tree)

-- One request.
pub peer_handle-renamed_by :
    (env : Env) (r : Request) (p : Peer)
    → IsWellFormed p.fs.nodes
    → CanServe r p
    → (q : Peer) × (peer_handle env r p ≡ some q)
      × IsWellFormed q.fs.nodes
      × (tree_of q.fs ≡ renamed_by r (tree_of p.fs))
peer_handle-renamed_by env r p w can =
    let served = handle-Served env r p.fs w can.proper in
    let (q, there, same_fs) = peer_handle-handle env r p served.after can.fits served.returns in
    (
      q,
      there,
      subst (λ s. IsWellFormed s.nodes) (sym same_fs) served.wf,
      ap tree_of same_fs ∙ tree_of-handle env r p.fs served.after can.fresh served.returns,
    )

Serves-renamed_by_all :
    (p : Peer) (rs : List Request) (q : Peer)
    → IsWellFormed p.fs.nodes
    → (run : Serves p rs q) → AllCanServe p rs q run
    → IsWellFormed q.fs.nodes × (tree_of q.fs ≡ renamed_by_all rs (tree_of p.fs))
Serves-renamed_by_all p [] q w (idle _) can = (w, refl)
Serves-renamed_by_all p (r ∷ rs) q w (serves env _ _ _ p₁ _ done rest) (can, later_can) =
    let (p₂, there, w₂, names) = peer_handle-renamed_by env r p w can in
    let now : p₂ ≡ p₁ = some-injective p₂ p₁ (sym there ∙ done) in
    let w₁ = subst (λ t. IsWellFormed t.fs.nodes) now w₂ in
    let (w', later) = Serves-renamed_by_all p₁ rs q w₁ rest later_can in
    (w', later ∙ ap (renamed_by_all rs) (ap (λ t. tree_of t.fs) (sym now) ∙ names))

-- Two processes with well-formed file systems and the same names, the same children with the same
-- numbers in each directory, serve the same requests in the same order; each request is proper where
-- its turn comes, the names that it announces fit into their packets, and the process does not use
-- the numbers of deleted inodes again. Then they have the same names afterwards, whatever their
-- clocks, users, flags and links are.
pub Serves-tree_of :
    (p q p' q' : Peer) (rs : List Request)
    → IsWellFormed p.fs.nodes
    → IsWellFormed q.fs.nodes
    → tree_of p.fs ≡ tree_of q.fs
    → (run : Serves p rs p') → (run' : Serves q rs q') → AllCanServe p rs p' run
    → AllCanServe q rs q' run'
    → tree_of p'.fs ≡ tree_of q'.fs
Serves-tree_of p q p' q' rs w v agree there here can can' =
    let (w', names) = Serves-renamed_by_all p rs p' w there can in
    let (v', names') = Serves-renamed_by_all q rs q' v here can' in
    names ∙ ap (renamed_by_all rs) agree ∙ sym names'

create_one :
    (parent : ℕ) (name : Name) (truncates : Bool) (tree : Tree) (children : Map Name ℕ)
    → dir_at parent tree ≡ some children
    → length name ≤ k_max_filename_length
    → renamed_by (Request.create parent name truncates) tree ≡ added none parent name tree
unfolding renamed_by
create_one parent name truncates tree children e short =
    ap
      (λ o. elim o [
        | none ↦ tree
        | some c ↦
            if ltb k_max_filename_length (length name) then tree else added none parent name tree
      ])
      e
    ∙ rw (ge→ltb k_max_filename_length (length name) short, if◌then◌else◌) refl

-- Two files are created in a directory: the children, and the numbers of both.
create_two :
    (parent : ℕ) (name name' : Name) (t t' : Bool) (tree : Tree) (children : Map Name ℕ)
    → dir_at parent tree ≡ some children
    → length name ≤ k_max_filename_length
    → length name' ≤ k_max_filename_length
    → name ≢ name'
    → let rs = Request.create parent name t ∷ Request.create parent name' t' ∷ [] in
      (after : Map Name ℕ) × (dir_at parent (renamed_by_all rs tree) ≡ some after)
      × (find name after ≡ some (length tree))
      × (find name' after ≡ some (suc (length tree)))
create_two parent name name' t t' tree children e short short' apart =
    let first = added none parent name tree in
    let there = dir_at-added none parent name tree children e in
    let after = insert name' (length first) (insert name (length tree) children) in
    let other : same name name' ≡ false = elim (Bool-cases (same name name')) [
      | inl equal ↦ absurd (apart (eq_of_same name name' equal))
      | inr differ ↦ differ
    ] in
    (
      after,
      ap (dir_at parent) (
            ap (renamed_by (Request.create parent name' t'))
              (create_one parent name t tree children e short)
            ∙ create_one parent name' t' first _ there short')
          ∙ dir_at-added none parent name' first _ there,
      find-insert name name' (length first) (insert name (length tree) children)
          ∙ rw (other, if◌then◌else◌) (find-insert_self name (length tree) children),
      find-insert_self name' (length first) (insert name (length tree) children)
          ∙ ap some (length-added none parent name tree),
    )

-- Two processes with well-formed file systems and the same names create the same two files in the
-- same directory, each in its own order and truncating them or not, as they do where two processes
-- create one of them each and announce it; the requests are proper, the names that they announce
-- fit into their packets, and the processes do not use the numbers of deleted inodes again. Then
-- the next free number names one file at the first process and the other file at
-- the second.
pub create-order :
    (p q p' q' : Peer) (parent : ℕ) (name name' : Name) (a b c d : Bool) (children : Map Name ℕ)
    → IsWellFormed p.fs.nodes
    → IsWellFormed q.fs.nodes
    → tree_of p.fs ≡ tree_of q.fs
    → dir_at parent (tree_of p.fs) ≡ some children
    → length name ≤ k_max_filename_length
    → length name' ≤ k_max_filename_length
    → name ≢ name'
    → (run : Serves p (Request.create parent name a ∷ Request.create parent name' b ∷ []) p')
    → (run' : Serves q (Request.create parent name' c ∷ Request.create parent name d ∷ []) q')
    → AllCanServe p _ p' run
    → AllCanServe q _ q' run'
    → let next = length (tree_of p.fs) in
      (here : Map Name ℕ) × (there : Map Name ℕ) × (dir_at parent (tree_of p'.fs) ≡ some here)
      × (dir_at parent (tree_of q'.fs) ≡ some there)
      × (find name here ≡ some next)
      × (find name' there ≡ some next)
create-order p q p' q' parent name name' a b c d children w v agree e short short' apart run run'
      can can' =
    let rs = Request.create parent name' c ∷ Request.create parent name d ∷ [] in
    let (w', names) = Serves-renamed_by_all p _ p' w run can in
    let (v', names') = Serves-renamed_by_all q rs q' v run' can' in
    let (here, at_here, one, _) =
      create_two parent name name' a b (tree_of p.fs) children e short short' apart in
    let (there, at_there, two, _) =
      create_two parent name' name c d (tree_of p.fs) children e short' short
        (λ s. apart (sym s)) in
    (
      here,
      there,
      ap (dir_at parent) names ∙ at_here,
      ap (dir_at parent) (names' ∙ ap (renamed_by_all rs) (sym agree)) ∙ at_there,
      one,
      two,
    )
