-- ===== src/Peers/Paths/Synced.antt =====
-- Two processes that have the same names, and that both make a directory.
use dagon_fs.Prelude.{
  ℕ, ◌≡◌, refl, ap, ap₂, sym, ◌∙◌, subst, false, none, some, [], ◌++◌, length, leb, ◌==◌,
  if◌then◌else◌, >>=-eq-some, some-injective, Bool-cases, inl, inr, Each, Each-some, Each-if,
  Each-bind, Each-elim,
}
use dagon_fs.Map.{Map, insert, erase, find}
use dagon_fs.Map.Keys.{Name, name_ord, nat_ord}
use dagon_fs.Map.Laws.{same, find-insert, find-erase}
use dagon_fs.Nodes.{as_directory, number_of_inodes, get_inode, no_ino, child_inode_number_with_name}
use dagon_fs.Nodes.WellFormed.{}
use dagon_fs.FileSystem.{Fs, Env}
use dagon_fs.FileSystem.Inodes.{fuse_lookup, lookup_child}
use dagon_fs.FileSystem.Requests.{Request}
use dagon_fs.FileSystem.Served.{}
use dagon_fs.FileSystem.Namespace.{tree_of, dir_at, added}
use dagon_fs.FileSystem.Namespace.Kept.{fuse_lookup-Shows}
use dagon_fs.Peers.{Peer, get_dir_name}
use dagon_fs.Peers.Shared.{peer_lookup}
use dagon_fs.Peers.Handlers.{peer_handle, slash, with_fs}
use dagon_fs.Peers.Handlers.Announcing.{}
use dagon_fs.Peers.Handlers.Refinement.{}
use dagon_fs.Peers.Loop.{}
use dagon_fs.Peers.Loop.Whole.{}
use dagon_fs.Peers.Loop.Delivery.{}
use dagon_fs.Peers.Replicas.{}
use dagon_fs.Peers.Paths.{}
use dagon_fs.Peers.Paths.Made.{MadeDir, path_of, mkdir-MadeDir}

-- Two processes with the same tree, and the same names for its directories.
pub record InSync (p q : Peer) : Type 0 where
  pub names : tree_of p.fs ≡ tree_of q.fs
  pub dir_names : (ino : ℕ) → get_dir_name ino p ≡ get_dir_name ino q

-- The kernel makes a directory at a process: it looks names up, and then it asks for the directory.
pub data MakesDirectory (parent : ℕ) (name : Name) : Peer → Peer → Type 0 where
  makes :
      (env : Env) (p q : Peer)
      → peer_handle env (Request.mkdir parent name) p ≡ some q
      → MakesDirectory parent name p q
  looks_up :
      (env : Env) (dir : ℕ) (child : Name) (p q q' : Peer)
      → peer_handle env (Request.lookup dir child) p ≡ some q
      → MakesDirectory parent name q q'
      → MakesDirectory parent name p q'

fuse_lookup-reclaiming :
    (dir : ℕ) (child : Name) (s : Fs)
    → Each (λ s'. s'.reclaiming_inodes ≡ s.reclaiming_inodes) (fuse_lookup dir child s)
unfolding fuse_lookup lookup_child
fuse_lookup-reclaiming dir child s =
    let P : Fs → Type 0 = λ s'. s'.reclaiming_inodes ≡ s.reclaiming_inodes in
    Each-if P (leb (number_of_inodes s.nodes) dir) _ _ (Each-some P _ refl) (
      Each-bind P (get_inode dir s.nodes) _ λ x found.
        Each-elim P (as_directory x) _ _ (Each-some P _ refl) λ children is_dir.
          let ino = child_inode_number_with_name child children in
          Each-if P (ino == no_ino) _ _ (Each-some P _ refl)
            (Each-bind P (get_inode ino s.nodes) _ λ y here. Each-some P _ refl))

pub MakesDirectory-MadeDir :
    (parent : ℕ) (name : Name) (p q : Peer) (children : Map Name ℕ)
    → dir_at parent (tree_of p.fs) ≡ some children
    → p.fs.reclaiming_inodes ≡ false
    → MakesDirectory parent name p q
    → MadeDir parent name p q
unfolding peer_handle peer_lookup
MakesDirectory-MadeDir parent name p q children e fresh (makes env _ _ made) =
    mkdir-MadeDir env parent name p children e fresh q made
MakesDirectory-MadeDir parent name p q' children e fresh
      (looks_up env dir child _ q _ looked more) =
    let (s, found, done) = >>=-eq-some (fuse_lookup dir child p.fs) _ looked in
    let shown : tree_of s ≡ tree_of p.fs = fuse_lookup-Shows dir child p.fs s found in
    let now : with_fs p s ≡ q = some-injective _ _ done in
    let at_q =
      subst (λ t. dir_at parent (tree_of t.fs) ≡ some children) now
        (ap (dir_at parent) shown ∙ e) in
    let fresh_q =
      subst (λ t. t.fs.reclaiming_inodes ≡ false) now
        (fuse_lookup-reclaiming dir child p.fs s found ∙ fresh) in
    let rest =
      subst (λ t. MadeDir parent name t q') (sym now)
        (MakesDirectory-MadeDir parent name q q' children at_q fresh_q more) in
    record {
      names = rest.names ∙ ap (added (some []) parent name) shown;
      dir_names =
          rest.dir_names
          ∙ ap (λ t. insert (length t) (path_of parent name p) (erase (length t) p.dir_names))
              shown;
      sent = rest.sent;
      flags = rest.flags;
      rank = rest.rank;
    }

pub get_dir_name-MadeDir :
    (parent : ℕ) (name : Name) (p q : Peer) (ino : ℕ)
    → MadeDir parent name p q
    → get_dir_name ino q
      ≡ (if same ino (length (tree_of p.fs)) then path_of parent name p else get_dir_name ino p)
unfolding get_dir_name
get_dir_name-MadeDir parent name p q ino made =
    let n = length (tree_of p.fs) in
    let path = path_of parent name p in
    let found = find-insert ino n path (erase n p.dir_names) in
    ap (λ m. elim (find ino m) [ none ↦ [] | some name' ↦ name' ]) made.dir_names
    ∙ elim (Bool-cases (same ino n)) [
      | inl here ↦ rw (found, here, if◌then◌else◌) refl
      | inr apart ↦
          rw (found, apart, if◌then◌else◌, find-erase ino n p.dir_names, apart, if◌then◌else◌) refl
    ]

-- Both processes make the directory.
pub InSync-MadeDir :
    (parent : ℕ) (name : Name) (p p' q q' : Peer)
    → InSync p q
    → MadeDir parent name p p'
    → MadeDir parent name q q'
    → InSync p' q'
InSync-MadeDir parent name p p' q q' sync here there = record {
  names = here.names ∙ ap (added (some []) parent name) sync.names ∙ sym there.names;
  dir_names = λ ino.
      get_dir_name-MadeDir parent name p p' ino here
      ∙ ap₂ (λ n t. if same ino n then t else get_dir_name ino p) (ap length sync.names)
          (ap (λ t. t ++ (name ++ slash)) (sync.dir_names parent))
      ∙ ap (λ t. if same ino (length (tree_of q.fs)) then path_of parent name q else t)
          (sync.dir_names ino)
      ∙ sym (get_dir_name-MadeDir parent name q q' ino there);
}
