-- ===== src/Peers/Paths/Made.antt =====
-- What `FuseMkdir` of the peer-to-peer program leaves at a process, where the directory can be made.
use dagon_fs.Prelude.{
  ℕ, ◌≡◌, refl, sym, ◌∙◌, subst, false, Option, some, [], ◌++◌, arith, length, length-map, leb,
  if◌then◌else◌, ◌>>=◌, >>=-eq-some, get_elem?-lt, Each, Each-some, Each-bind,
}
use dagon_fs.Map.{Map, insert, erase}
use dagon_fs.Map.Keys.{Name, name_ord, nat_ord}
use dagon_fs.Nodes.{
  directory, as_directory, number_of_inodes, get_inode, modify_inode, create_empty_inode,
  add_hard_link, initialize_inode,
}
use dagon_fs.Nodes.Views.{as_directory-add_hard_link}
use dagon_fs.FileSystem.{Env, Errno, eisdir, with_nodes, children_at}
use dagon_fs.FileSystem.Entries.{enter, answer_entry}
use dagon_fs.FileSystem.Requests.{Request}
use dagon_fs.FileSystem.Namespace.{tree_of, dir_at, added}
use dagon_fs.FileSystem.Namespace.Trees.{dir_at-tree_of, dirs-modify_kept}
use dagon_fs.FileSystem.Namespace.Shows.{register_inode-appended, enter-Shows, Shows-answer_entry}
use dagon_fs.FileSystem.Namespace.Made.{named_lem}
use dagon_fs.Peers.{Peer, get_dir_name, create_dir}
use dagon_fs.Peers.Handlers.{
  peer_handle, peer_mkdir, peer_mkdir_entry, peer_register, peer_with_directory, clear_create_dir,
  slash,
}
use dagon_fs.Peers.Handlers.Each.{Each-told}
use dagon_fs.Peers.Handlers.Announcing.{packets}

-- The path of the new directory.
abbrev pub path_of : (parent : ℕ) → Name → Peer → Name
path_of parent name p = get_dir_name parent p ++ (name ++ slash)

pub record MadeDir (parent : ℕ) (name : Name) (p q : Peer) : Type 0 where
  pub names : tree_of q.fs ≡ added (some []) parent name (tree_of p.fs)
  pub dir_names :
      q.dir_names
      ≡ insert
          (length (tree_of p.fs))
          (path_of parent name p)
          (erase (length (tree_of p.fs)) p.dir_names)
  pub sent :
      q.sent
      ≡ p.sent
        ++ (if p.flags.create_dir_from_thread then [] else packets (Request.mkdir parent name) p)
  pub flags : q.flags ≡ record p.flags { create_dir_from_thread = false }
  pub rank : q.mpi_rank ≡ p.mpi_rank

peer_with_directory-children :
    (ino : ℕ) (wrong : Errno) (p : Peer) (k : Map Name ℕ → Option Peer) (children : Map Name ℕ)
    → children_at ino p.fs ≡ some children
    → peer_with_directory ino wrong p k ≡ k children
peer_with_directory-children ino wrong p k children e =
    let (x, found, is_dir) = >>=-eq-some (get_inode ino p.fs.nodes) as_directory e in
    let inside : leb (number_of_inodes p.fs.nodes) ino ≡ false =
      ground (arith, get_elem?-lt p.fs.nodes.inodes ino x found) in
    rw (inside, if◌then◌else◌, found, ◌>>=◌, is_dir) refl

mkdir_entry-MadeDir :
    (env : Env) (parent : ℕ) (name : Name) (p : Peer)
    → p.fs.reclaiming_inodes ≡ false
    → Each (MadeDir parent name p) (peer_mkdir_entry env parent name p)
unfolding peer_mkdir_entry peer_register create_empty_inode initialize_inode
mkdir_entry-MadeDir env parent name p fresh =
    let P = MadeDir parent name p in
    let (s₁, made, grown, here) =
      register_inode-appended p.fs env directory 0o40777 2 env.gid env.uid fresh in
    let number : number_of_inodes p.fs.nodes ≡ length (tree_of p.fs) =
      sym (length-map as_directory p.fs.nodes.inodes) in
    rw (made, ◌>>=◌, number)
      (Each-bind P (enter parent name (length (tree_of p.fs)) s₁) _ λ s₂ entered.
        let named =
          dirs-modify_kept parent add_hard_link s₂.nodes as_directory-add_hard_link
          ∙ named_lem parent name (some []) (tree_of p.fs) (tree_of s₁) s₂
              (enter-Shows parent name (length (tree_of p.fs)) s₁ s₂ entered) grown in
        Each-bind P
          (answer_entry (length (tree_of p.fs))
            (with_nodes s₂ (modify_inode parent add_hard_link s₂.nodes)))
          _
          λ s₃ answered.
            Each-told P p.flags.create_dir_from_thread create_dir (path_of parent name p) _
              clear_create_dir
              (Each-some P _ (record {
                names = Shows-answer_entry (length (tree_of p.fs)) _ _ named s₃ answered;
                dir_names = refl;
                sent = refl;
                flags = refl;
                rank = refl;
              })))

-- Where the parent is a directory and no numbers are used again, the directory has the next number,
-- its path as its name, and was announced unless the flag was raised, which is cleared.
pub mkdir-MadeDir :
    (env : Env) (parent : ℕ) (name : Name) (p : Peer) (children : Map Name ℕ)
    → dir_at parent (tree_of p.fs) ≡ some children
    → p.fs.reclaiming_inodes ≡ false
    → Each (MadeDir parent name p) (peer_handle env (Request.mkdir parent name) p)
unfolding peer_handle peer_mkdir
mkdir-MadeDir env parent name p children e fresh =
    subst (Each (MadeDir parent name p))
      (sym (
        peer_with_directory-children parent eisdir p (λ c. peer_mkdir_entry env parent name p)
          children (sym (dir_at-tree_of parent p.fs) ∙ e)))
      (mkdir_entry-MadeDir env parent name p fresh)
