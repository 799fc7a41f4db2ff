-- ===== src/FileSystem/Namespace/Shows.antt =====
-- What a handler shows of the names, followed along its guards.
use dagon_fs.Prelude.{
  ℕ, ◌≡◌, refl, ap, sym, ◌∙◌, Bool, true, false, Option, none, some, [], ◌∷◌, ◌++◌, arith, length,
  length-map, set, get_elem?-append_last, get_elem?-set_self, length-append, get_elem?-lt, ◌<◌,
  subst, Option-cases, leb, ◌==◌, if◌then◌else◌, ◌>>=◌, inl, inr, some-injective,
}
use dagon_fs.Map.{Map, insert}
use dagon_fs.Map.Keys.{Name, name_ord}
use dagon_fs.Nodes.{
  INode, INodeType, as_directory, number_of_inodes, get_inode, no_ino, child_inode_number_with_name,
  create_empty_inode, initialize_inode, lookup, update_child, modify_inode,
}
use dagon_fs.Nodes.Views.{as_directory-lookup}
use dagon_fs.FileSystem.{
  Fs, Env, Errno, reply, answer, with_nodes, with_inode, with_directory, with_child, children_at,
  register_inode, place_inode, update_used_inodes, err, enoent,
}
use dagon_fs.FileSystem.Entries.{enter, answer_entry}
use dagon_fs.FileSystem.Namespace.{Tree, tree_of, put, in_directory, in_child}
use dagon_fs.FileSystem.Namespace.Trees.{
  dir_at-tree_of, dirs-set_inode_at, dirs-modify_kept, dirs-update_child, dirs-append,
}

-- A handler that returns leaves these names.
abbrev pub Shows : Tree → Option Fs → Type 0
Shows tree o = (s' : Fs) → o ≡ some s' → tree_of s' ≡ tree

pub Shows-some : (tree : Tree) (s : Fs) → tree_of s ≡ tree → Shows tree (some s)
Shows-some tree s h s' e = ap tree_of (sym (some-injective s s' e)) ∙ h

pub Shows-if :
    (b : Bool) (t t' : Tree) (o o' : Option Fs)
    → Shows t o
    → Shows t' o'
    → Shows (if b then t else t') (if b then o else o')
Shows-if true t t' o o' h h' = h
Shows-if false t t' o o' h h' = h'

pub Shows-both :
    (b : Bool) (t : Tree) (o o' : Option Fs)
    → Shows t o
    → Shows t o'
    → Shows t (if b then o else o')
Shows-both true t o o' h h' = h
Shows-both false t o o' h h' = h'

pub Shows-bind :
    {A : Type 0} (tree : Tree) (m : Option A) (k : A → Option Fs)
    → ((a : A) → m ≡ some a → Shows tree (k a))
    → Shows tree (m >>= k)
Shows-bind tree none k h s' e = cc
Shows-bind tree (some a) k h s' e = h a refl s' e

pub Shows-elim :
    {A : Type 0} (m : Option A) (t : Tree) (t' : A → Tree) (o : Option Fs) (k : A → Option Fs)
    → Shows t o
    → ((a : A) → m ≡ some a → Shows (t' a) (k a))
    → Shows (elim m [ none ↦ t | some a ↦ t' a ]) (elim m [ none ↦ o | some a ↦ k a ])
Shows-elim none t t' o k h h' = h
Shows-elim (some a) t t' o k h h' = h' a refl

-- The same names either way.
pub Shows-elim_both :
    {A : Type 0} (m : Option A) (t : Tree) (o : Option Fs) (k : A → Option Fs)
    → Shows t o
    → ((a : A) → Shows t (k a))
    → Shows t (elim m [ none ↦ o | some a ↦ k a ])
Shows-elim_both none t o k h h' = h
Shows-elim_both (some a) t o k h h' = h' a

module _ (s : Fs) where
  pub Shows-inode :
      (ino : ℕ) (tree : Tree) (k : INode → Option Fs)
      → Shows tree (answer (err enoent) s)
      → ((x : INode) → get_inode ino s.nodes ≡ some x → Shows tree (k x))
      → Shows tree (with_inode ino s k)
  Shows-inode ino tree k missing h =
      Shows-both (leb (number_of_inodes s.nodes) ino) tree _ _ missing
        (Shows-bind tree (get_inode ino s.nodes) k h)

  pub Shows-directory :
      (ino : ℕ) (wrong : Errno) (tree : Map Name ℕ → Tree) (k : Map Name ℕ → Option Fs)
      → ((children : Map Name ℕ)
          → children_at ino s ≡ some children
          → Shows (tree children) (k children))
      → Shows (in_directory ino (tree_of s) tree) (with_directory ino wrong s k)
  Shows-directory ino wrong tree k h =
      subst
        (λ o. Shows (elim o [ none ↦ tree_of s | some c ↦ tree c ]) (with_directory ino wrong s k))
        (sym (dir_at-tree_of ino s))
        (elim (Option-cases (get_inode ino s.nodes)) [
          | inl missing ↦ rw missing (
              Shows-both (leb (number_of_inodes s.nodes) ino) (tree_of s) _ _
                (Shows-some (tree_of s) (reply (err enoent) s) refl) (λ s' e. cc))
          | inr (x, found) ↦
              let inside : leb (number_of_inodes s.nodes) ino ≡ false =
                ground (arith, get_elem?-lt s.nodes.inodes ino x found) in
              rw (inside, found, if◌then◌else◌, ◌>>=◌)
                (Shows-elim (as_directory x) (tree_of s) tree _ k
                  (Shows-some (tree_of s) (reply (err wrong) s) refl)
                  λ children is_dir. h children (rw found is_dir))
        ])

  pub Shows-child :
      (name : Name) (children : Map Name ℕ) (tree : ℕ → Tree) (k : ℕ → Option Fs)
      → ((ino : ℕ) → Shows (tree ino) (k ino))
      → Shows (in_child name children (tree_of s) tree) (with_child name children s k)
  Shows-child name children tree k h =
      let ino = child_inode_number_with_name name children in
      Shows-if (ino == no_ino) _ _ _ _ (Shows-some (tree_of s) (reply (err enoent) s) refl) (h ino)

  -- While no numbers are reclaimed, a new inode gets the next one.
  pub register_inode-appended :
      (env : Env) (type : INodeType) (mode nlink gid uid : ℕ)
      → s.reclaiming_inodes ≡ false
      → let x =
          initialize_inode env.block_size env.now
            (number_of_inodes s.nodes)
            mode
            nlink
            gid
            uid
            (create_empty_inode type) in
        (s' : Fs) × (register_inode env type mode nlink gid uid s
          ≡ some (number_of_inodes s.nodes, s'))
        × (tree_of s' ≡ tree_of s ++ as_directory x ∷ [])
        × (get_inode (number_of_inodes s.nodes) s'.nodes ≡ some x)
  unfolding register_inode place_inode initialize_inode
  register_inode-appended env type mode nlink gid uid fresh =
      let xs = s.nodes.inodes in
      let blank = create_empty_inode type in
      let x = initialize_inode env.block_size env.now (length xs) mode nlink gid uid blank in
      let no : (if length s.nodes.deleted_inodes == 0 then false else s.reclaiming_inodes) ≡ false =
        ground arith in
      let inside : length xs < length (xs ++ blank ∷ []) =
        omega (arith, length-append xs (blank ∷ [])) in
      (
        with_nodes (update_used_inodes 1 (record s { reclaiming_inodes = false }))
            (record s.nodes { inodes = set (xs ++ blank ∷ []) (length xs) x }),
        rw (no, get_elem?-append_last xs blank) refl,
        dirs-set_inode_at (length xs) x blank (record s.nodes { inodes = xs ++ blank ∷ [] })
              (get_elem?-append_last xs blank) refl
            ∙ dirs-append xs blank,
        get_elem?-set_self (xs ++ blank ∷ []) (length xs) x inside,
      )

  pub Shows-register :
      (env : Env) (type : INodeType) (mode nlink gid uid : ℕ) (tree : Tree) (k : ℕ × Fs → Option Fs)
      → s.reclaiming_inodes ≡ false
      → ((s' : Fs) (x : INode)
          → as_directory x ≡ as_directory (create_empty_inode type)
          → get_inode (length (tree_of s)) s'.nodes ≡ some x
          → tree_of s' ≡ tree_of s ++ as_directory (create_empty_inode type) ∷ []
          → Shows tree (k (length (tree_of s), s')))
      → Shows tree (register_inode env type mode nlink gid uid s >>= k)
  unfolding initialize_inode
  Shows-register env type mode nlink gid uid tree k fresh h =
      let (s', made, shown, here) = register_inode-appended env type mode nlink gid uid fresh in
      let x =
        initialize_inode env.block_size env.now (number_of_inodes s.nodes) mode nlink gid uid
          (create_empty_inode type) in
      let number : number_of_inodes s.nodes ≡ length (tree_of s) =
        sym (length-map as_directory s.nodes.inodes) in
      rw (made, ◌>>=◌)
        (subst (λ n. Shows tree (k (n, s'))) (sym number)
          (h s' x refl (subst (λ n. get_inode n s'.nodes ≡ some x) number here) shown))

pub enter-Shows :
    (parent : ℕ) (name : Name) (ino : ℕ) (s : Fs)
    → Shows (put parent (insert name ino) (tree_of s)) (enter parent name ino s)
enter-Shows parent name ino s =
    Shows-both (ino == parent) _ _ _ (λ s' e. cc)
      (Shows-some _ _ (
        dirs-modify_kept ino lookup (modify_inode parent (update_child name ino) s.nodes)
          as_directory-lookup
        ∙ dirs-update_child parent name ino s.nodes))

pub Shows-enter :
    (parent : ℕ) (name : Name) (ino : ℕ) (s : Fs) (tree : Tree) (k : Fs → Option Fs)
    → ((s' : Fs) → tree_of s' ≡ put parent (insert name ino) (tree_of s) → Shows tree (k s'))
    → Shows tree (enter parent name ino s >>= k)
Shows-enter parent name ino s tree k h =
    Shows-bind tree (enter parent name ino s) k λ s' e. h s' (enter-Shows parent name ino s s' e)

pub Shows-answer_entry :
    (ino : ℕ) (s : Fs) (tree : Tree) → tree_of s ≡ tree → Shows tree (answer_entry ino s)
Shows-answer_entry ino s tree same =
    Shows-bind tree (get_inode ino s.nodes) _ λ x found. Shows-some tree _ same
