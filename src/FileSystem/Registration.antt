-- ===== src/FileSystem/Registration.antt =====
-- `RegisterINode` on a well-formed file system: it returns, and what it leaves.
use dagon_fs.Prelude.{
  ℕ, ◌+◌, ◌≤◌, ◌<◌, ◌≡◌, ◌≢◌, refl, sym, subst, ◌∙◌, ◌⊎◌, inl, inr, Bool, true, false, some, none,
  List, [], ◌∷◌, ◌++◌, arith, length, get_elem?, set, length-append, length-set, get_elem?-set_self,
  get_elem?-set_ne, get_elem?-append_left, get_elem?-append_last, get_elem?-lt, get_elem?-inside,
  Bool-cases, ◌==◌, if◌then◌else◌,
}
use dagon_fs.Nodes.{
  Kind, file, dir, symlink, special, regular_file, directory, symbolic_link,
  special_inode_type_no_block, sub64, attr_of, INode, INodeType, Nodes, number_of_inodes, get_inode,
  reclaim_inode, create_empty_inode, initialize_inode,
}
use dagon_fs.Nodes.WellFormed.{
  IsGood, IsGood-mono, AllGood, AllGood-set, AllBelow, AllBelow-mono, IsWellFormed,
  initialize_inode-IsGood,
}
use dagon_fs.FileSystem.{
  Fs, Env, with_nodes, update_used_blocks, update_used_inodes, place_inode, register_inode,
}

-- What `RegisterINode` leaves: the new inode under a number that was the next one or that of the
-- inode deleted first, and every other inode as it was.
pub record Registered (env : Env) (type : INodeType) (mode nlink gid uid : ℕ) (s : Fs) (ino : ℕ)
    (s' : Fs) : Type 0 where
  pub wf : IsWellFormed s'.nodes
  pub grows : number_of_inodes s.nodes ≤ number_of_inodes s'.nodes
  pub new :
      get_inode ino s'.nodes
      ≡ some
          (initialize_inode env.block_size env.now ino mode nlink gid uid (create_empty_inode type))
  pub others :
      (j : ℕ) → j < number_of_inodes s.nodes → ino ≢ j → get_inode j s'.nodes ≡ get_inode j s.nodes
  pub replies : s'.replies ≡ s.replies
  pub source :
      (ino ≡ number_of_inodes s.nodes) ⊎ ((rest : List ℕ) × (s.nodes.deleted_inodes ≡ ino ∷ rest))

-- The class of an inode of a type, without content.
abbrev pub kind_of : INodeType → Kind
kind_of regular_file = file none false
kind_of directory = dir []
kind_of symbolic_link = symlink []
kind_of special_inode_type_no_block = special special_inode_type_no_block

-- An inode with the attributes that the arguments of `RegisterINode` name, and nothing else.
pub record IsNew (env : Env) (type : INodeType) (mode nlink gid uid ino : ℕ) (x : INode)
    : Type 0 where
  pub kind : x.kind ≡ kind_of type
  pub number : x.inode_number ≡ ino
  pub entry_number : x.fuse_entry_param.ino ≡ ino
  pub st_mode : (attr_of x).st_mode ≡ mode
  pub st_nlink : (attr_of x).st_nlink ≡ nlink
  pub st_gid : (attr_of x).st_gid ≡ gid
  pub st_uid : (attr_of x).st_uid ≡ uid
  pub st_size : (attr_of x).st_size ≡ 0
  pub st_blocks : (attr_of x).st_blocks ≡ 0
  pub st_blksize : (attr_of x).st_blksize ≡ env.block_size
  pub st_atim : (attr_of x).st_atim ≡ env.now
  pub st_mtim : (attr_of x).st_mtim ≡ env.now
  pub st_ctim : (attr_of x).st_ctim ≡ env.now
  pub nlookup : x.nlookup ≡ 0
  pub kept : x.marked_for_deletion ≡ false
  pub no_xattr : x.xattr ≡ []

initialize_inode-of_empty :
    (env : Env) (type : INodeType) (mode nlink gid uid ino : ℕ) (x : INode)
    → x.kind ≡ kind_of type
    → x.nlookup ≡ 0
    → x.marked_for_deletion ≡ false
    → x.xattr ≡ []
    → IsNew env type mode nlink gid uid ino
        (initialize_inode env.block_size env.now ino mode nlink gid uid x)
unfolding initialize_inode
initialize_inode-of_empty env type mode nlink gid uid ino x kind nlookup kept no_xattr = record {
  kind = kind;
  number = refl;
  entry_number = refl;
  st_mode = refl;
  st_nlink = refl;
  st_gid = refl;
  st_uid = refl;
  st_size = refl;
  st_blocks = refl;
  st_blksize = refl;
  st_atim = refl;
  st_mtim = refl;
  st_ctim = refl;
  nlookup = nlookup;
  kept = kept;
  no_xattr = no_xattr;
}

initialize_inode-IsNew :
    (env : Env) (type : INodeType) (mode nlink gid uid ino : ℕ)
    → IsNew env type mode nlink gid uid ino
        (initialize_inode env.block_size env.now ino mode nlink gid uid (create_empty_inode type))
unfolding create_empty_inode
initialize_inode-IsNew env regular_file mode nlink gid uid ino =
    initialize_inode-of_empty env _ mode nlink gid uid ino _ refl refl refl refl
initialize_inode-IsNew env directory mode nlink gid uid ino =
    initialize_inode-of_empty env _ mode nlink gid uid ino _ refl refl refl refl
initialize_inode-IsNew env symbolic_link mode nlink gid uid ino =
    initialize_inode-of_empty env _ mode nlink gid uid ino _ refl refl refl refl
initialize_inode-IsNew env special_inode_type_no_block mode nlink gid uid ino =
    initialize_inode-of_empty env _ mode nlink gid uid ino _ refl refl refl refl

nonempty :
    (l : List ℕ) (flag : Bool)
    → (if length l == 0 then false else flag) ≡ true
    → (i : ℕ) × (rest : List ℕ) × (l ≡ i ∷ rest)
nonempty [] flag h = cc h
nonempty (i ∷ rest) flag h = (i, rest, refl)

module _ (env : Env) (type : INodeType) (mode nlink gid uid : ℕ) (s : Fs)
    (w : IsWellFormed s.nodes) where
  abbrev blank : INode
  blank = create_empty_inode type

  abbrev made : ℕ → INode
  made ino = initialize_inode env.block_size env.now ino mode nlink gid uid blank

  abbrev count : ℕ
  count = number_of_inodes s.nodes

  abbrev appended : List INode
  appended = s.nodes.inodes ++ blank ∷ []

  length-appended : length appended ≡ count + 1
  length-appended = length-append s.nodes.inodes (blank ∷ []) ∙ omega arith

  -- The nodes where the new inode is the last.
  abbrev fresh_nodes : Nodes
  fresh_nodes = record s.nodes { inodes = set appended count (made count) }

  length-fresh : number_of_inodes fresh_nodes ≡ count + 1
  length-fresh = length-set appended count (made count) ∙ length-appended

  fresh-others : (j : ℕ) → j < count → count ≢ j → get_inode j fresh_nodes ≡ get_inode j s.nodes
  fresh-others j h ne =
      get_elem?-set_ne appended count j (made count) ne
      ∙ get_elem?-append_left s.nodes.inodes (blank ∷ []) j h

  fresh-IsWellFormed : IsWellFormed fresh_nodes
  fresh-IsWellFormed =
      let old : (j : ℕ) (x : INode)
          → count ≢ j
          → get_elem? appended j ≡ some x
          → IsGood (count + 1) j x =
        λ j x ne e.
          let h : j < count = omega (arith, get_elem?-lt appended j x e, length-appended) in
          IsGood-mono count (count + 1) j x (omega arith)
            (w.good j x (sym (get_elem?-append_left s.nodes.inodes (blank ∷ []) j h) ∙ e)) in
      record {
        good =
            subst (λ n. AllGood n fresh_nodes.inodes) (sym length-fresh)
              (AllGood-set (count + 1) appended count (made count) old (
                initialize_inode-IsGood (count + 1) env.block_size env.now count mode nlink gid uid
                  type));
        queue = AllBelow-mono count _ s.nodes.deleted_inodes (omega (arith, length-fresh)) w.queue;
      }

  -- The nodes where it takes the place of a deleted inode.
  abbrev reused_nodes : ℕ → List ℕ → Nodes
  reused_nodes ino rest = record {
    inodes = set (set s.nodes.inodes ino blank) ino (made ino);
    deleted_inodes = rest;
  }

  length-reused : (ino : ℕ) (rest : List ℕ) → number_of_inodes (reused_nodes ino rest) ≡ count
  length-reused ino rest = length-set _ ino (made ino) ∙ length-set s.nodes.inodes ino blank

  reused-others :
      (ino : ℕ) (rest : List ℕ) (j : ℕ)
      → ino ≢ j
      → get_inode j (reused_nodes ino rest) ≡ get_inode j s.nodes
  reused-others ino rest j ne =
      get_elem?-set_ne _ ino j (made ino) ne ∙ get_elem?-set_ne s.nodes.inodes ino j blank ne

  reused-IsWellFormed :
      (ino : ℕ) (rest : List ℕ)
      → s.nodes.deleted_inodes ≡ ino ∷ rest
      → IsWellFormed (reused_nodes ino rest)
  reused-IsWellFormed ino rest e =
      let all : AllGood count (reused_nodes ino rest).inodes =
        AllGood-set count (set s.nodes.inodes ino blank) ino (made ino)
          (λ j x ne f. w.good j x (sym (get_elem?-set_ne s.nodes.inodes ino j blank ne) ∙ f))
          (initialize_inode-IsGood count env.block_size env.now ino mode nlink gid uid type) in
      let below : AllBelow count (ino ∷ rest) = subst (AllBelow count) e w.queue in
      record {
        good =
            subst (λ n. AllGood n (reused_nodes ino rest).inodes) (sym (length-reused ino rest))
              all;
        queue = subst (λ n. AllBelow n rest) (sym (length-reused ino rest)) below.1;
      }

  abbrev reclaiming : Bool
  reclaiming = if length s.nodes.deleted_inodes == 0 then false else s.reclaiming_inodes

  register_inode-fresh :
      reclaiming ≡ false
      → (s' : Fs) × (register_inode env type mode nlink gid uid s ≡ some (count, s'))
        × Registered env type mode nlink gid uid s count s'
  unfolding register_inode place_inode
  register_inode-fresh no_reclaim = (
    with_nodes (update_used_inodes 1 (record s { reclaiming_inodes = false })) fresh_nodes,
    rw (no_reclaim, get_elem?-append_last s.nodes.inodes blank) refl,
    record {
      wf = fresh-IsWellFormed;
      grows = omega (arith, length-fresh);
      new = get_elem?-set_self appended count (made count) (omega (arith, length-appended));
      others = fresh-others;
      replies = refl;
      source = inl refl;
    },
  )

  register_inode-reused :
      (ino : ℕ) (rest : List ℕ)
      → reclaiming ≡ true
      → s.nodes.deleted_inodes ≡ ino ∷ rest
      → (s' : Fs) × (register_inode env type mode nlink gid uid s ≡ some (ino, s'))
        × Registered env type mode nlink gid uid s ino s'
  unfolding register_inode place_inode
  register_inode-reused ino rest reclaim e =
      let below : AllBelow count (ino ∷ rest) = subst (AllBelow count) e w.queue in
      let inside : ino < count = below.0 in
      let inside' : ino < length (set s.nodes.inodes ino blank) =
        omega (arith, inside, length-set s.nodes.inodes ino blank) in
      let (del, found) = get_elem?-inside s.nodes.inodes ino inside in
      (
        with_nodes
            (update_used_blocks (sub64 0 (attr_of del).st_blocks)
              (record s { reclaiming_inodes = true }))
            (reused_nodes ino rest),
        rw (reclaim, e, reclaim_inode, found, get_elem?-set_self s.nodes.inodes ino blank inside)
            refl,
        record {
          wf = reused-IsWellFormed ino rest e;
          grows = omega (arith, length-reused ino rest);
          new = get_elem?-set_self _ ino (made ino) inside';
          others = λ j _ ne. reused-others ino rest j ne;
          replies = refl;
          source = inr (rest, e);
        },
      )

  -- It returns, whether it takes a number of a deleted inode or not.
  pub register_inode-Registered :
      (ino : ℕ) × (s' : Fs) × (register_inode env type mode nlink gid uid s ≡ some (ino, s'))
      × Registered env type mode nlink gid uid s ino s'
  register_inode-Registered = elim (Bool-cases reclaiming) [
    | inl yes_reclaim ↦
        let (ino, rest, e) = nonempty s.nodes.deleted_inodes s.reclaiming_inodes yes_reclaim in
        let (s', eq, r) = register_inode-reused ino rest yes_reclaim e in (ino, s', eq, r)
    | inr no_reclaim ↦ let (s', eq, r) = register_inode-fresh no_reclaim in (count, s', eq, r)
  ]

  -- On a well-formed file system an inode is registered: the call returns its number, which was
  -- the next one or that of the inode deleted first; the new inode stands there, with the class,
  -- the number, the mode, the link count, the group and the user given, the block size, the times of
  -- the clock and no content; every other inode is as it was, nothing is sent, and the file system
  -- is well formed.
  pub register_inode-IsNew :
      (ino : ℕ) × (s' : Fs) × (x : INode) × (register_inode env type mode nlink gid uid s
        ≡ some (ino, s'))
      × Registered env type mode nlink gid uid s ino s'
      × (get_inode ino s'.nodes ≡ some x)
      × IsNew env type mode nlink gid uid ino x
  register_inode-IsNew =
      let (ino, s', eq, r) = register_inode-Registered in
      (ino, s', made ino, eq, r, r.new, initialize_inode-IsNew env type mode nlink gid uid ino)
