-- ===== src/Nodes/WellFormed.antt =====
-- The invariant of the inode manager: an inode knows its own number, directories name only inodes
-- that exist, and so does the queue of deleted inodes.
use dagon_fs.Prelude.{
  ℕ, ◌≤◌, ◌<◌, ◌≡◌, ◌≢◌, refl, sym, subst, ◌∙◌, some, List, [], ◌∷◌, ◌++◌, arith, ℕ_discrete,
  length, get_elem?, set, length-set, get_elem?-set_self, get_elem?-set_ne, get_elem?-lt,
  Option-cases, inl, inr, some-injective,
}
use dagon_fs.Map.{Map, find, insert, erase}
use dagon_fs.Map.Keys.{Name, name_ord}
use dagon_fs.Map.Laws.{same, find-insert, find-erase}
use dagon_fs.Nodes.{
  INode, Nodes, Stat, as_directory, with_attr, with_children, number_of_inodes, get_inode,
  set_inode_at, modify_inode, lookup, forget, add_hard_link, remove_hard_link, update_child,
  delete_child, INodeType, regular_file, directory, symbolic_link, special_inode_type_no_block,
  create_empty_inode, initialize_inode,
}

-- Every child of the directory has a number below `n`.
abbrev pub ChildrenBelow : ℕ → INode → Type 0
ChildrenBelow n x =
    (children : Map Name ℕ) (name : Name) (c : ℕ)
    → as_directory x ≡ some children
    → find name children ≡ some c
    → c < n

pub record IsGood (n i : ℕ) (x : INode) : Type 0 where
  pub number : x.inode_number ≡ i
  pub ino : x.fuse_entry_param.ino ≡ i
  pub children : ChildrenBelow n x

abbrev pub AllGood : ℕ → List INode → Type 0
AllGood n xs = (i : ℕ) (x : INode) → get_elem? xs i ≡ some x → IsGood n i x

abbrev pub AllBelow : ℕ → List ℕ → Type 0
AllBelow n [] = Unit {0}
AllBelow n (i ∷ l) = (i < n) × AllBelow n l

pub record IsWellFormed (ns : Nodes) : Type 0 where
  pub good : AllGood (number_of_inodes ns) ns.inodes
  pub queue : AllBelow (number_of_inodes ns) ns.deleted_inodes

-- What a member function has to respect.
abbrev pub Preserves : ℕ → (INode → INode) → Type 0
Preserves n f = (i : ℕ) (x : INode) → IsGood n i x → IsGood n i (f x)

-- The inodes other than `i` are good.
abbrev pub OthersGood : ℕ → ℕ → List INode → Type 0
OthersGood n i xs = (j : ℕ) (x : INode) → i ≢ j → get_elem? xs j ≡ some x → IsGood n j x

pub AllGood-set :
    (n : ℕ) (xs : List INode) (i : ℕ) (v : INode)
    → OthersGood n i xs
    → IsGood n i v
    → AllGood n (set xs i v)
AllGood-set n xs i v others good j x e = elim (ℕ_discrete i j) [
  | yes same ↦
      let here : get_elem? (set xs i v) i ≡ some x =
        subst (λ t. get_elem? (set xs i v) t ≡ some x) (sym same) e in
      let inside : i < length xs =
        omega (arith, get_elem?-lt (set xs i v) i x here, length-set xs i v) in
      let v_is_x = some-injective v x (sym (get_elem?-set_self xs i v inside) ∙ here) in
      subst (λ t. IsGood n t x) same (subst (IsGood n i) v_is_x good)
  | no other ↦ others j x other (sym (get_elem?-set_ne xs i j v other) ∙ e)
]

pub IsGood-mono : (n m i : ℕ) (x : INode) → n ≤ m → IsGood n i x → IsGood m i x
IsGood-mono n m i x h g = record {
  number = g.number;
  ino = g.ino;
  children = λ children k c e f. omega (arith, g.children children k c e f);
}

pub AllBelow-mono : (n m : ℕ) (l : List ℕ) → n ≤ m → AllBelow n l → AllBelow m l
AllBelow-mono n m [] h b = tt
AllBelow-mono n m (i ∷ l) h b = (omega arith, AllBelow-mono n m l h b.1)

pub AllBelow-append : (n : ℕ) (l : List ℕ) (i : ℕ) → AllBelow n l → i < n → AllBelow n (l ++ i ∷ [])
AllBelow-append n [] i b h = (h, tt)
AllBelow-append n (j ∷ l) i b h = (b.0, AllBelow-append n l i b.1 h)

pub set_inode_at-IsWellFormed :
    (ns : Nodes) (i : ℕ) (v : INode)
    → IsWellFormed ns
    → IsGood (number_of_inodes ns) i v
    → IsWellFormed (set_inode_at i v ns)
set_inode_at-IsWellFormed ns i v w good =
    let same_length = sym (length-set ns.inodes i v) in
    record {
      good =
          subst (λ n. AllGood n (set ns.inodes i v)) same_length
            (AllGood-set (number_of_inodes ns) ns.inodes i v (λ j x _ e. w.good j x e) good);
      queue = subst (λ n. AllBelow n ns.deleted_inodes) same_length w.queue;
    }

pub modify_inode-IsWellFormed :
    (ns : Nodes) (i : ℕ) (f : INode → INode)
    → IsWellFormed ns
    → Preserves (number_of_inodes ns) f
    → IsWellFormed (modify_inode i f ns)
unfolding modify_inode
modify_inode-IsWellFormed ns i f w keep = elim (Option-cases (get_inode i ns)) [
  | inl missing ↦ rw (missing, modify_inode) w
  | inr (x, found) ↦
      rw (found, modify_inode)
        (set_inode_at-IsWellFormed ns i (f x) w (keep i x (w.good i x found)))
]

pub number_of_inodes-modify_inode :
    (ns : Nodes) (i : ℕ) (f : INode → INode)
    → number_of_inodes (modify_inode i f ns) ≡ number_of_inodes ns
unfolding modify_inode
number_of_inodes-modify_inode ns i f = elim (Option-cases (get_inode i ns)) [
  | inl missing ↦ rw (missing, modify_inode) refl
  | inr (x, found) ↦ rw (found, modify_inode) (length-set ns.inodes i (f x))
]

as_directory-with_children :
    (f : Map Name ℕ → Map Name ℕ) (x : INode) (children : Map Name ℕ)
    → as_directory (with_children f x) ≡ some children
    → (old : Map Name ℕ) × (as_directory x ≡ some old) × (children ≡ f old)
as_directory-with_children f x children e = elim (Option-cases (as_directory x)) [
  | inl none_there ↦ ground arith
  | inr (old, was) ↦ (old, was, ground arith)
]

find-insert_below :
    (n : ℕ) (name : Name) (ino : ℕ) (k : Name) (c : ℕ) (old : Map Name ℕ)
    → ino < n
    → ((j : Name) (d : ℕ) → find j old ≡ some d → d < n)
    → find k (insert name ino old) ≡ some c
    → c < n
find-insert_below n name ino k c old h below e =
    ground (arith, find-insert k name ino old, below k c)

find-erase_below :
    (n : ℕ) (name k : Name) (c : ℕ) (old : Map Name ℕ)
    → ((j : Name) (d : ℕ) → find j old ≡ some d → d < n)
    → find k (erase name old) ≡ some c
    → c < n
find-erase_below n name k c old below e = ground (arith, find-erase k name old, below k c)

module _ (n : ℕ) where
  pub lookup-Preserves : Preserves n lookup
  unfolding lookup
  lookup-Preserves i x g = record { number = g.number; ino = g.ino; children = g.children }

  pub forget-Preserves : (k : ℕ) → Preserves n (forget k)
  unfolding forget
  forget-Preserves k i x g = record { number = g.number; ino = g.ino; children = g.children }

  pub with_attr-Preserves : (a : INode → Stat) → Preserves n (λ x. with_attr x (a x))
  with_attr-Preserves a i x g = record { number = g.number; ino = g.ino; children = g.children }

  pub add_hard_link-Preserves : Preserves n add_hard_link
  unfolding add_hard_link
  add_hard_link-Preserves i x g = record { number = g.number; ino = g.ino; children = g.children }

  pub remove_hard_link-Preserves : Preserves n remove_hard_link
  unfolding remove_hard_link
  remove_hard_link-Preserves i x g = record {
    number = ground arith;
    ino = ground arith;
    children = λ children k c e f. g.children children k c (ground arith) f;
  }

  pub update_child-Preserves :
      (name : Name) (ino : ℕ) → ino < n → Preserves n (update_child name ino)
  unfolding update_child
  update_child-Preserves name ino h i x g = record {
    number = g.number;
    ino = g.ino;
    children = λ children k c e f.
        let (old, was, now) = as_directory-with_children (insert name ino) x children e in
        find-insert_below n name ino k c old h (λ j d t. g.children old j d was t)
          (subst (λ t. find k t ≡ some c) now f);
  }

  pub delete_child-Preserves : (name : Name) → Preserves n (delete_child name)
  unfolding delete_child
  delete_child-Preserves name i x g = record {
    number = g.number;
    ino = g.ino;
    children = λ children k c e f.
        let (old, was, now) = as_directory-with_children (erase name) x children e in
        find-erase_below n name k c old (λ j d t. g.children old j d was t)
          (subst (λ t. find k t ≡ some c) now f);
  }

-- The object of a new inode has no children.
create_empty_inode-childless :
    (type : INodeType) (children : Map Name ℕ)
    → as_directory (create_empty_inode type) ≡ some children
    → children ≡ []
unfolding create_empty_inode
create_empty_inode-childless regular_file children e = cc
create_empty_inode-childless directory children e = cc
create_empty_inode-childless symbolic_link children e = cc
create_empty_inode-childless special_inode_type_no_block children e = cc

pub initialize_inode-IsGood :
    (n block_size now ino mode nlink gid uid : ℕ) (type : INodeType)
    → IsGood n ino
        (initialize_inode block_size now ino mode nlink gid uid (create_empty_inode type))
unfolding initialize_inode find
initialize_inode-IsGood n b now ino mode nlink gid uid type = record {
  number = refl;
  ino = refl;
  children = λ children k c e f.
      cc (subst (λ t. find k t ≡ some c) (create_empty_inode-childless type children e) f);
}
