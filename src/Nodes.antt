-- ===== src/Nodes.antt =====
-- nodes/INode.{hpp,cpp}, the classes derived from it, nodes/Directory.cpp and nodes/Nodes.cpp: the
-- inodes of the file system and their manager. An `INode *` is the number under which the manager
-- keeps the inode; the class of the object is its `kind`.
pub mod WellFormed
pub mod Views
use dagon_fs.Prelude.{
  ℕ, zero, suc, ◌+◌, ◌-◌, ◌%◌, Bool, true, false, ◌||◌, Option, none, some, List, [], ◌∷◌, ◌++◌,
  Ordering, length, get_elem?, set, take, drop, replicate, ltb, ◌==◌, if◌then◌else◌,
}
use dagon_fs.Map.{Map, find, insert, erase}
use dagon_fs.Map.Keys.{Name, name_ord}
use dagon_fs.Cluster.{Byte}

-- `unsigned long`, `fuse_ino_t`, `nlink_t` and `size_t` keep 64 bits.
abbrev pub u64 : ℕ → ℕ
u64 n = n % 18446744073709551616

-- `a - b` on 64 bits.
abbrev pub sub64 : ℕ → ℕ → ℕ
sub64 a b = u64 (a + 18446744073709551616 - u64 b)

-- `(fuse_ino_t) -1`
abbrev pub no_ino : ℕ
no_ino = 18446744073709551615

pub data INodeType : Type 0 where
  regular_file directory symbolic_link special_inode_type_no_block : INodeType

-- The fields of `struct stat` that the program writes. A time is a reading of the clock.
pub record Stat : Type 0 where
  pub st_mode : ℕ
  pub st_nlink : ℕ
  pub st_uid : ℕ
  pub st_gid : ℕ
  pub st_size : ℕ
  pub st_blocks : ℕ
  pub st_blksize : ℕ
  pub st_atim : ℕ
  pub st_mtim : ℕ
  pub st_ctim : ℕ

-- `fuse_entry_param`; the timeouts are in whole seconds.
pub record EntryParam : Type 0 where
  pub ino : ℕ
  pub attr : Stat
  pub attr_timeout : ℕ
  pub entry_timeout : ℕ

-- `File` with `m_buf` and `isWaitingForDistributedWrite`, `Directory` with `m_children`,
-- `SymbolicLink` with `m_link`, `SpecialINode` with `m_type`.
pub data Kind : Type 0 where
  file : Option (List Byte) → Bool → Kind
  dir : Map Name ℕ → Kind
  symlink : Name → Kind
  special : INodeType → Kind

pub record INode : Type 0 where
  pub kind : Kind
  pub nlookup : ℕ
  pub marked_for_deletion : Bool
  pub inode_number : ℕ
  pub fuse_entry_param : EntryParam
  pub xattr : Map Name (List Byte)

abbrev pub zero_stat : Stat
zero_stat = record {
  st_mode = 0;
  st_nlink = 0;
  st_uid = 0;
  st_gid = 0;
  st_size = 0;
  st_blocks = 0;
  st_blksize = 0;
  st_atim = 0;
  st_mtim = 0;
  st_ctim = 0;
}

abbrev pub empty_inode : Kind → INode
empty_inode k = record {
  kind = k;
  nlookup = 0;
  marked_for_deletion = false;
  inode_number = 0;
  fuse_entry_param = record { ino = 0; attr = zero_stat; attr_timeout = 0; entry_timeout = 0 };
  xattr = [];
}

-- `Nodes::createEmptyINode`
unfoldable pub create_empty_inode : INodeType → INode
create_empty_inode regular_file = empty_inode (file none false)
create_empty_inode directory = empty_inode (dir [])
create_empty_inode symbolic_link = empty_inode (symlink [])
create_empty_inode special_inode_type_no_block = empty_inode (special special_inode_type_no_block)

abbrev pub attr_of : INode → Stat
attr_of x = x.fuse_entry_param.attr

abbrev pub with_attr : INode → Stat → INode
with_attr x a = record x { fuse_entry_param = record x.fuse_entry_param { attr = a } }

-- `INode::Lookup`
unfoldable pub lookup : INode → INode
lookup x = record x { nlookup = u64 (x.nlookup + 1) }

-- `INode::Forget`
unfoldable pub forget : ℕ → INode → INode
forget n x = record x { nlookup = sub64 x.nlookup n }

abbrev pub is_forgotten : INode → Bool
is_forgotten x = x.nlookup == 0

abbrev pub has_no_links : INode → Bool
has_no_links x = (attr_of x).st_nlink == 0

-- `INode::AddHardLink`
unfoldable pub add_hard_link : INode → INode
add_hard_link x = with_attr x (record (attr_of x) { st_nlink = u64 ((attr_of x).st_nlink + 1) })

-- `INode::RemoveHardLink`
unfoldable pub remove_hard_link : INode → INode
remove_hard_link x =
    let n = sub64 (attr_of x).st_nlink 1 in
    let y = with_attr x (record (attr_of x) { st_nlink = n }) in
    if n == 0 then record y { marked_for_deletion = true } else y

-- `dynamic_cast<Directory *>`
abbrev pub as_directory : INode → Option (Map Name ℕ)
as_directory x = elim x.kind [ dir children ↦ some children | _ ↦ none ]

abbrev pub with_children : (Map Name ℕ → Map Name ℕ) → INode → INode
with_children f x = record x { kind = elim x.kind [ dir c ↦ dir (f c) | k ↦ k ] }

-- `Directory::ChildINodeNumberWithName`
unfoldable pub child_inode_number_with_name : Name → Map Name ℕ → ℕ
child_inode_number_with_name name children = elim (find name children) [
  | none ↦ no_ino
  | some ino ↦ ino
]

-- `Directory::UpdateChild`
unfoldable pub update_child : Name → ℕ → INode → INode
update_child name ino = with_children (insert name ino)

-- `Directory::DeleteChild`
unfoldable pub delete_child : Name → INode → INode
delete_child name = with_children (erase name)

abbrev dot : Name
dot = 46 ∷ []

abbrev dot_dot : Name
dot_dot = 46 ∷ 46 ∷ []

abbrev is_dots : Name → Bool
is_dots name =
    elim (name_ord.cmp name dot) [ Ordering.eq ↦ true | _ ↦ false ]
    || elim (name_ord.cmp name dot_dot) [ Ordering.eq ↦ true | _ ↦ false ]

-- `Directory::hasChildren`
unfoldable pub has_children : Map Name ℕ → Bool
has_children [] = false
has_children ((name, ino) ∷ rest) = if is_dots name then has_children rest else true

-- The manager: `INodes` and `DeletedINodes`.
pub record Nodes : Type 0 where
  pub inodes : List INode
  pub deleted_inodes : List ℕ

-- `getNumberOfINodes`, for fewer than 2 ^ 31 inodes: it returns an `int`, which wraps from there on.
abbrev pub number_of_inodes : Nodes → ℕ
number_of_inodes ns = length ns.inodes

-- `getINodeByINodeNumber`: an index out of range is undefined behaviour.
abbrev pub get_inode : ℕ → Nodes → Option INode
get_inode ino ns = get_elem? ns.inodes ino

-- `setINodeAt`, and what a member function does to the object at a number.
abbrev pub set_inode_at : ℕ → INode → Nodes → Nodes
set_inode_at ino x ns = record ns { inodes = set ns.inodes ino x }

unfoldable pub modify_inode : ℕ → (INode → INode) → Nodes → Nodes
modify_inode ino f ns = elim (get_inode ino ns) [ none ↦ ns | some x ↦ set_inode_at ino (f x) ns ]

-- `AddINode`
unfoldable pub add_inode : INode → Nodes → ℕ × Nodes
add_inode x ns = (number_of_inodes ns, record ns { inodes = ns.inodes ++ x ∷ [] })

-- `DeleteINode`
unfoldable pub delete_inode : ℕ → Nodes → Nodes
delete_inode ino ns = record ns { deleted_inodes = ns.deleted_inodes ++ ino ∷ [] }

-- `reclaimINode`: the front of an empty queue is undefined behaviour.
unfoldable pub reclaim_inode : Nodes → Option (ℕ × Nodes)
reclaim_inode ns = elim ns.deleted_inodes [
  | [] ↦ none
  | ino ∷ rest ↦ some (ino, record ns { deleted_inodes = rest })
]

-- `InitializeINode`; `block_size` is `INodeBufBlockSize`, `now` the reading of the clock.
unfoldable pub initialize_inode : (block_size now ino mode nlink gid uid : ℕ) → INode → INode
initialize_inode block_size now ino mode nlink gid uid x = record x {
  inode_number = ino;
  fuse_entry_param = record {
    ino = ino;
    attr = record zero_stat {
      st_mode = mode;
      st_gid = gid;
      st_uid = uid;
      st_nlink = nlink;
      st_blksize = block_size;
      st_atim = now;
      st_ctim = now;
      st_mtim = now;
    };
    attr_timeout = 1;
    entry_timeout = 1;
  };
}

-- The bits of `to_set` that the program reads.
pub record ToSet : Type 0 where
  pub set_mode : Bool
  pub set_uid : Bool
  pub set_gid : Bool
  pub set_size : Bool
  pub set_atime : Bool
  pub set_mtime : Bool
  pub set_ctime : Bool

-- `SetINodeAttributes`. The change time is set to the clock at the end, whatever was asked.
unfoldable pub set_inode_attributes : (now : ℕ) → Stat → ToSet → INode → INode
set_inode_attributes now new to_set x =
    let old = attr_of x in
    with_attr x (record old {
      st_mode = if to_set.set_mode then new.st_mode else old.st_mode;
      st_uid = if to_set.set_uid then new.st_uid else old.st_uid;
      st_gid = if to_set.set_gid then new.st_gid else old.st_gid;
      st_size = if to_set.set_size then new.st_size else old.st_size;
      st_atim = if to_set.set_atime then new.st_atim else old.st_atim;
      st_mtim = if to_set.set_mtime then new.st_mtim else old.st_mtim;
      st_ctim = now;
    })
