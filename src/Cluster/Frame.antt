-- ===== src/Cluster/Frame.antt =====
-- A write to one inode leaves the reads of every other inode as they were.
use dagon_fs.Prelude.{
  ℕ, suc, ◌+◌, ◌≡◌, ◌≢◌, ap, subst, ◌*◌, ◌∙◌, >>=-eq-some, Option, some, tested, if◌then◌else◌,
  List, [], ◌∷◌, arith, length, leb, ◌==◌, Bool-cases, Option-cases, inl, inr,
}
use mathlib.Core.Option.{some-injective}
use dagon_fs.Map.{insert}
use dagon_fs.Map.Keys.{nat_ord}
use dagon_fs.Map.Laws.{find-insert}
use dagon_fs.Blocks.{
  Address, DataBlock, Blocks, get_data_block_list_of_inode, get_addresses,
  create_empty_block_list_for_inode,
}
use dagon_fs.Cluster.{
  Byte, NodeProcess, Cluster, world_size, effective_blocks, load_blocks, save_addresses, node_write,
  nodes_write, node_read, nodes_read, blocks_for_request, number_of_blocks, cluster_write,
  cluster_read, fits_int,
}
use dagon_fs.Cluster.Collectives.{Mpi}
use dagon_fs.Cluster.Memory.{Extends, load_blocks-Extends, store_blocks-Extends}
use dagon_fs.Cluster.RoundTrip.{length-nodes_write}

-- Node by node, nothing stored is lost.
abbrev AllExtend : List NodeProcess → List NodeProcess → Type 0
AllExtend [] [] = Unit {0}
AllExtend [] (b ∷ later) = ⊥
AllExtend (a ∷ nodes) [] = ⊥
AllExtend (a ∷ nodes) (b ∷ later) = Extends a.heap b.heap × AllExtend nodes later

nodes_write-AllExtend :
    (mpi : Mpi) (block_size world r inode file_size : ℕ) (buffer : List Byte)
    (nodes : List NodeProcess)
    → AllExtend nodes (nodes_write mpi block_size world r inode file_size buffer nodes).1
unfolding nodes_write node_write
nodes_write-AllExtend mpi b world r inode size buffer [] = tt
nodes_write-AllExtend mpi b world r inode size buffer (node ∷ nodes) = (
  store_blocks-Extends b 0 (effective_blocks _ world r) _ node.heap,
  nodes_write-AllExtend mpi b world (r + 1) inode size buffer nodes,
)

nodes_read-AllExtend :
    (mpi : Mpi) (world r n : ℕ) (addresses : List Address) (nodes later : List NodeProcess)
    (parts : List (List Byte))
    → AllExtend nodes later
    → nodes_read mpi world r n addresses nodes ≡ some parts
    → nodes_read mpi world r n addresses later ≡ some parts
unfolding nodes_read node_read
nodes_read-AllExtend mpi world r n addresses [] [] parts ext e = e
nodes_read-AllExtend mpi world r n addresses [] (b ∷ later) parts ext e = absurd ext
nodes_read-AllExtend mpi world r n addresses (a ∷ nodes) [] parts ext e = absurd ext
nodes_read-AllExtend mpi world r n addresses (a ∷ nodes) (b ∷ later) parts ext e =
    elim (Option-cases (node_read mpi world r n addresses a)) [
      | inl missing ↦ ground arith
      | inr (part, found) ↦ elim (Option-cases (nodes_read mpi world (r + 1) n addresses nodes)) [
        | inl missing ↦ ground arith
        | inr (rest, more) ↦ ground (
          arith,
          load_blocks-Extends a.heap b.heap ext.0 _ part found,
          nodes_read-AllExtend mpi world (r + 1) n addresses nodes later rest ext.1 more,
        )
      ]
    ]

list-insert_ne :
    (inode other : ℕ) (l : List DataBlock) (bs : Blocks)
    → other ≢ inode
    → get_data_block_list_of_inode other (insert inode l bs) ≡ get_data_block_list_of_inode other bs
unfolding get_data_block_list_of_inode
list-insert_ne inode other l bs h = ground (arith, find-insert other inode l bs)

list-save_addresses :
    (block_size world inode other n : ℕ) (addresses : List Address) (bs : Blocks)
    → other ≢ inode
    → get_data_block_list_of_inode other (save_addresses block_size world inode n addresses bs)
      ≡ get_data_block_list_of_inode other bs
unfolding save_addresses create_empty_block_list_for_inode
list-save_addresses b world inode other n addresses bs h =
    list-insert_ne inode other _ _ h ∙ ground (arith, list-insert_ne inode other [] bs h)

-- What a read of `other` needs of a later cluster.
record Keeps (other : ℕ) (c later : Cluster) : Type 0 where
  same_world : world_size later ≡ world_size c
  same_list :
      get_data_block_list_of_inode other later.blocks ≡ get_data_block_list_of_inode other c.blocks
  master : Extends c.master_heap later.master_heap
  others : AllExtend c.nodes later.nodes

cluster_write-Keeps :
    (mpi : Mpi) (block_size inode file_size other : ℕ) (buffer : List Byte) (c c' : Cluster)
    → other ≢ inode
    → cluster_write mpi block_size inode file_size buffer c ≡ some c'
    → Keeps other c c'
unfolding cluster_write
cluster_write-Keeps mpi b inode size other buffer c c' h w =
    elim (Bool-cases (leb (number_of_blocks b size * b) (length buffer))) [
      | inl fits ↦
          subst (Keeps other c)
            (some-injective _ _
              (rw (tested (fits_int (number_of_blocks b size) b) _ _ w, fits) at w))
            (record {
              same_world =
                  ap suc (length-nodes_write mpi b (world_size c) inode size buffer 1 c.nodes);
              same_list = list-save_addresses b (world_size c) inode other _ _ c.blocks h;
              master = store_blocks-Extends b 0 _ _ c.master_heap;
              others = nodes_write-AllExtend mpi b (world_size c) 1 inode size buffer c.nodes;
            })
      | inr short ↦ cc (rw (tested (fits_int (number_of_blocks b size) b) _ _ w, short) at w)
    ]

cluster_read-Keeps :
    (mpi : Mpi) (block_size other other_size req_size : ℕ) (c later : Cluster)
    (x : Option (List Byte))
    → Keeps other c later
    → cluster_read mpi block_size other other_size req_size c ≡ some x
    → cluster_read mpi block_size other other_size req_size later ≡ some x
unfolding cluster_read
cluster_read-Keeps mpi b other size req c later x k e = elim (Bool-cases (size == 0)) [
  | inl empty ↦ rw empty (rw empty at e)
  | inr bytes ↦
      let n = blocks_for_request b size req in
      let narrow = tested (fits_int n b) _ x (rw (bytes, if◌then◌else◌) at e) in
      let (addresses, found, e₁) = >>=-eq-some (get_addresses n _) _ (rw (bytes, narrow) at e) in
      let (part, loaded, e₂) = >>=-eq-some (load_blocks c.master_heap _) _ e₁ in
      let (parts, read, e₃) =
        >>=-eq-some (nodes_read mpi (world_size c) 1 n addresses c.nodes) _ e₂ in
      rw
        (
          bytes,
          narrow,
          k.same_list,
          found,
          k.same_world,
          load_blocks-Extends c.master_heap later.master_heap k.master _ part loaded,
          nodes_read-AllExtend mpi (world_size c) 1 n addresses c.nodes later.nodes parts k.others
              read,
        )
        e₃
]

-- A read that succeeds before a write to another inode gives the same after it.
pub cluster_read-cluster_write_ne :
    (mpi : Mpi) (block_size inode file_size other other_size req_size : ℕ) (buffer : List Byte)
    (c c' : Cluster) (x : Option (List Byte))
    → other ≢ inode
    → cluster_write mpi block_size inode file_size buffer c ≡ some c'
    → cluster_read mpi block_size other other_size req_size c ≡ some x
    → cluster_read mpi block_size other other_size req_size c' ≡ some x
cluster_read-cluster_write_ne mpi b inode size other other_size req buffer c c' x h w e =
    cluster_read-Keeps mpi b other other_size req c c' x
      (cluster_write-Keeps mpi b inode size other buffer c c' h w) e
