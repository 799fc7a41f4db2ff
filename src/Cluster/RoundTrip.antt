-- ===== src/Cluster/RoundTrip.antt =====
-- A read after a write gives the bytes that were written, over any number of processes.
use native.Mathlib.Nat.{mul-le-mul_left, mul-le-mul_right, zero-mul, mul-one}
use dagon_fs.Prelude.{
  ℕ, zero, suc, ◌+◌, ◌*◌, ◌≤◌, ◌<◌, ◌≡◌, refl, ap, ap₂, sym, ◌∙◌, some, List, [], ◌∷◌, ◌++◌, map,
  flatten, arith, length, length-take, length-drop, take, drop, sum, take_add, drop_add, take_all,
  take_zero_of_eq, take-append_left, drop-append_left,
}
use dagon_fs.Blocks.{Address}
use dagon_fs.Cluster.{
  Byte, Heap, NodeProcess, pointer_size, byte_size, effective_blocks, number_of_blocks, part_counts,
  displacements, store_blocks, load_blocks, node_write, nodes_write, node_read, nodes_read,
}
use dagon_fs.Cluster.Collectives.{Mpi, IsMpi}
use dagon_fs.Cluster.Partition.{shares, first_block, first_block-suc}
use dagon_fs.Cluster.Transfer.{first_block-le, scatterv-share}
use dagon_fs.Cluster.Memory.{length-store_blocks, load-store_blocks}

right_distrib : (a b k : ℕ) → (a + b) * k ≡ a * k + b * k
right_distrib a b k = omega arith

module _ (block_size n world : ℕ) (buffer : List Byte) where
  -- The bytes of process `r`.
  abbrev pub slice : ℕ → List Byte
  slice r =
      take (effective_blocks n world r * block_size)
        (drop (first_block n world r * block_size) buffer)

  -- The bytes of `left` processes from `r` on.
  abbrev pub slices : (r left : ℕ) → List (List Byte)
  slices r zero = []
  slices r (suc left) = slice r ∷ slices (r + 1) left

  pub flatten-slices :
      (r left : ℕ)
      → flatten (slices r left)
        ≡ take
            (sum (shares n world r left) * block_size)
            (drop (first_block n world r * block_size) buffer)
  unfolding flatten
  flatten-slices r zero = sym (take_zero_of_eq _ _ (omega arith))
  flatten-slices r (suc left) =
      let e = effective_blocks n world r in
      let s = sum (shares n world (r + 1) left) in
      let rest = flatten-slices (r + 1) left in
      rw
        (
          right_distrib e s block_size,
          take_add (e * block_size) (s * block_size),
          ← drop_add (first_block n world r * block_size) (e * block_size) buffer,
          ← right_distrib (first_block n world r) e block_size,
          ← first_block-suc,
        )
        (ap (λ t. slice r ++ t) rest)

  length-slice :
      (r : ℕ)
      → r < world
      → n * block_size ≤ length buffer
      → length (slice r) ≡ effective_blocks n world r * block_size
  length-slice r h fits = omega (
    arith,
    length-take (effective_blocks n world r * block_size)
        (drop (first_block n world r * block_size) buffer),
    length-drop (first_block n world r * block_size) buffer,
    mul-le-mul_right block_size (first_block-le n world r h),
  )

  pub lengths-slices :
      (r left : ℕ)
      → r + left ≤ world
      → n * block_size ≤ length buffer
      → map length (slices r left) ≡ map (λ t. t * block_size) (shares n world r left)
  lengths-slices r zero h fits = refl
  lengths-slices r (suc left) h fits =
      ap₂ ◌∷◌ (length-slice r (omega arith) fits) (lengths-slices (r + 1) left (omega arith) fits)

pub length-nodes_write :
    (mpi : Mpi) (block_size world inode file_size : ℕ) (buffer : List Byte) (r : ℕ)
    (nodes : List NodeProcess)
    → length (nodes_write mpi block_size world r inode file_size buffer nodes).1 ≡ length nodes
unfolding nodes_write
length-nodes_write mpi b w inode size buffer r [] = refl
length-nodes_write mpi b w inode size buffer r (node ∷ nodes) =
    ap suc (length-nodes_write mpi b w inode size buffer (r + 1) nodes)

module _ (mpi : Mpi) (laws : IsMpi mpi) (block_size world inode file_size : ℕ) (buffer : List Byte)
    (enough : number_of_blocks block_size file_size * block_size ≤ length buffer)
    (wide : 8 ≤ block_size)
    (small : number_of_blocks block_size file_size * block_size < 4294967296) where
  abbrev blocks : ℕ
  blocks = number_of_blocks block_size file_size

  pub small_pointers : blocks * pointer_size < 4294967296
  small_pointers = omega (arith, mul-le-mul_left blocks wide)

  -- What a process stores and announces, and what it finds again.
  node_write-addresses :
      (r : ℕ) (node : NodeProcess)
      → length (node_write mpi block_size world r inode file_size buffer node).0
        ≡ effective_blocks blocks world r
  unfolding node_write
  node_write-addresses r node =
      length-store_blocks block_size 0 (effective_blocks blocks world r) _ node.heap

  -- Process `r` receives the bytes of its blocks.
  received :
      (r : ℕ)
      → r < world
      → let counts = part_counts blocks world block_size 0 world in
        mpi.scatterv Byte byte_size buffer counts (displacements 0 counts) r
        ≡ slice block_size blocks world buffer r
  received r h =
      let one : block_size * byte_size ≡ block_size = omega arith in
      rw one at (
        scatterv-share mpi laws byte_size block_size blocks world buffer r (omega arith) h
          (rw one small) enough)

  -- It is sent back its own addresses.
  pub returned :
      (r : ℕ) (own rest addresses : List Address)
      → r < world
      → length addresses ≡ blocks
      → length own ≡ effective_blocks blocks world r
      → drop (first_block blocks world r) addresses ≡ own ++ rest
      → let counts = part_counts blocks world pointer_size 0 world in
        mpi.scatterv Address pointer_size addresses counts (displacements 0 counts) r ≡ own
  returned r own rest addresses h len own_len e =
      scatterv-share mpi laws pointer_size 1 blocks world addresses r (omega arith) h small_pointers
        (omega arith)
      ∙ rw (mul-one, mul-one, e) (take-append_left own rest _ (sym own_len))

  -- So it loads what it had received.
  pub reloaded :
      (r : ℕ) (heap : Heap)
      → r < world
      → let counts = part_counts blocks world block_size 0 world in
        let local = mpi.scatterv Byte byte_size buffer counts (displacements 0 counts) r in
        let stored = store_blocks block_size 0 (effective_blocks blocks world r) local heap in
        load_blocks stored.1 stored.0 ≡ some (slice block_size blocks world buffer r)
  reloaded r heap h =
      load-store_blocks block_size 0 (effective_blocks blocks world r) _ heap
      ∙ rw (received r h, zero-mul)
          (ap some (
            take_all _ (slice block_size blocks world buffer r)
              (omega (arith, length-slice block_size blocks world buffer r h enough))))

  node_read-node_write :
      (r : ℕ) (node : NodeProcess) (rest addresses : List Address)
      → r < world
      → length addresses ≡ blocks
      → let done = node_write mpi block_size world r inode file_size buffer node in
        drop (first_block blocks world r) addresses ≡ done.0 ++ rest
        → node_read mpi world r blocks addresses done.1
          ≡ some (slice block_size blocks world buffer r)
  unfolding node_read node_write
  node_read-node_write r node rest addresses h len e =
      rw (returned r _ rest addresses h len (node_write-addresses r node) e, node_read)
        (reloaded r node.heap h)

  pub nodes_write-addresses :
      (r : ℕ) (nodes : List NodeProcess)
      → map length (nodes_write mpi block_size world r inode file_size buffer nodes).0
        ≡ map (λ t. t * 1) (shares blocks world r (length nodes))
  unfolding nodes_write
  nodes_write-addresses r [] = refl
  nodes_write-addresses r (node ∷ nodes) =
      ap₂ ◌∷◌ (node_write-addresses r node ∙ sym (mul-one _)) (nodes_write-addresses (r + 1) nodes)

  pub nodes_read-nodes_write :
      (r : ℕ) (nodes : List NodeProcess) (addresses : List Address)
      → r + length nodes ≤ world
      → length addresses ≡ blocks
      → let done = nodes_write mpi block_size world r inode file_size buffer nodes in
        drop (first_block blocks world r) addresses ≡ flatten done.0
        → nodes_read mpi world r blocks addresses done.1
          ≡ some (slices block_size blocks world buffer r (length nodes))
  unfolding nodes_read nodes_write flatten
  nodes_read-nodes_write r [] addresses h len e = refl
  nodes_read-nodes_write r (node ∷ nodes) addresses h len e =
      let done = nodes_write mpi block_size world (r + 1) inode file_size buffer nodes in
      let own = (node_write mpi block_size world r inode file_size buffer node).0 in
      let next : drop (first_block blocks world (r + 1)) addresses ≡ flatten done.0 =
        rw (first_block-suc, drop_add (first_block blocks world r), e)
          (drop-append_left own (flatten done.0) _ (sym (node_write-addresses r node))) in
      ground (
        arith,
        node_read-node_write r node (flatten done.0) addresses (omega arith) len e,
        nodes_read-nodes_write (r + 1) nodes addresses (omega arith) len next,
      )
