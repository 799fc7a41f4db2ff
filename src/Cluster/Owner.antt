-- ===== src/Cluster/Owner.antt =====
-- Which process keeps which block, and the rank that the index records for it.
use native.Mathlib.Nat.{mul-le-mul_right, mod-eq_of_lt, add-zero, zero-add, add-mod_left}
use dagon_fs.Prelude.{
  ℕ, zero, suc, ◌+◌, ◌*◌, ◌/◌, ◌%◌, ◌≤◌, ◌<◌, ◌≡◌, refl, ap, ◌∙◌, ap₂, ℕ_discrete, true, false,
  some, [], arith, dec_lt, get_elem?, ◌==◌,
}
use dagon_fs.Blocks.{DataBlock, numbered_block, new_blocks, add_data_blocks_to, next_rank}
use dagon_fs.Cluster.{effective_blocks}
use dagon_fs.Cluster.Transfer.{first_block-zero}
use dagon_fs.Cluster.Partition.{first_block, first_block-suc, first_block-world}

-- Block `i` of `n` is among those that process `r` stores.
abbrev pub IsKeptBy : (n world i r : ℕ) → Type 0
IsKeptBy n world i r =
    (first_block n world r ≤ i) × (i < first_block n world r + effective_blocks n world r)

-- The process that keeps block `i`, among the first `k`.
keeper : (n world i k : ℕ) → i < first_block n world k → (r : ℕ) × (r < k) × IsKeptBy n world i r
keeper n world i zero h = absurd (omega arith)
keeper n world i (suc k) h = elim (dec_lt i (first_block n world k)) [
  | yes before ↦ let (r, lt, kept) = keeper n world i k before in (r, omega arith, kept)
  | no here ↦ (k, omega arith, omega (arith, first_block-suc n world k))
]

next_rank-mod :
    (world rank k : ℕ) → rank < world → (next_rank world rank + k) % world ≡ (rank + suc k) % world
next_rank-mod world rank k h = elim (ℕ_discrete (rank + 1) world) [
  | yes last ↦
      let t : ((rank + 1) == world) ≡ true = ground arith in
      let e : rank + suc k ≡ world + k = omega arith in rw (t, e, zero-add, add-mod_left) refl
  | no inside ↦
      let f : ((rank + 1) == world) ≡ false = ground arith in
      rw f (ap (λ t. t % world) (omega arith))
]

-- The rank that `addDataBlocksTo` records.
get_elem?-new_blocks :
    (block_size world inode i rank left k : ℕ)
    → rank < world
    → k < left
    → get_elem? (new_blocks block_size world inode i rank left) k
      ≡ some (numbered_block block_size inode ((rank + k) % world) (i + k))
unfolding new_blocks
get_elem?-new_blocks b world inode i rank zero k h lt = absurd (omega arith)
get_elem?-new_blocks b world inode i rank (suc left) zero h lt =
    rw (add-zero, add-zero, mod-eq_of_lt h) refl
get_elem?-new_blocks b world inode i rank (suc left) (suc k) h lt =
    get_elem?-new_blocks b world inode (i + 1) (next_rank world rank) left k (ground arith)
      (omega arith)
    ∙ ap some (ap₂ (numbered_block b inode) (next_rank-mod world rank k h) (omega arith))

first_block_mono : (n world r s : ℕ) → r ≤ s → first_block n world r ≤ first_block n world s
first_block_mono n world r s h = omega (arith, mul-le-mul_right (n / world) h)

kept_before : (n world i r s : ℕ) → IsKeptBy n world i r → IsKeptBy n world i s → r < s → ⊥
kept_before n world i r s a b h =
    omega (arith, first_block-suc n world r, first_block_mono n world (r + 1) s (omega arith))

same_keeper : (n world i r s : ℕ) → IsKeptBy n world i r → IsKeptBy n world i s → r ≡ s
same_keeper n world i r s a b =
    omega (arith, kept_before n world i r s a b, kept_before n world i s r b a)

-- With at least one process, every block of a file is kept by exactly one of them.
keeper_unique :
    (n world i : ℕ)
    → 0 < world
    → i < n
    → (r : ℕ) × (r < world) × IsKeptBy n world i r × ((s : ℕ) → IsKeptBy n world i s → s ≡ r)
keeper_unique n world i h lt =
    let (r, below, kept) = keeper n world i world (omega (arith, first_block-world n world h)) in
    (r, below, kept, λ s other. same_keeper n world i s r other kept)

-- With at least one process, block i of a new list has the number i, and the rank i modulo the
-- number of processes.
get_elem?-add_data_blocks_to :
    (block_size world inode nblocks i : ℕ)
    → i < nblocks
    → 0 < world
    → get_elem? (add_data_blocks_to block_size world [] nblocks inode) i
      ≡ some (numbered_block block_size inode (i % world) i)
unfolding add_data_blocks_to
get_elem?-add_data_blocks_to b world inode nblocks i h w =
    get_elem?-new_blocks b world inode 0 0 nblocks i w h ∙ rw zero-add refl

two_le_div : (n world : ℕ) → 0 < world → 2 * world ≤ n → 2 ≤ n / world
two_le_div n world h enough = grind arith

two_each : (n world : ℕ) → 2 * world ≤ n → 1 < world → 2 ≤ effective_blocks n world 0
unfolding effective_blocks
two_each n world enough many = ground (arith, two_le_div n world)

-- With two blocks or more for each process, the recorded rank of the second block of a new file is
-- 1, although process 0 keeps it.
pub rank-ne-keeper :
    (block_size world inode n : ℕ)
    → 1 < world
    → 2 * world ≤ n
    → (b : DataBlock) × (get_elem? (add_data_blocks_to block_size world [] n inode) 1 ≡ some b)
      × (b.process_rank ≡ 1)
      × IsKeptBy n world 1 0
rank-ne-keeper b world inode n many enough = (
  numbered_block b inode (1 % world) 1,
  get_elem?-add_data_blocks_to b world inode n 1 (omega arith) (omega arith),
  mod-eq_of_lt many,
  omega (arith, two_each n world enough many, first_block-zero n world),
)
