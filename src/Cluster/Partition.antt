-- ===== src/Cluster/Partition.antt =====
-- How the blocks of a file are divided among the processes, and the counts and displacements that
-- describe the division to MPI.
use native.Mathlib.Nat.{div-add-mod, mod-lt, add-zero, zero-add}
use dagon_fs.Prelude.{
  ℕ, zero, suc, ◌+◌, ◌*◌, ◌/◌, ◌%◌, ◌<◌, min, ◌≡◌, refl, ap, ap₂, some, List, [], ◌∷◌, map, arith,
  get_elem?, sum,
}
use dagon_fs.Cluster.{effective_blocks, part_counts, displacements}
use dagon_fs.Cluster.Collectives.{running}

-- The shares of `left` processes from process `i` on.
abbrev pub shares : (n world i left : ℕ) → List ℕ
shares n world i zero = []
shares n world i (suc left) = effective_blocks n world i ∷ shares n world (i + 1) left

-- The first block of process `r`.
abbrev pub first_block : (n world r : ℕ) → ℕ
first_block n world r = r * (n / world) + min r (n % world)

pub first_block-suc :
    (n world r : ℕ)
    → first_block n world (r + 1) ≡ first_block n world r + effective_blocks n world r
unfolding effective_blocks
first_block-suc n world r = ground arith

shift : (i k : ℕ) → i + 1 + k ≡ i + suc k
shift i k = omega arith

sum-shares :
    (n world i left : ℕ)
    → first_block n world i + sum (shares n world i left) ≡ first_block n world (i + left)
sum-shares n world i zero = omega (arith, ap (first_block n world) (add-zero i))
sum-shares n world i (suc left) = omega (
  arith,
  first_block-suc n world i,
  sum-shares n world (i + 1) left,
  ap (first_block n world) (shift i left),
)

-- All the blocks are given out.
pub first_block-world : (n world : ℕ) → 0 < world → first_block n world world ≡ n
first_block-world n world h = omega (arith, div-add-mod n world, mod-lt n h)

pub sum-shares_all : (n world : ℕ) → 0 < world → sum (shares n world 0 world) ≡ n
sum-shares_all n world h = omega (
  arith,
  sum-shares n world 0 world,
  first_block-world n world h,
  ap (first_block n world) (zero-add world),
)

-- Without overflow the counts are the shares, times the size of an object.
pub part_counts-shares :
    (n world size i left : ℕ)
    → sum (shares n world i left) * size < 4294967296
    → part_counts n world size i left ≡ map (λ k. k * size) (shares n world i left)
unfolding part_counts
part_counts-shares n world size i zero h = refl
part_counts-shares n world size i (suc left) h =
    ap₂ ◌∷◌ (omega arith) (part_counts-shares n world size (i + 1) left (omega arith))

pub displacements-running :
    (offset : ℕ) (counts : List ℕ)
    → offset + sum counts < 4294967296
    → displacements offset counts ≡ running offset counts
unfolding displacements
displacements-running offset [] h = refl
displacements-running offset (c ∷ counts) h =
    let e : (offset + c) % 4294967296 ≡ offset + c = omega arith in
    rw (e, displacements-running (offset + c) counts (omega arith)) refl

pub get_elem?-shares :
    (n world size i left k : ℕ)
    → k < left
    → get_elem? (map (λ t. t * size) (shares n world i left)) k
      ≡ some (effective_blocks n world (i + k) * size)
get_elem?-shares n world size i zero k h = absurd (omega arith)
get_elem?-shares n world size i (suc left) zero h = rw add-zero refl
get_elem?-shares n world size i (suc left) (suc k) h =
    rw (← shift i k) (get_elem?-shares n world size (i + 1) left k (omega arith))

pub get_elem?-running :
    (n world size i left k offset : ℕ)
    → k < left
    → offset ≡ first_block n world i * size
    → get_elem? (running offset (map (λ t. t * size) (shares n world i left))) k
      ≡ some (first_block n world (i + k) * size)
get_elem?-running n world size i zero k offset h e = absurd (omega arith)
get_elem?-running n world size i (suc left) zero offset h e = rw (add-zero, e) refl
get_elem?-running n world size i (suc left) (suc k) offset h e = rw (← shift i k) (
    get_elem?-running n world size (i + 1) left k (offset + effective_blocks n world i * size)
      (omega arith) (rw (e, first_block-suc) (grind arith)))
