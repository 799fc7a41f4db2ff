-- ===== src/Cluster/Transfer.antt =====
-- What the collective calls do with the counts and displacements of a division: a scatter hands
-- process `r` the objects of its blocks, and a gather lays the parts end to end.
use native.Mathlib.Nat.{mul_assoc, mul-le-mul_right, mul-div_cancel, zero-add}
use dagon_fs.Prelude.{
  ℕ, ◌+◌, ◌*◌, ◌/◌, ◌<◌, ◌≤◌, ◌≡◌, refl, ap, ap₂, sym, ◌∙◌, some, List, [], ◌∷◌, map, flatten,
  arith, length, take, drop, sum, sum-map-mul, get_elem?,
}
use dagon_fs.Cluster.{effective_blocks, part_counts, displacements}
use dagon_fs.Cluster.Collectives.{Mpi, IsMpi, running}
use dagon_fs.Cluster.Partition.{
  shares, first_block, first_block-suc, first_block-world, sum-shares_all, part_counts-shares,
  displacements-running, get_elem?-shares, get_elem?-running,
}

pub first_block-zero : (n world : ℕ) → first_block n world 0 ≡ 0
first_block-zero n world = omega arith

in_buffer :
    (f e n k size len : ℕ) → f + e ≤ n → n * k ≤ len → f * (k * size) + e * (k * size) ≤ len * size
in_buffer f e n k size len h hb =
    omega (arith, mul-le-mul_right (k * size) h, mul-le-mul_right size hb)

scale_lengths :
    {A : Type 0} (k size : ℕ) (parts : List (List A)) (cs : List ℕ)
    → map length parts ≡ map (λ t. t * k) cs
    → map (λ t. t * (k * size)) cs ≡ map (λ p. length p * size) parts
scale_lengths k size [] [] e = refl
scale_lengths k size [] (c ∷ cs) e = cc
scale_lengths k size (p ∷ parts) [] e = cc
scale_lengths k size (p ∷ parts) (c ∷ cs) e =
    let head : length p ≡ c * k = cc in
    ap₂ ◌∷◌ (rw (head, mul_assoc) refl) (scale_lengths k size parts cs (cc))

-- The blocks of a process end before the file does.
pub first_block-le :
    (n world r : ℕ) → r < world → first_block n world r + effective_blocks n world r ≤ n
first_block-le n world r h = omega (
  arith,
  first_block-suc n world r,
  first_block-world n world (omega arith),
  mul-le-mul_right {m = r + 1} {n = world} (n / world) (omega arith),
)

-- The counts and displacements of a division, where no sum of them overflows.
module _ (n world unit : ℕ) (some_process : 0 < world) (fits : n * unit < 4294967296) where
  abbrev layout_counts : List ℕ
  layout_counts = map (λ t. t * unit) (shares n world 0 world)

  sum-layout_counts : sum layout_counts ≡ n * unit
  sum-layout_counts =
      sum-map-mul unit (shares n world 0 world)
      ∙ ap (λ t. t * unit) (sum-shares_all n world some_process)

  counts-layout : part_counts n world unit 0 world ≡ layout_counts
  counts-layout =
      part_counts-shares n world unit 0 world (rw (sum-shares_all n world some_process) fits)

  displs-layout : displacements 0 (part_counts n world unit 0 world) ≡ running 0 layout_counts
  displs-layout =
      rw counts-layout (displacements-running 0 layout_counts (omega (arith, sum-layout_counts)))

  count-of :
      (r : ℕ)
      → r < world
      → get_elem? (part_counts n world unit 0 world) r ≡ some (effective_blocks n world r * unit)
  count-of r h = rw counts-layout (get_elem?-shares n world unit 0 world r h ∙ rw zero-add refl)

  displ-of :
      (r : ℕ)
      → r < world
      → get_elem? (displacements 0 (part_counts n world unit 0 world)) r
        ≡ some (first_block n world r * unit)
  displ-of r h = rw displs-layout (
      get_elem?-running n world unit 0 world r 0 h (rw (first_block-zero n world) (omega arith))
      ∙ rw zero-add refl)

module _ (mpi : Mpi) (laws : IsMpi mpi) {A : Type 0} (size k n world : ℕ) where
  pub scatterv-share :
      (buffer : List A) (r : ℕ)
      → 0 < size
      → r < world
      → n * (k * size) < 4294967296
      → n * k ≤ length buffer
      → let counts = part_counts n world (k * size) 0 world in
        mpi.scatterv A size buffer counts (displacements 0 counts) r
        ≡ take (effective_blocks n world r * k) (drop (first_block n world r * k) buffer)
  scatterv-share buffer r hs hr hn hb =
      let some_process : 0 < world = omega arith in
      let bound : first_block n world r * (k * size) + effective_blocks n world r * (k * size)
          ≤ length buffer * size =
        in_buffer (first_block n world r) (effective_blocks n world r) n k size (length buffer)
          (first_block-le n world r hr) hb in
      let cut : (t : ℕ) → t * (k * size) / size ≡ t * k =
        λ t. rw (← mul_assoc) (mul-div_cancel (t * k) hs) in
      laws.scatterv_lem A size buffer _ _ r _ _ hs
        (count-of n world (k * size) some_process hn r hr)
        (displ-of n world (k * size) some_process hn r hr) bound
      ∙ rw (cut (effective_blocks n world r), cut (first_block n world r)) refl

  pub gatherv-shares :
      (parts : List (List A))
      → 0 < size
      → 0 < world
      → n * (k * size) < 4294967296
      → map length parts ≡ map (λ t. t * k) (shares n world 0 world)
      → let counts = part_counts n world (k * size) 0 world in
        mpi.gatherv A size parts counts (displacements 0 counts) ≡ flatten parts
  gatherv-shares parts hs hw hn e =
      laws.gatherv_lem A size parts _ _ hs
        (counts-layout n world (k * size) hw hn ∙ scale_lengths k size parts _ e)
        (displs-layout n world (k * size) hw hn
          ∙ ap (running 0) (sym (counts-layout n world (k * size) hw hn)))
