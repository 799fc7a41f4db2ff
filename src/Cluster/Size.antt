-- ===== src/Cluster/Size.antt =====
-- The number of blocks of a file.
use native.Mathlib.Nat.{div-add-mod', mod-lt}
use dagon_fs.Prelude.{
  ℕ, ◌+◌, ◌*◌, ◌/◌, ◌%◌, ◌≤◌, ◌<◌, ◌≡◌, refl, ap, arith, true, lt→ltb, if◌then◌else◌, bit, ltb,
  Bool-cases, inl, inr,
}
use dagon_fs.Cluster.{number_of_blocks, blocks_for_request, fits_int}

-- Rounding up, before the result is cut to 32 bits.
abbrev pub ceil_div : ℕ → ℕ → ℕ
ceil_div size b = size / b + bit (ltb 0 (size % b))

ceil_div_bounds :
    (size b : ℕ) → 0 < b → (size ≤ ceil_div size b * b) × (ceil_div size b * b < size + b)
ceil_div_bounds size b h = ground (arith, div-add-mod' size b, mod-lt size h)

le_mul_of_pos : (n b : ℕ) → 0 < b → n ≤ n * b
le_mul_of_pos n b h = grind arith

module _ (block_size file_size : ℕ) (some_bytes : 0 < block_size)
    (small : file_size + block_size ≤ 2147483648) where
  pub number_of_blocks-ceil_div :
      number_of_blocks block_size file_size ≡ ceil_div file_size block_size
  unfolding number_of_blocks
  number_of_blocks-ceil_div = omega (
    arith,
    ceil_div_bounds file_size block_size some_bytes,
    le_mul_of_pos (ceil_div file_size block_size) block_size some_bytes,
  )

  -- With blocks of at least one byte, and a file that fits with one block more in 2 GiB, the
  -- blocks hold the file, and no block is spare.
  pub number_of_blocks_bounds :
      (file_size ≤ number_of_blocks block_size file_size * block_size)
      × (number_of_blocks block_size file_size * block_size < file_size + block_size)
  number_of_blocks_bounds =
      rw number_of_blocks-ceil_div (ceil_div_bounds file_size block_size some_bytes)

  -- With blocks of at least one byte, and a file that fits with one block more in 2 GiB, a read
  -- of the whole file or of more asks for the blocks that a write has made.
  pub blocks_for_request-whole :
      (req_size : ℕ)
      → file_size ≤ req_size
      → blocks_for_request block_size file_size req_size ≡ number_of_blocks block_size file_size
  unfolding blocks_for_request
  blocks_for_request-whole req_size h = elim (Bool-cases (ltb file_size req_size)) [
    | inl more ↦ rw (number_of_blocks-ceil_div, more) refl
    | inr all ↦
        let e : req_size ≡ file_size = ground arith in
        rw (number_of_blocks-ceil_div, all) (ap (λ t. ceil_div t block_size) e)
  ]

times_8 : (n b : ℕ) → 8 ≤ b → n * 8 ≤ n * b
times_8 n b h = grind arith

-- Blocks of at least a pointer that fit into 2 GiB have offsets in the range of `int`.
pub fits_int_lem :
    (n block_size : ℕ) → 8 ≤ block_size → n * block_size < 2147483648 → fits_int n block_size ≡ true
fits_int_lem n block_size wide small =
    let pointers : n * 8 ≤ n * block_size = times_8 n block_size wide in
    let bytes_fit : ltb (n * block_size) 2147483648 ≡ true = lt→ltb _ _ small in
    rw (bytes_fit, if◌then◌else◌) (lt→ltb _ _ (omega arith))
