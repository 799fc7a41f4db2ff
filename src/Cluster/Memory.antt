-- ===== src/Cluster/Memory.antt =====
-- The memory of one process: what is stored block by block is loaded again, and what a process
-- holds is never overwritten.
use dagon_fs.Prelude.{
  ℕ, zero, suc, ◌+◌, ◌*◌, ◌≡◌, refl, ap, sym, ◌∙◌, none, some, List, [], ◌∷◌, ◌++◌, arith, length,
  take, drop, get_elem?, get_elem?-append_left, get_elem?-append_last, get_elem?-lt, take_add,
  drop_add, take_zero_of_eq, Option-cases, inl, inr,
}
use dagon_fs.Cluster.{Byte, Heap, store_blocks, load_blocks}
use dagon_fs.Blocks.{Address}

-- Every block of `heap` is still at its place in `later`.
abbrev pub Extends : Heap → Heap → Type 0
Extends heap later =
    (a : ℕ) (v : List Byte) → get_elem? heap a ≡ some v → get_elem? later a ≡ some v

Extends-append : (heap : Heap) (v : List Byte) → Extends heap (heap ++ v ∷ [])
Extends-append heap v a w e = get_elem?-append_left heap (v ∷ []) a (get_elem?-lt heap a w e) ∙ e

load_blocks-cons :
    (heap : Heap) (a : ℕ) (l : List Address) (b r : List Byte)
    → get_elem? heap a ≡ some b
    → load_blocks heap l ≡ some r
    → load_blocks heap (some a ∷ l) ≡ some (b ++ r)
unfolding load_blocks
load_blocks-cons heap a l b r e f = ground arith

-- A load that succeeds has loaded its first block and the rest.
load_blocks-cons_some :
    (heap : Heap) (a : ℕ) (l : List Address) (x : List Byte)
    → load_blocks heap (some a ∷ l) ≡ some x
    → (b : List Byte) × (r : List Byte) × (get_elem? heap a ≡ some b)
      × (load_blocks heap l ≡ some r)
      × (x ≡ b ++ r)
unfolding load_blocks
load_blocks-cons_some heap a l x e = elim (Option-cases (get_elem? heap a)) [
  | inl missing ↦ ground arith
  | inr (b, found) ↦ elim (Option-cases (load_blocks heap l)) [
    | inl missing ↦ ground arith
    | inr (r, rest) ↦ (b, r, found, rest, ground arith)
  ]
]

pub load_blocks-Extends :
    (heap later : Heap)
    → Extends heap later
    → (l : List Address) (x : List Byte) → load_blocks heap l ≡ some x
    → load_blocks later l ≡ some x
unfolding load_blocks
load_blocks-Extends heap later ext [] x e = e
load_blocks-Extends heap later ext (none ∷ l) x e = cc
load_blocks-Extends heap later ext (some a ∷ l) x e =
    let (b, r, found, rest, whole) = load_blocks-cons_some heap a l x e in
    rw whole
      (load_blocks-cons later a l b r (ext a b found) (load_blocks-Extends heap later ext l r rest))

next_block :
    (b i left : ℕ) (buf : List Byte)
    → take (suc left * b) (drop (i * b) buf)
      ≡ take b (drop (i * b) buf) ++ take (left * b) (drop ((i + 1) * b) buf)
next_block b i left buf =
    let e : suc left * b ≡ b + left * b = omega arith in
    let f : (i + 1) * b ≡ i * b + b = omega arith in
    rw (e, f, take_add b (left * b) (drop (i * b) buf), drop_add (i * b) b buf) refl

module _ (block_size : ℕ) where
  pub length-store_blocks :
      (i left : ℕ) (buf : List Byte) (heap : Heap)
      → length (store_blocks block_size i left buf heap).0 ≡ left
  unfolding store_blocks
  length-store_blocks i zero buf heap = refl
  length-store_blocks i (suc left) buf heap = ap suc (length-store_blocks (i + 1) left buf _)

  pub store_blocks-Extends :
      (i left : ℕ) (buf : List Byte) (heap : Heap)
      → Extends heap (store_blocks block_size i left buf heap).1
  unfolding store_blocks
  store_blocks-Extends i zero buf heap a v e = e
  store_blocks-Extends i (suc left) buf heap a v e =
      store_blocks-Extends (i + 1) left buf _ a v (Extends-append heap _ a v e)

  -- The blocks stored from a buffer, from block i on, load as the bytes of the buffer at their
  -- place.
  pub load-store_blocks :
      (i left : ℕ) (buf : List Byte) (heap : Heap)
      → let stored = store_blocks block_size i left buf heap in
        load_blocks stored.1 stored.0 ≡ some (take (left * block_size) (drop (i * block_size) buf))
  unfolding store_blocks load_blocks
  load-store_blocks i zero buf heap = ap some (sym (take_zero_of_eq _ _ (omega arith)))
  load-store_blocks i (suc left) buf heap =
      let here = take block_size (drop (i * block_size) buf) in
      load_blocks-cons _ (length heap) _ here _
        (store_blocks-Extends (i + 1) left buf _ (length heap) here
          (get_elem?-append_last heap here))
        (load-store_blocks (i + 1) left buf (heap ++ here ∷ []))
      ∙ ap some (sym (next_block block_size i left buf))
