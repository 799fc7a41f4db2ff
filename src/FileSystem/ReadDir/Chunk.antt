-- ===== src/FileSystem/ReadDir/Chunk.antt =====
-- What one readdir request adds to its buffer.
use dagon_fs.Prelude.{
  ℕ, suc, ◌+◌, ◌≤◌, ◌<◌, ◌≡◌, refl, some, [], ◌∷◌, length, take, arith, Bool-cases, ltb, leb, false,
  inl, inr, ◌>>=◌,
}
use dagon_fs.Map.{Map}
use dagon_fs.Map.Keys.{Name}
use dagon_fs.FileSystem.ReadDir.{add_children, also, k_read_dir_entries_per_response}

-- The entries of which each two neighbours fit into a buffer together, and the last one alone.
pub data IsRoomy (entry_size : Name → ℕ) (buf_size : ℕ) : Map Name ℕ → Type 0 where
  no_entry : IsRoomy entry_size buf_size []
  last_entry : (a : Name × ℕ) → entry_size a.0 ≤ buf_size → IsRoomy entry_size buf_size (a ∷ [])
  two_entries :
      (a b : Name × ℕ) (rest : Map Name ℕ)
      → entry_size a.0 + entry_size b.0 ≤ buf_size
      → IsRoomy entry_size buf_size (b ∷ rest)
      → IsRoomy entry_size buf_size (a ∷ b ∷ rest)

module _ (entry_size : Name → ℕ) (buf_size : ℕ) where
  -- The loop added the first `k` children, and it stands behind them or one back.
  abbrev pub Sent : (at bytes added : ℕ) → Map Name ℕ → (k at' : ℕ) → Type 0
  Sent at bytes added children k at' =
      (add_children entry_size buf_size at bytes added children ≡ some (take k children, at'))
      × (k ≤ length children)
      × (at' ≤ at + k)
      × (at + k ≤ suc at')

  -- An entry that fits is added.
  pub add_children-fits :
      (at bytes added : ℕ) (child : Name × ℕ) (children : Map Name ℕ)
      → added < k_read_dir_entries_per_response
      → bytes + entry_size child.0 ≤ buf_size
      → add_children entry_size buf_size at bytes added (child ∷ children) ≡ (
          add_children entry_size buf_size
            (suc at)
            (bytes + entry_size child.0)
            (suc added)
            children
          >>= also child)
  unfolding add_children
  add_children-fits at bytes added child children room fits =
      let more : leb k_read_dir_entries_per_response added ≡ false = ground arith in
      let fit : ltb buf_size (bytes + entry_size child.0) ≡ false = ground arith in
      rw (more, fit) refl

  Sent-also :
      (at bytes added : ℕ) (child : Name × ℕ) (children : Map Name ℕ) (k at' : ℕ)
      → added < k_read_dir_entries_per_response
      → bytes + entry_size child.0 ≤ buf_size
      → Sent (suc at) (bytes + entry_size child.0) (suc added) children k at'
      → Sent at bytes added (child ∷ children) (suc k) at'
  Sent-also at bytes added child children k at' room fits (e, few, below, above) = (
    rw (add_children-fits at bytes added child children room fits, e) refl,
    omega arith,
    omega arith,
    omega arith,
  )

  -- Behind a child that was sent, the loop is defined.
  add_children-Sent :
      (at bytes added : ℕ) (children : Map Name ℕ)
      → (k at' : ℕ) × Sent (suc at) bytes added children k at'
  unfolding add_children
  add_children-Sent at bytes added [] = (0, suc at, (refl, omega arith, omega arith, omega arith))
  add_children-Sent at bytes added (child ∷ children) =
      elim (Bool-cases (leb k_read_dir_entries_per_response added)) [
        | inl full ↦ (0, suc at, (rw full refl, omega arith, omega arith, omega arith))
        | inr room ↦ elim (Bool-cases (ltb buf_size (bytes + entry_size child.0))) [
          | inl over ↦ (0, at, (rw (room, over) refl, omega arith, omega arith, omega arith))
          | inr fits ↦
              let (k, at', sent) =
                add_children-Sent (suc at) (bytes + entry_size child.0) (suc added) children in
              (
                suc k,
                at',
                Sent-also (suc at) bytes added child children k at' (ground arith) (ground arith)
                    sent,
              )
        ]
      ]

  -- If the next entry fits, it is sent.
  pub Sent-one :
      (at bytes added : ℕ) (child : Name × ℕ) (children : Map Name ℕ)
      → added < k_read_dir_entries_per_response
      → bytes + entry_size child.0 ≤ buf_size
      → (k at' : ℕ) × Sent at bytes added (child ∷ children) (suc k) at'
  Sent-one at bytes added child children room fits =
      let (k, at', sent) = add_children-Sent at (bytes + entry_size child.0) (suc added) children in
      (k, at', Sent-also at bytes added child children k at' room fits sent)

  -- If two neighbours fit into an empty buffer, the iterator advances.
  pub Sent-two :
      (at : ℕ) (child : Name × ℕ) (children : Map Name ℕ)
      → IsRoomy entry_size buf_size (child ∷ children)
      → (k at' : ℕ) × Sent at 0 0 (child ∷ children) (suc k) at' × (suc at ≤ at')
  unfolding add_children
  Sent-two at child [] (last_entry c fits) = (
    0,
    suc at,
    Sent-also at 0 0 child [] 0 (suc at) (omega arith) (omega arith)
        (refl, omega arith, omega arith, omega arith),
    omega arith,
  )
  Sent-two at child (b ∷ rest) (two_entries c d cs fits more) =
      let (k, at', sent) =
        Sent-one (suc at) (0 + entry_size child.0) 1 b rest (omega arith) (omega arith) in
      let both = Sent-also at 0 0 child (b ∷ rest) (suc k) at' (omega arith) (omega arith) sent in
      (suc k, at', both, omega (arith, both.3))
