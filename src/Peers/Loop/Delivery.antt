-- ===== src/Peers/Loop/Delivery.antt =====
-- What a process receives of a request that another one announces.
use dagon_fs.Prelude.{
  ℕ, zero, suc, ◌+◌, ◌≤◌, ◌<◌, ◌≡◌, refl, ap, Bool, true, false, List, [], ◌∷◌, arith, ◌==◌,
  if◌then◌else◌, Bool-cases, inl, inr, ◌++◌, ◌∙◌, append-nil, ℕ_discrete,
}
use dagon_fs.Peers.{RequestType, Packet, request, send_to_all}

-- The packets for a process.
abbrev pub packets_for : ℕ → List (ℕ × Packet) → List Packet
packets_for i [] = []
packets_for i ((destination, packet) ∷ sent) =
    let rest = packets_for i sent in if destination == i then packet ∷ rest else rest

abbrev pub expected : RequestType → Packet → (source_rank i : ℕ) → List Packet
expected type payload source_rank i = request type ∷ (if i == source_rank then [] else payload ∷ [])

packets_for_below :
    (type : RequestType) (payload : Packet) (source_rank i j left : ℕ)
    → i < j
    → packets_for i (send_to_all type payload source_rank j left) ≡ []
unfolding send_to_all
packets_for_below type payload source_rank i j zero h = refl
packets_for_below type payload source_rank i j (suc left) h =
    ground (arith, packets_for_below type payload source_rank i (j + 1) left)

packets_for_step :
    (type : RequestType) (payload : Packet) (i j : ℕ) (b : Bool) (rest : List (ℕ × Packet))
    → packets_for i ((j, request type) ∷ (if b then rest else (j, payload) ∷ rest)) ≡ (
        if j == i
        then request type ∷ ((if b then [] else payload ∷ []) ++ packets_for i rest)
        else packets_for i rest)
packets_for_step type payload i j true rest = refl
packets_for_step type payload i j false rest = elim (Bool-cases (j == i)) [
  | inl same ↦ rw same refl
  | inr other ↦ rw other refl
]

packets_for_from :
    (type : RequestType) (payload : Packet) (source_rank i j left : ℕ)
    → j ≤ i
    → i < j + left
    → packets_for i (send_to_all type payload source_rank j left)
      ≡ expected type payload source_rank i
unfolding send_to_all
packets_for_from type payload source_rank i j zero h h' = absurd (omega arith)
packets_for_from type payload source_rank i j (suc left) h h' =
    let rest = send_to_all type payload source_rank (j + 1) left in
    packets_for_step type payload i j (j == source_rank) rest ∙ elim (ℕ_discrete j i) [
      | yes same ↦
          let here : (j == i) ≡ true = ground arith in
          rw
            (
              here,
              if◌then◌else◌,
              packets_for_below type payload source_rank i (j + 1) left (omega arith),
              append-nil,
            )
            (ap (λ n. request type ∷ (if n == source_rank then [] else payload ∷ [])) same)
      | no other ↦
          let below : (j == i) ≡ false = ground arith in
          rw (below, if◌then◌else◌)
            (packets_for_from type payload source_rank i (j + 1) left (omega arith) (omega arith))
    ]

-- Of a request with names that is announced, each process receives the type, and then each but
-- the sender receives the packet with the names.
pub packets_for-send_to_all :
    (type : RequestType) (payload : Packet) (source_rank i world : ℕ)
    → i < world
    → packets_for i (send_to_all type payload source_rank 0 world)
      ≡ request type ∷ (if i == source_rank then [] else payload ∷ [])
packets_for-send_to_all type payload source_rank i world h =
    packets_for_from type payload source_rank i 0 world (omega arith) (omega arith)
