-- ===== src/Cluster/Collectives.antt =====
-- The collective calls of MPI that the program makes, as a parameter: `MPI_Scatterv`,
-- `MPI_Gatherv` and `MPI_Allgatherv` on objects of `size` bytes each, with counts and displacements in bytes.
use dagon_fs.Prelude.{
  ℕ, ◌+◌, ◌*◌, ◌/◌, ◌<◌, ◌≤◌, ◌≡◌, some, List, [], ◌∷◌, map, flatten, length, get_elem?, take, drop,
}

pub record Mpi : Type 1 where
  -- what process `rank` receives of the root's buffer
  pub scatterv :
      (A : Type 0) (size : ℕ) (buffer : List A) (counts displs : List ℕ) (rank : ℕ) → List A
  -- what the root receives of the buffers of all processes
  pub gatherv : (A : Type 0) (size : ℕ) (parts : List (List A)) (counts displs : List ℕ) → List A
  -- what every process receives of the buffers of all processes
  pub allgatherv : (A : Type 0) (size : ℕ) (parts : List (List A)) (counts displs : List ℕ) → List A

-- Each displacement is the sum of the counts before it.
abbrev pub running : ℕ → List ℕ → List ℕ
running offset [] = []
running offset (c ∷ counts) = offset ∷ running (offset + c) counts

-- What the MPI standard says of the calls.
pub record IsMpi (mpi : Mpi) : Type 1 where
  -- a process receives its count of bytes from its displacement on
  pub scatterv_lem :
      (A : Type 0) (size : ℕ) (buffer : List A) (counts displs : List ℕ) (rank c d : ℕ)
      → 0 < size
      → get_elem? counts rank ≡ some c
      → get_elem? displs rank ≡ some d
      → d + c ≤ length buffer * size
      → mpi.scatterv A size buffer counts displs rank ≡ take (c / size) (drop (d / size) buffer)
  -- parts of the announced counts, displaced by the sums of these, lie one behind the other
  pub gatherv_lem :
      (A : Type 0) (size : ℕ) (parts : List (List A)) (counts displs : List ℕ)
      → 0 < size
      → counts ≡ map (λ p. length p * size) parts
      → displs ≡ running 0 counts
      → mpi.gatherv A size parts counts displs ≡ flatten parts
  -- all processes receive what the root of a gather would
  pub allgatherv_lem :
      (A : Type 0) (size : ℕ) (parts : List (List A)) (counts displs : List ℕ)
      → mpi.allgatherv A size parts counts displs ≡ mpi.gatherv A size parts counts displs
