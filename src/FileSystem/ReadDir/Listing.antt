-- ===== src/FileSystem/ReadDir/Listing.antt =====
-- A whole listing of a directory: FUSE sends readdir requests, each with the offset of the entry
-- that came last, until a reply is empty.
use dagon_fs.Prelude.{
  ℕ, zero, suc, ◌+◌, ◌≤◌, ◌<◌, ◌≡◌, ◌∙◌, refl, sym, ap, subst, Option, some, none, List, [], ◌∷◌,
  ◌++◌, length, take, drop, arith, ◌>>=◌, length-drop, List-cases, inl, inr, ◌-◌,
}
use dagon_fs.Map.{Map}
use dagon_fs.Map.Keys.{Name}
use dagon_fs.Nodes.{}
use dagon_fs.FileSystem.{Fs, Reply, entries, reply, children_at}
use dagon_fs.FileSystem.ReadDir.{fuse_read_dir, dot, dot_dot, buf_size_of}
use dagon_fs.FileSystem.ReadDir.Repeats.{Repeats, no_more, Repeats-chunk, Repeats-front}
use dagon_fs.FileSystem.ReadDir.Steps.{
  IsRoomy-drop, fuse_read_dir_end, fuse_read_dir_next, fuse_read_dir_first, first_size,
}
use dagon_fs.FileSystem.ReadDir.Chunk.{IsRoomy}

-- The entries of the newest reply.
abbrev pub newest : List Reply → Option (List (Name × ℕ))
newest (entries sent ∷ replies) = some sent
newest replies = none

-- What at most `fuel` requests list, and `none` if the last of them was not answered by an empty
-- reply.
unfoldable pub list_directory :
    (Name → ℕ) → (ino size fuel : ℕ) → Option ℕ → Fs → Option (List (Name × ℕ))
unfolding fuse_read_dir
list_directory entry_size ino size zero off s = none
list_directory entry_size ino size (suc fuel) off s =
    fuse_read_dir entry_size ino size off s >>= λ (off', s'). newest s'.replies >>= λ sent.
    elim sent [
      | [] ↦ some []
      | entry ∷ more ↦ list_directory entry_size ino size fuel off' s' >>= λ later.
          some ((entry ∷ more) ++ later)
    ]

list_directory-step :
    (entry_size : Name → ℕ) (ino size fuel : ℕ) (off : Option ℕ) (at : ℕ) (e : Name × ℕ)
    (more ys : List (Name × ℕ)) (s : Fs)
    → fuse_read_dir entry_size ino size off s ≡ some (some at, reply (entries (e ∷ more)) s)
    → list_directory entry_size ino size fuel (some at) (reply (entries (e ∷ more)) s) ≡ some ys
    → list_directory entry_size ino size (suc fuel) off s ≡ some ((e ∷ more) ++ ys)
unfolding list_directory
list_directory-step entry_size ino size fuel off at e more ys s answered later =
    rw (answered, ◌>>=◌, later) refl

list_directory-rest :
    (entry_size : Name → ℕ) (ino size fuel at : ℕ) (children : Map Name ℕ) (s : Fs)
    → children_at ino s ≡ some children
    → IsRoomy entry_size (buf_size_of size) children
    → at ≤ length children
    → length children < at + fuel
    → (ys : List (Name × ℕ)) × (list_directory entry_size ino size fuel (some at) s ≡ some ys)
      × Repeats (drop at children) ys
unfolding list_directory
list_directory-rest entry_size ino size zero at children s here roomy inside enough =
    absurd (omega arith)
list_directory-rest entry_size ino size (suc fuel) at children s here roomy inside enough =
    elim (List-cases (drop at children)) [
      | inl none_left ↦ (
        [],
        rw
            (
              fuse_read_dir_end entry_size ino size children s here at
                  (ground (arith, ap length none_left, length-drop at children)),
              ◌>>=◌,
            )
            refl,
        rw none_left no_more,
      )
      | inr (e, rest, left) ↦
          let (k, at', answered, few, below, above, ahead) =
            fuse_read_dir_next entry_size ino size children s here at e rest left (
              subst (IsRoomy entry_size (buf_size_of size)) left
                (IsRoomy-drop entry_size (buf_size_of size) at children roomy)) in
          let s' = reply (entries (e ∷ take k rest)) s in
          let size_left : length children - at ≡ suc (length rest) =
            sym (length-drop at children) ∙ ap length left in
          let (ys, listed_later, later) =
            list_directory-rest entry_size ino size fuel at' children s' here roomy (omega arith)
              (omega arith) in
          (
            e ∷ take k rest ++ ys,
            list_directory-step entry_size ino size fuel (some at) at' e (take k rest) ys s answered
                listed_later,
            Repeats-chunk at at' k children e rest ys left few below above (omega arith) later,
          )
    ]

-- The listing of a directory ends, after at most two requests more than it has children, and has
-- `.`, `..` and then every child in its order, where a child may come several times in a row; the
-- buffer of a request has to hold `.` and `..` with the first child, and each two neighbours of
-- the children.
pub list_directory-Repeats :
    (entry_size : Name → ℕ) (ino size : ℕ) (children : Map Name ℕ) (s : Fs)
    → children_at ino s ≡ some children
    → IsRoomy entry_size (buf_size_of size) children
    → entry_size dot + entry_size dot_dot + first_size entry_size children ≤ buf_size_of size
    → (ys : List (Name × ℕ)) × (list_directory entry_size ino size
          (suc (suc (length children)))
          none
          s
        ≡ some ((dot, ino) ∷ (dot_dot, ino) ∷ ys))
      × Repeats children ys
list_directory-Repeats entry_size ino size children s here roomy fits =
    let (k, at, answered, few, below, above) =
      fuse_read_dir_first entry_size ino size children s here fits in
    let s' = reply (entries ((dot, ino) ∷ (dot_dot, ino) ∷ take k children)) s in
    let (ys, listed_later, later) =
      list_directory-rest entry_size ino size (suc (length children)) at children s' here roomy
        (omega arith) (omega arith) in
    (
      take k children ++ ys,
      list_directory-step entry_size ino size (suc (length children)) none at (dot, ino)
          ((dot_dot, ino) ∷ take k children) ys s answered listed_later,
      Repeats-front k at children ys few below above later,
    )
