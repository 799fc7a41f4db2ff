-- ===== src/FileSystem/Served/ReadDir.antt =====
-- The handler of readdir serves its request.
use dagon_fs.Prelude.{
  ℕ, ◌+◌, ◌≤◌, ◌≡◌, refl, ap, Option, none, some, arith, length, drop, leb, ◌>>=◌, Bool-cases, inl,
  inr, Option-cases, List-cases, length-drop, get_elem?-inside, subst,
}
use dagon_fs.Map.{Map}
use dagon_fs.Map.Keys.{Name}
use dagon_fs.Nodes.{number_of_inodes, as_directory}
use dagon_fs.Nodes.WellFormed.{IsWellFormed}
use dagon_fs.FileSystem.{Fs, Reply, err, enoent, enotdir, reply, children_at}
use dagon_fs.FileSystem.ReadDir.{fuse_read_dir, dot, dot_dot, buf_size_of}
use dagon_fs.FileSystem.ReadDir.Chunk.{IsRoomy}
use dagon_fs.FileSystem.ReadDir.Steps.{
  IsRoomy-drop, fuse_read_dir_end, fuse_read_dir_next, fuse_read_dir_first, first_size,
}
use dagon_fs.FileSystem.Served.{Served, answer-Served}

-- The state that a request of readdir leaves.
abbrev pub read_dir : (Name → ℕ) → (ino size : ℕ) → Option ℕ → Fs → Option Fs
read_dir entry_size ino size off s = fuse_read_dir entry_size ino size off s >>= λ (_, s'). some s'

-- What a request needs of a directory: a first one has room for `.`, `..` and the first child; a
-- later one has an iterator of the directory, and room for each two neighbours.
abbrev pub CanList : (Name → ℕ) → (size : ℕ) → Option ℕ → Map Name ℕ → Type 0
CanList entry_size size none children =
    entry_size dot + entry_size dot_dot + first_size entry_size children ≤ buf_size_of size
CanList entry_size size (some at) children =
    (at ≤ length children) × IsRoomy entry_size (buf_size_of size) children

module _ (s : Fs) (w : IsWellFormed s.nodes) (entry_size : Name → ℕ) (ino size : ℕ) where
  sends :
      (off off' : Option ℕ) (r : Reply)
      → fuse_read_dir entry_size ino size off s ≡ some (off', reply r s)
      → Served s (read_dir entry_size ino size off s)
  sends off off' r e = rw e (answer-Served s w r)

  listed-Served :
      (off : Option ℕ) (children : Map Name ℕ)
      → children_at ino s ≡ some children
      → CanList entry_size size off children
      → Served s (read_dir entry_size ino size off s)
  listed-Served none children here fits =
      let (k, at, done, _, _, _) = fuse_read_dir_first entry_size ino size children s here fits in
      sends none (some at) _ done
  listed-Served (some at) children here (inside, roomy) = elim (List-cases (drop at children)) [
    | inl none_left ↦
        let last : at ≡ length children =
          omega (arith, inside, ap length none_left, length-drop at children) in
        sends (some at) (some at) _ (fuse_read_dir_end entry_size ino size children s here at last)
    | inr (child, rest, more) ↦
        let left =
          subst (IsRoomy entry_size (buf_size_of size)) more
            (IsRoomy-drop entry_size (buf_size_of size) at children roomy) in
        let (k, at', done, _, _, _, _) =
          fuse_read_dir_next entry_size ino size children s here at child rest more left in
        sends (some at) (some at') _ done
  ]

  pub read_dir-Served :
      (off : Option ℕ)
      → ((children : Map Name ℕ)
          → children_at ino s ≡ some children
          → CanList entry_size size off children)
      → Served s (read_dir entry_size ino size off s)
  unfolding fuse_read_dir
  read_dir-Served off can = elim (Bool-cases (leb (number_of_inodes s.nodes) ino)) [
    | inl out ↦ sends off off (err enoent) (rw out refl)
    | inr inside ↦
        let (x, found) = get_elem?-inside s.nodes.inodes ino (ground arith) in
        elim (Option-cases (as_directory x)) [
          | inl missing ↦ sends off off (err enotdir) (rw (inside, found, ◌>>=◌, missing) refl)
          | inr (children, is_dir) ↦
              let here : children_at ino s ≡ some children = rw found is_dir in
              listed-Served off children here (can children here)
        ]
  ]
