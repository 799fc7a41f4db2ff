-- ===== src/FileSystem/ReadDir/Steps.antt =====
-- One readdir request on a directory: at the end, in the middle and at the start.
use dagon_fs.Prelude.{
  ℕ, zero, suc, ◌+◌, ◌≤◌, ◌≡◌, ◌∙◌, refl, ap, Option, some, none, [], ◌∷◌, length, take, drop,
  arith, ltb, leb, true, false, if◌then◌else◌, ◌>>=◌, ◌==◌, length-drop, get_elem?-lt, >>=-eq-some,
}
use dagon_fs.Map.{Map}
use dagon_fs.Map.Keys.{Name}
use dagon_fs.Nodes.{as_directory, number_of_inodes, get_inode}
use dagon_fs.FileSystem.{Fs, entries, reply, children_at}
use dagon_fs.FileSystem.ReadDir.{
  fuse_read_dir, read_children, first_entries, next_entries, add_children, dot, dot_dot,
  buf_size_of,
}
use dagon_fs.FileSystem.ReadDir.Chunk.{IsRoomy, no_entry, two_entries, Sent-one, Sent-two}

pub IsRoomy-drop :
    (entry_size : Name → ℕ) (buf_size k : ℕ) (xs : Map Name ℕ)
    → IsRoomy entry_size buf_size xs
    → IsRoomy entry_size buf_size (drop k xs)
IsRoomy-drop entry_size buf_size zero xs roomy = roomy
IsRoomy-drop entry_size buf_size (suc k) [] roomy = roomy
IsRoomy-drop entry_size buf_size (suc zero) (x ∷ []) roomy = no_entry
IsRoomy-drop entry_size buf_size (suc (suc k)) (x ∷ []) roomy = no_entry
IsRoomy-drop entry_size buf_size (suc k) (x ∷ b ∷ rest) (two_entries a c r fits more) =
    IsRoomy-drop entry_size buf_size k (b ∷ rest) more

pub fuse_read_dir-children :
    (entry_size : Name → ℕ) (ino size : ℕ) (off : Option ℕ) (children : Map Name ℕ) (s : Fs)
    → children_at ino s ≡ some children
    → fuse_read_dir entry_size ino size off s ≡ read_children entry_size ino size off children s
unfolding fuse_read_dir
fuse_read_dir-children entry_size ino size off children s e =
    let (x, found, is_dir) = >>=-eq-some (get_inode ino s.nodes) as_directory e in
    let inside : leb (number_of_inodes s.nodes) ino ≡ false =
      ground (arith, get_elem?-lt s.nodes.inodes ino x found) in
    rw (inside, found, ◌>>=◌, is_dir) refl

module _ (entry_size : Name → ℕ) (ino size : ℕ) (children : Map Name ℕ) (s : Fs)
    (here : children_at ino s ≡ some children) where
  -- A request at the end is answered by nothing.
  pub fuse_read_dir_end :
      (at : ℕ)
      → at ≡ length children
      → fuse_read_dir entry_size ino size (some at) s ≡ some (some at, reply (entries []) s)
  unfolding read_children next_entries
  fuse_read_dir_end at e =
      let last : (at == length children) ≡ true = ground arith in
      fuse_read_dir-children entry_size ino size (some at) children s here ∙ rw last refl

  pub fuse_read_dir_next :
      (at : ℕ) (child : Name × ℕ) (rest : Map Name ℕ)
      → drop at children ≡ child ∷ rest
      → IsRoomy entry_size (buf_size_of size) (child ∷ rest)
      → (k at' : ℕ) × (fuse_read_dir entry_size ino size (some at) s
          ≡ some (some at', reply (entries (child ∷ take k rest)) s))
        × (k ≤ length rest)
        × (at' ≤ at + suc k)
        × (at + suc k ≤ suc at')
        × (suc at ≤ at')
  unfolding read_children next_entries
  fuse_read_dir_next at child rest e roomy =
      let (k, at', sent, ahead) = Sent-two entry_size (buf_size_of size) at child rest roomy in
      let more : (at == length children) ≡ false =
        ground (arith, ap length e, length-drop at children) in
      (
        k,
        at',
        fuse_read_dir-children entry_size ino size (some at) children s here
            ∙ rw (more, e, sent.0) refl,
        omega (arith, sent.1),
        sent.2,
        sent.3,
        ahead,
      )

-- The size of the first entry.
abbrev pub first_size : (Name → ℕ) → Map Name ℕ → ℕ
first_size entry_size [] = 0
first_size entry_size (e ∷ children) = entry_size e.0

pub fuse_read_dir_first :
    (entry_size : Name → ℕ) (ino size : ℕ) (children : Map Name ℕ) (s : Fs)
    → children_at ino s ≡ some children
    → entry_size dot + entry_size dot_dot + first_size entry_size children ≤ buf_size_of size
    → (k at : ℕ) × (fuse_read_dir entry_size ino size none s
        ≡ some (some at, reply (entries ((dot, ino) ∷ (dot_dot, ino) ∷ take k children)) s))
      × (k ≤ length children)
      × (at ≤ k)
      × (k ≤ suc at)
unfolding read_children first_entries add_children
fuse_read_dir_first entry_size ino size [] s here fits =
    let room : ltb (buf_size_of size) (entry_size dot + entry_size dot_dot) ≡ false =
      ground arith in
    (
      0,
      0,
      fuse_read_dir-children entry_size ino size none [] s here ∙ rw room refl,
      omega arith,
      omega arith,
      omega arith,
    )
fuse_read_dir_first entry_size ino size (e ∷ rest) s here fits =
    let dots = entry_size dot + entry_size dot_dot in
    let room : ltb (buf_size_of size) (entry_size dot + entry_size dot_dot) ≡ false =
      ground arith in
    let (k, at, sent) = Sent-one entry_size (buf_size_of size) 0 dots 2 e rest (omega arith) fits in
    (
      suc k,
      at,
      fuse_read_dir-children entry_size ino size none (e ∷ rest) s here
          ∙ rw (room, if◌then◌else◌, sent.0) refl,
      sent.1,
      omega (arith, sent.2),
      omega (arith, sent.3),
    )
