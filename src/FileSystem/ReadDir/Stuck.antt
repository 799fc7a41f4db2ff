-- ===== src/FileSystem/ReadDir/Stuck.antt =====
-- Directories that readdir never gets through.
use dagon_fs.Prelude.{
  ℕ, zero, suc, ◌+◌, ◌≤◌, ◌<◌, ◌≡◌, ◌∙◌, refl, some, none, [], ◌∷◌, ◌++◌, replicate, Option, List,
  ap, length, arith, ltb, lt→ltb, ge→ltb, leb, true, false, if◌then◌else◌, ◌>>=◌, ◌==◌,
}
use dagon_fs.Map.{Map}
use dagon_fs.Map.Keys.{Name}
use dagon_fs.Nodes.{}
use dagon_fs.FileSystem.{Fs, entries, reply, children_at}
use dagon_fs.FileSystem.ReadDir.{
  k_read_dir_entries_per_response, fuse_read_dir, read_children, first_entries, next_entries,
  add_children, dot, dot_dot, buf_size_of,
}
use dagon_fs.FileSystem.ReadDir.Chunk.{add_children-fits}
use dagon_fs.FileSystem.ReadDir.Steps.{fuse_read_dir-children}

-- A number of requests, each with the offset that the one before left.
unfoldable pub read_dirs :
    (Name → ℕ) → (ino size requests : ℕ) → Option ℕ → Fs → Option (Option ℕ × Fs)
unfolding fuse_read_dir
read_dirs entry_size ino size zero off s = some (off, s)
read_dirs entry_size ino size (suc n) off s =
    fuse_read_dir entry_size ino size off s >>= λ (off', s').
    read_dirs entry_size ino size n off' s'

one_more :
    {A : Type 0} {x : A} (n : ℕ) (l : List A) → replicate n x ++ x ∷ l ≡ x ∷ replicate n x ++ l
one_more zero l = refl
one_more {x = x} (suc n) l = ap (λ t. x ∷ t) (one_more n l)

module _ (entry_size : Name → ℕ) (ino size : ℕ) (a b : Name × ℕ) (rest : Map Name ℕ)
    (crowded : buf_size_of size < entry_size a.0 + entry_size b.0) where
  -- The first of two entries is added, and for the second one the iterator goes back.
  add_children_back :
      (bytes added : ℕ)
      → added < 254
      → bytes + entry_size a.0 ≤ buf_size_of size
      → add_children entry_size (buf_size_of size) 0 bytes added (a ∷ b ∷ rest) ≡ some (a ∷ [], 0)
  unfolding add_children
  add_children_back bytes added few fits =
      let room : leb k_read_dir_entries_per_response (suc added) ≡ false = ground arith in
      let over : ltb (buf_size_of size) (bytes + entry_size a.0 + entry_size b.0) ≡ true =
        lt→ltb _ _ (omega arith) in
      add_children-fits entry_size (buf_size_of size) 0 bytes added a (b ∷ rest) (omega arith) fits
      ∙ rw (room, if◌then◌else◌, over) refl

  fuse_read_dir_again :
      (s : Fs)
      → entry_size a.0 ≤ buf_size_of size
      → children_at ino s ≡ some (a ∷ b ∷ rest)
      → fuse_read_dir entry_size ino size (some 0) s ≡ some (some 0, reply (entries (a ∷ [])) s)
  unfolding read_children next_entries
  fuse_read_dir_again s alone here =
      let more : (0 == length (a ∷ b ∷ rest)) ≡ false = ground arith in
      fuse_read_dir-children entry_size ino size (some 0) (a ∷ b ∷ rest) s here
      ∙ rw (more, if◌then◌else◌, add_children_back 0 0 (omega arith) (omega arith)) refl

  again :
      (n : ℕ) (s : Fs)
      → entry_size a.0 ≤ buf_size_of size
      → children_at ino s ≡ some (a ∷ b ∷ rest)
      → (s' : Fs) × (read_dirs entry_size ino size n (some 0) s ≡ some (some 0, s'))
        × (s'.replies ≡ replicate n (entries (a ∷ [])) ++ s.replies)
  unfolding read_dirs
  again zero s alone here = (s, refl, refl)
  again (suc n) s alone here =
      let (s', done, sent) = again n (reply (entries (a ∷ [])) s) alone here in
      (
        s',
        ap (λ o. o >>= λ (off, t). read_dirs entry_size ino size n off t)
              (fuse_read_dir_again s alone here)
            ∙ done,
        sent ∙ one_more n s.replies,
      )

  -- If the first two children of a directory do not fit into the buffer of a request together,
  -- while the first one fits behind `.` and `..`: the first request of a listing and any number of
  -- later ones all return and leave the iterator in front of the first
  -- child; the first reply has `.`, `..` and the first child, and every later one the first
  -- child again, so that none is the empty one that ends a listing.
  pub read_dirs_stuck :
      (n : ℕ) (s : Fs)
      → children_at ino s ≡ some (a ∷ b ∷ rest)
      → entry_size dot + entry_size dot_dot + entry_size a.0 ≤ buf_size_of size
      → (s' : Fs) × (read_dirs entry_size ino size (suc n) none s ≡ some (some 0, s'))
        × (s'.replies
            ≡ replicate n (entries (a ∷ []))
              ++ entries ((dot, ino) ∷ (dot_dot, ino) ∷ a ∷ []) ∷ s.replies)
  unfolding read_dirs read_children first_entries
  read_dirs_stuck n s here fits =
      let dots = entry_size dot + entry_size dot_dot in
      let room : ltb (buf_size_of size) (entry_size dot + entry_size dot_dot) ≡ false =
        ge→ltb _ _ (omega arith) in
      let sent = (dot, ino) ∷ (dot_dot, ino) ∷ a ∷ [] in
      let once : fuse_read_dir entry_size ino size none s ≡ some (some 0, reply (entries sent) s) =
        fuse_read_dir-children entry_size ino size none (a ∷ b ∷ rest) s here
        ∙ rw (room, if◌then◌else◌, add_children_back dots 2 (omega arith) fits) refl in
      let (s', done, replies) = again n (reply (entries sent) s) (omega arith) here in
      (s', ap (λ o. o >>= λ (off, t). read_dirs entry_size ino size n off t) once ∙ done, replies)
