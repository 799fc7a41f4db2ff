-- ===== src/FileSystem/ReadDir.antt =====
-- ramfs/FileSystem.cpp, `FuseReadDir`. `entry_size` is what `fuse_add_direntry` returns for a name:
-- the size of its entry, whether it fits or not. The offset of a request points to a
-- `std::map` iterator that the program allocated; it is given as the number of children in front of
-- the iterator when the request comes, and `none` for the null pointer of the first request. A
-- handler returns where the iterator is left and the state with the reply in front. A reply has the
-- entries that were written, each the name and the inode number. `none` is undefined behaviour.
pub mod Chunk
pub mod Repeats
pub mod Steps
pub mod Listing
pub mod Stuck
use dagon_fs.Prelude.{
  ℕ, zero, suc, ◌+◌, Option, none, some, List, [], ◌∷◌, length, drop, leb, ltb, ◌==◌, if◌then◌else◌,
  ◌>>=◌, ◌++◌,
}
use dagon_fs.Map.{Map}
use dagon_fs.Map.Keys.{Name}
use dagon_fs.Nodes.{as_directory, number_of_inodes, get_inode}
use dagon_fs.FileSystem.{Fs, err, enoent, enotdir, entries, reply}

-- `kReadDirBufSize`
abbrev pub k_read_dir_buf_size : ℕ
k_read_dir_buf_size = 384

-- `kReadDirEntriesPerResponse`
abbrev pub k_read_dir_entries_per_response : ℕ
k_read_dir_entries_per_response = 255

-- The names `.` and `..`
abbrev pub dot : Name
dot = 46 ∷ []

abbrev pub dot_dot : Name
dot_dot = 46 ∷ 46 ∷ []

-- `bufSize`
abbrev pub buf_size_of : ℕ → ℕ
buf_size_of size = if ltb k_read_dir_buf_size size then k_read_dir_buf_size else size

-- `--(*childIterator)`; at `begin()` it is undefined.
abbrev pub back_up : ℕ → Option ℕ
back_up zero = none
back_up (suc at) = some at

-- One more entry in front of what the rest of the loop adds.
abbrev pub also : Name × ℕ → List (Name × ℕ) × ℕ → Option (List (Name × ℕ) × ℕ)
also child (more, at) = some (child ∷ more, at)

-- The loop, with the iterator at `at` in front of the last argument: what it adds to the buffer,
-- and where it leaves the iterator.
unfoldable pub add_children :
    (Name → ℕ)
    → (buf_size at bytes_added entries_added : ℕ) → Map Name ℕ
    → Option (List (Name × ℕ) × ℕ)
add_children entry_size buf_size at bytes_added entries_added [] = some ([], at)
add_children entry_size buf_size at bytes_added entries_added (child ∷ children) =
    let bytes = bytes_added + entry_size child.0 in
    let rest = add_children entry_size buf_size (suc at) bytes (suc entries_added) children in
    if leb k_read_dir_entries_per_response entries_added
    then some ([], at)
    else if ltb buf_size bytes
    then (back_up at >>= λ back. some ([], back))
    else (rest >>= also child)

-- The reply of a request that adds the entries.
abbrev pub listed : List (Name × ℕ) → Fs → List (Name × ℕ) × ℕ → Option (Option ℕ × Fs)
listed first s (added, at) = some (some at, reply (entries (first ++ added)) s)

-- A first request makes the iterator and adds `.` and `..`, which have to fit: the space that is
-- left is unsigned.
unfoldable pub first_entries :
    (Name → ℕ) → (ino buf_size : ℕ) → Map Name ℕ → Fs → Option (Option ℕ × Fs)
unfolding add_children
first_entries entry_size ino buf_size children s =
    let bytes = entry_size dot + entry_size dot_dot in
    if ltb buf_size bytes
    then none
    else (add_children entry_size buf_size 0 bytes 2 children
        >>= listed ((dot, ino) ∷ (dot_dot, ino) ∷ []) s)

-- A later request; at `end()` it sends an empty buffer.
unfoldable pub next_entries :
    (Name → ℕ) → (buf_size at : ℕ) → Map Name ℕ → Fs → Option (Option ℕ × Fs)
unfolding add_children
next_entries entry_size buf_size at children s =
    if at == length children
    then some (some at, reply (entries []) s)
    else (add_children entry_size buf_size at 0 0 (drop at children) >>= listed [] s)

unfoldable pub read_children :
    (Name → ℕ) → (ino size : ℕ) → Option ℕ → Map Name ℕ → Fs → Option (Option ℕ × Fs)
unfolding first_entries next_entries
read_children entry_size ino size none children s =
    first_entries entry_size ino (buf_size_of size) children s
read_children entry_size ino size (some at) children s =
    next_entries entry_size (buf_size_of size) at children s

-- `FuseReadDir`
unfoldable pub fuse_read_dir : (Name → ℕ) → (ino size : ℕ) → Option ℕ → Fs → Option (Option ℕ × Fs)
unfolding read_children
fuse_read_dir entry_size ino size off s =
    if leb (number_of_inodes s.nodes) ino
    then some (off, reply (err enoent) s)
    else (get_inode ino s.nodes >>= λ x. elim (as_directory x) [
      | none ↦ some (off, reply (err enotdir) s)
      | some children ↦ read_children entry_size ino size off children s
    ])
