-- ===== src/Tests/Listings.antt =====
-- Listings of a small directory, and of one with two long names, with entries of the size that
-- libfuse gives them: 24 bytes and the name, in words of 8 bytes.
use dagon_fs.Prelude.{
  ℕ, ◌+◌, ◌*◌, ◌/◌, ◌≡◌, refl, none, some, List, [], ◌∷◌, ◌++◌, length, replicate, arith,
}
use dagon_fs.Map.{}
use dagon_fs.Map.Keys.{Name}
use dagon_fs.Nodes.{dir}
use dagon_fs.FileSystem.{Fs, entries}
use dagon_fs.FileSystem.ReadDir.{dot, dot_dot}
use dagon_fs.FileSystem.ReadDir.Chunk.{last_entry, two_entries}
use dagon_fs.FileSystem.ReadDir.Repeats.{Repeats}
use dagon_fs.FileSystem.ReadDir.Listing.{list_directory, list_directory-Repeats}
use dagon_fs.FileSystem.ReadDir.Stuck.{read_dirs, read_dirs_stuck}
use dagon_fs.Tests.Trees.{a, f, root_children, tree, node}

abbrev dirent_size : Name → ℕ
dirent_size name = 24 + (length name + 7) / 8 * 8

list_directory-Repeats_example :
    (ys : List (Name × ℕ)) × (list_directory dirent_size 1 4096 4 none tree
      ≡ some ((dot, 1) ∷ (dot_dot, 1) ∷ ys))
    × Repeats root_children ys
list_directory-Repeats_example =
    list_directory-Repeats dirent_size 1 4096 root_children tree refl
      (two_entries (a, 2) (f, 3) [] (omega arith) (last_entry (f, 3) (omega arith))) (omega arith)

abbrev long_a : Name
long_a = replicate 180 97

abbrev long_b : Name
long_b = replicate 180 98

abbrev long_tree : Fs
long_tree = record tree {
  nodes = record {
    inodes = node 0 (dir []) 0 ∷ node 1 (dir ((long_a, 2) ∷ (long_b, 3) ∷ [])) 3 ∷ [];
    deleted_inodes = [];
  };
}

read_dirs_stuck_example :
    (s' : Fs) × (read_dirs dirent_size 1 4096 1001 none long_tree ≡ some (some 0, s'))
    × (s'.replies
        ≡ replicate 1000 (entries ((long_a, 2) ∷ []))
          ++ entries ((dot, 1) ∷ (dot_dot, 1) ∷ (long_a, 2) ∷ []) ∷ [])
read_dirs_stuck_example =
    read_dirs_stuck dirent_size 1 4096 (long_a, 2) (long_b, 3) [] (omega arith) 1000 long_tree refl
      (omega arith)
