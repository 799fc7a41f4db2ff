-- ===== src/Tests/Files.antt =====
-- A file of 20 bytes on a cluster of three processes, with blocks of 8 bytes and one attribute.
use dagon_fs.Prelude.{
  ◌*◌, ◌≡◌, refl, true, false, Option, none, some, List, [], ◌∷◌, ◌++◌, arith, take, replicate,
}
use dagon_fs.Map.{find}
use dagon_fs.Map.Keys.{Name, name_ord}
use dagon_fs.Cluster.{Byte, number_of_blocks, blocks_for_request}
use dagon_fs.Nodes.{INode, file, special, special_inode_type_no_block, empty_inode, attr_of}
use dagon_fs.FileSystem.{Fs, Env, start, buf, wrote}
use dagon_fs.FileSystem.Files.{with_kind, fuse_open, fuse_flush, fuse_read, fuse_write}
use dagon_fs.FileSystem.Files.Storage.{Stored, fuse_open-fuse_flush}
use dagon_fs.FileSystem.Files.Unsaved.{fuse_open-fuse_write}
use dagon_fs.Blocks.{get_data_block_list_of_inode}
use dagon_fs.FileSystem.Files.Contents.{fuse_read-fuse_write}
use dagon_fs.FileSystem.Attributes.{}
use dagon_fs.Tests.Transfers.{list_mpi, list_mpi-IsMpi, idle}

abbrev content : List Byte
content = replicate 9 (some 1) ++ (replicate 9 (some 2) ++ replicate 6 (some 3))

abbrev colour : Name
colour = 99 ∷ []

abbrev size_name : Name
size_name = 115 ∷ []

abbrev twenty_bytes : INode
twenty_bytes = record (empty_inode (file none true)) {
  fuse_entry_param = record (empty_inode (file none true)).fuse_entry_param {
    attr = record (attr_of (empty_inode (file none true))) { st_size = 20; st_blocks = 3 };
  };
  xattr = (colour, some 5 ∷ some 6 ∷ []) ∷ [];
}

abbrev with_file : Option (List Byte) → Fs
with_file m_buf = record (start idle) {
  nodes = record {
    inodes =
        empty_inode (special special_inode_type_no_block)
        ∷ with_kind twenty_bytes (file m_buf true)
        ∷ [];
    deleted_inodes = [];
  };
}

abbrev any_env : Env
any_env = record {
  ctx_uid = 1000;
  ctx_gid = 1000;
  uid = 0;
  gid = 0;
  now = 5;
  alloc = λ size. true;
  block_size = 8;
}

fuse_open-fuse_flush_example :
    (s' : Fs) × (s'' : Fs) × (fuse_flush list_mpi 8 1 (with_file (some content)) ≡ some s')
    × (fuse_open list_mpi 8 1 false s' ≡ some s'')
    × Stored 1 twenty_bytes
        (take (number_of_blocks 8 20 * 8) content)
        (with_file (some content))
        s''
unfolding number_of_blocks
fuse_open-fuse_flush_example =
    fuse_open-fuse_flush list_mpi list_mpi-IsMpi 8 1 twenty_bytes content (with_file (some content))
      refl (omega arith) (omega arith) (omega arith) (omega arith)

fuse_read-fuse_write_example :
    (s' : Fs) × (s'' : Fs) × (fuse_write 8 any_env 1
        (some (some 7 ∷ some 8 ∷ []))
        30
        (with_file (some content))
      ≡ some s')
    × (fuse_read any_env 1 2 30 s' ≡ some s'')
    × (s''.replies ≡ buf (some 7 ∷ some 8 ∷ []) ∷ wrote 2 ∷ [])
fuse_read-fuse_write_example =
    fuse_read-fuse_write 8 any_env any_env 1 30 (some 7 ∷ some 8 ∷ []) twenty_bytes (some content)
      true (with_file (some content)) refl (omega arith) (λ n. refl) (omega arith) (omega arith)
      (omega arith)

fuse_open-fuse_write_example :
    (s' : Fs) × (fuse_write 8 any_env 1 (some (some 7 ∷ some 8 ∷ [])) 30 (with_file (some content))
      ≡ some s')
    × (s'.replies ≡ wrote 2 ∷ [])
    × (fuse_open list_mpi 8 1 false s' ≡ none)
unfolding get_data_block_list_of_inode find blocks_for_request
fuse_open-fuse_write_example =
    fuse_open-fuse_write list_mpi 8 any_env 1 30 (some 7 ∷ some 8 ∷ []) twenty_bytes (some content)
      true (with_file (some content)) refl (omega arith) (λ n. refl) (omega arith) (omega arith)
      (omega arith) (omega arith) (omega arith) (omega arith)
