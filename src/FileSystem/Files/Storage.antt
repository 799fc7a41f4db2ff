-- ===== src/FileSystem/Files/Storage.antt =====
-- A file that is flushed to the cluster and opened again.
use dagon_fs.Prelude.{
  ℕ, ◌+◌, ◌*◌, ◌<◌, ◌≤◌, ◌≡◌, ◌∙◌, refl, true, false, some, none, List, ◌∷◌, arith, length, take,
  get_elem?-set_self, get_elem?-lt, get_elem?-set_self,
}
use dagon_fs.Cluster.{Byte, number_of_blocks}
use dagon_fs.Cluster.Collectives.{Mpi, IsMpi}
use dagon_fs.Cluster.ReadBack.{cluster_read-cluster_write}
use dagon_fs.Nodes.{INode, file, attr_of, get_inode, set_inode_at}
use dagon_fs.FileSystem.{Fs, err, success, opened, reply, with_nodes}
use dagon_fs.FileSystem.Guards.{with_inode-found}
use dagon_fs.FileSystem.Files.{with_kind, open_kind, fuse_open, flush_kind, fuse_flush}

-- What is left of a flush and an opening: the file's buffer holds its blocks.
pub record Stored (ino : ℕ) (x : INode) (bytes : List Byte) (s s' : Fs) : Type 0 where
  pub inode : get_inode ino s'.nodes ≡ some (with_kind x (file (some bytes) false))
  pub answered : s'.replies ≡ opened ∷ err success ∷ s.replies

-- With blocks of at least 8 bytes, for a file that waits for its write, of more than 0 bytes,
-- that fits with one block more in 2 GiB, and whose buffer has all its blocks: flush returns and
-- replies with success, an opening for reading right after it returns and replies, and then the
-- buffer holds the bytes of these blocks again.
pub fuse_open-fuse_flush :
    (mpi : Mpi)
    → IsMpi mpi
    → (block_size ino : ℕ) (x : INode) (b : List Byte) (s : Fs)
    → get_inode ino s.nodes ≡ some (with_kind x (file (some b) true))
    → 8 ≤ block_size
    → 0 < (attr_of x).st_size
    → (attr_of x).st_size + block_size ≤ 2147483648
    → number_of_blocks block_size (attr_of x).st_size * block_size ≤ length b
    → (s' : Fs) × (s'' : Fs) × (fuse_flush mpi block_size ino s ≡ some s')
      × (fuse_open mpi block_size ino false s' ≡ some s'')
      × Stored ino x (take (number_of_blocks block_size (attr_of x).st_size * block_size) b) s s''
unfolding fuse_open fuse_flush open_kind flush_kind
fuse_open-fuse_flush mpi laws block_size ino x b s found wide some_bytes small enough =
    let size = (attr_of x).st_size in
    let (c, written, read) =
      cluster_read-cluster_write mpi laws block_size ino size size b s.cluster wide some_bytes
        (omega arith) small enough in
    let inside = get_elem?-lt s.nodes.inodes ino (with_kind x (file (some b) true)) found in
    let closed = with_kind x (file none false) in
    let s' =
      reply (err success)
        (record (with_nodes s (set_inode_at ino closed s.nodes)) { cluster = c }) in
    let here : get_inode ino s'.nodes ≡ some closed =
      get_elem?-set_self s.nodes.inodes ino closed inside in
    let whole =
      with_kind x (file (some (take (number_of_blocks block_size size * block_size) b)) false) in
    (
      s',
      reply opened (with_nodes s' (set_inode_at ino whole s'.nodes)),
      with_inode-found ino s _ (with_kind x (file (some b) true)) found ∙ rw written refl,
      with_inode-found ino s' _ closed here ∙ rw read refl,
      record {
        inode =
            get_elem?-set_self s'.nodes.inodes ino whole
              (get_elem?-lt s'.nodes.inodes ino closed here);
        answered = refl;
      },
    )
