-- ===== src/FileSystem/Served/Files.antt =====
-- The handlers on open files, listxattr, getlk and readdir serve their request, where they do.
use dagon_fs.Prelude.{
  ℕ, ◌+◌, ◌*◌, ◌≤◌, ◌<◌, ◌≡◌, refl, ap, sym, ◌∙◌, subst, Bool, true, false, Option, none, some,
  List, [], ◌∷◌, arith, length, leb, ltb, le→leb, ◌==◌, if◌then◌else◌, ◌>>=◌, Bool-cases, inl, inr,
  drop, take,
}
use dagon_fs.Map.{}
use dagon_fs.Map.Keys.{}
use dagon_fs.Cluster.{Byte, number_of_blocks, cluster_read, cluster_write}
use dagon_fs.Cluster.Collectives.{Mpi}
use dagon_fs.Cluster.Size.{number_of_blocks_bounds, fits_int_lem}
use dagon_fs.Nodes.{
  u64, sub64, INode, Kind, file, dir, symlink, special, attr_of, with_attr, number_of_inodes,
  get_inode, set_inode_at,
}
use dagon_fs.Nodes.WellFormed.{IsWellFormed, IsGood, with_attr-Preserves}
use dagon_fs.FileSystem.{
  Fs, Env, err, success, enoent, eperm, eisdir, erange, eio, opened, buf, wrote,
}
use dagon_fs.FileSystem.Guards.{with_inode-found}
use dagon_fs.FileSystem.Attributes.{name_list, fuse_list_xattr, fuse_get_lock}
use dagon_fs.FileSystem.Files.{
  with_kind, peek, read_file, read_kind, fuse_read, write_kind, fuse_write, open_kind, fuse_open,
  flush_kind, fuse_flush,
}
use dagon_fs.FileSystem.Files.Contents.{room, grown_lem, new_inode, after_write, fuse_write-written}
use dagon_fs.FileSystem.Served.{
  Served, Kept-set_inode_at, answer-Served, answer_nodes-Served, with_inode-Served, if-Served,
}

-- What a read needs of an inode: the bytes of a file are in memory, and it begins in the file.
abbrev pub CanRead : (size off : ℕ) → INode → Kind → Type 0
CanRead size off x (file m_buf waiting) =
    (off ≤ (attr_of x).st_size)
    × ((attr_of x).st_size ≤ room m_buf)
    × (room m_buf < 18446744073709551616)
    × (off + size < 18446744073709551616)
CanRead size off x _ = Unit {0}

-- What a write needs: a file has the memory that its block count promises, and more is found.
abbrev pub CanWrite : (block_size : ℕ) → Env → List Byte → (off : ℕ) → INode → Kind → Type 0
CanWrite block_size env bytes off x (file m_buf waiting) =
    (0 < block_size)
    × ((n : ℕ) → env.alloc n ≡ true)
    × ((attr_of x).st_blocks * block_size ≤ room m_buf)
    × (room m_buf < 18446744073709551616)
    × (off + length bytes + block_size < 18446744073709551616)
CanWrite block_size env bytes off x _ = Unit {0}

-- What an opening needs: the blocks of a file that is not truncated can be read.
abbrev pub CanOpen : Mpi → (block_size ino : ℕ) → (truncates : Bool) → INode → Kind → Fs → Type 0
CanOpen mpi block_size ino false x (file m_buf waiting) s =
    (read : Option (List Byte)) × (cluster_read mpi block_size ino (attr_of x).st_size
        (attr_of x).st_size s.cluster
      ≡ some read)
CanOpen mpi block_size ino truncates x kind s = Unit {0}

-- What a flush needs: only a file is flushed, and bytes that wait are all there and fit into 2 GiB.
abbrev pub CanFlush : (block_size : ℕ) → INode → Kind → Type 0
CanFlush block_size x (file (some b) true) =
    (8 ≤ block_size)
    × ((attr_of x).st_size + block_size ≤ 2147483648)
    × (number_of_blocks block_size (attr_of x).st_size * block_size ≤ length b)
CanFlush block_size x (file m_buf waiting) = Unit {0}
CanFlush block_size x _ = ⊥

peek-some :
    (off n : ℕ) (m_buf : Option (List Byte))
    → off + n ≤ room m_buf
    → (b : List Byte) × (peek off n m_buf ≡ some b)
unfolding peek
peek-some off n none h =
    let nothing : (n == 0) ≡ true = ground arith in ([], rw (nothing, if◌then◌else◌) refl)
peek-some off n (some b) h =
    let inside : leb (off + n) (length b) ≡ true = le→leb _ _ h in
    elim (Bool-cases (n == 0)) [
      | inl nothing ↦ ([], rw (nothing, if◌then◌else◌) refl)
      | inr bytes ↦ (take n (drop off b), rw (bytes, inside, if◌then◌else◌) refl)
    ]

file-IsGood :
    (n ino : ℕ) (x : INode) (m_buf : Option (List Byte)) (waiting : Bool)
    → IsGood n ino x
    → IsGood n ino (with_kind x (file m_buf waiting))
file-IsGood n ino x m_buf waiting g = record {
  number = g.number;
  ino = g.ino;
  children = λ children name c e _. cc e;
}

module _ (s : Fs) (w : IsWellFormed s.nodes) where
  read_kind-Served :
      (env : Env) (ino size off : ℕ) (x : INode) (k : Kind)
      → get_inode ino s.nodes ≡ some x
      → CanRead size off x k
      → Served s (read_kind env ino size off x k s)
  unfolding read_kind read_file
  read_kind-Served env ino size off x (dir children) here can = answer-Served s w (err eisdir)
  read_kind-Served env ino size off x (special type) here can = answer-Served s w (err enoent)
  read_kind-Served env ino size off x (symlink link) here can = answer-Served s w (err eisdir)
  read_kind-Served env ino size off x (file m_buf waiting) here (inside, in_memory, small, fits) =
      let a = attr_of x in
      let begins : ltb a.st_size off ≡ false = ground arith in
      let n = if ltb a.st_size (u64 (off + size)) then sub64 a.st_size off else size in
      let within : off + n ≤ room m_buf = ground arith in
      let (bytes, peeked) = peek-some off n m_buf within in
      rw (begins, if◌then◌else◌, peeked, ◌>>=◌)
        (answer_nodes-Served s w (buf bytes) _ (
          Kept-set_inode_at s.nodes ino (with_attr x (record a { st_atim = env.now })) w (
            with_attr-Preserves (number_of_inodes s.nodes)
              (λ y. record (attr_of y) { st_atim = env.now }) ino x (w.good ino x here))))

  pub fuse_read-Served :
      (env : Env) (ino size off : ℕ)
      → ((x : INode) → get_inode ino s.nodes ≡ some x → CanRead size off x x.kind)
      → Served s (fuse_read env ino size off s)
  unfolding fuse_read
  fuse_read-Served env ino size off can =
      with_inode-Served s w ino _
        λ x here. read_kind-Served env ino size off x x.kind here (can x here)

  pub fuse_list_xattr-Served :
      (env : Env) (ino size : ℕ) → 0 < size → Served s (fuse_list_xattr env ino size s)
  unfolding fuse_list_xattr
  fuse_list_xattr-Served env ino size some_room = with_inode-Served s w ino _ λ x here.
      let asks : (size == 0) ≡ false = ground arith in
      let names = name_list x.xattr in
      rw (asks, if◌then◌else◌)
        (if-Served s w (ltb size (length names)) _ _ (answer-Served s w (err erange)) (
          if-Served s w (env.alloc (length names)) _ _ (answer-Served s w (buf names))
            (answer-Served s w (err eio))))

  pub fuse_get_lock-Served :
      (ino : ℕ) → number_of_inodes s.nodes ≤ ino → Served s (fuse_get_lock ino s)
  unfolding fuse_get_lock
  fuse_get_lock-Served ino outside =
      rw (le→leb _ _ outside, if◌then◌else◌) (answer-Served s w (err enoent))

  module _ (mpi : Mpi) (block_size : ℕ) where
    open_kind-Served :
        (ino : ℕ) (truncates : Bool) (x : INode) (k : Kind)
        → get_inode ino s.nodes ≡ some x
        → CanOpen mpi block_size ino truncates x k s
        → Served s (open_kind mpi block_size ino truncates x k s)
    unfolding open_kind
    open_kind-Served ino truncates x (dir children) here can = answer-Served s w (err eisdir)
    open_kind-Served ino truncates x (symlink link) here can = answer-Served s w (err eperm)
    open_kind-Served ino truncates x (special type) here can = answer-Served s w (err eperm)
    open_kind-Served ino true x (file m_buf waiting) here can =
        let emptied = λ (y : INode). record (attr_of y) { st_size = 0; st_blocks = 0 } in
        answer_nodes-Served s w opened _ (
          Kept-set_inode_at s.nodes ino (with_attr x (emptied x)) w
            (with_attr-Preserves (number_of_inodes s.nodes) emptied ino x (w.good ino x here)))
    open_kind-Served ino false x (file m_buf waiting) here (read, found) =
        rw (found, ◌>>=◌)
          (answer_nodes-Served s w opened _ (
            Kept-set_inode_at s.nodes ino (with_kind x (file read waiting)) w
              (file-IsGood _ ino x read waiting (w.good ino x here))))

    pub fuse_open-Served :
        (ino : ℕ) (truncates : Bool)
        → ((x : INode)
            → get_inode ino s.nodes ≡ some x
            → CanOpen mpi block_size ino truncates x x.kind s)
        → Served s (fuse_open mpi block_size ino truncates s)
    unfolding fuse_open
    fuse_open-Served ino truncates can =
        with_inode-Served s w ino _
          λ x here. open_kind-Served ino truncates x x.kind here (can x here)

    flush_kind-Served :
        (ino : ℕ) (x : INode) (k : Kind)
        → get_inode ino s.nodes ≡ some x
        → CanFlush block_size x k
        → Served s (flush_kind mpi block_size ino x k s)
    unfolding flush_kind cluster_write
    flush_kind-Served ino x (dir children) here can = absurd can
    flush_kind-Served ino x (symlink link) here can = absurd can
    flush_kind-Served ino x (special type) here can = absurd can
    flush_kind-Served ino x (file none waiting) here can = answer-Served s w (err success)
    flush_kind-Served ino x (file (some b) false) here can =
        answer_nodes-Served s w (err success) _ (
          Kept-set_inode_at s.nodes ino (with_kind x (file none false)) w
            (file-IsGood _ ino x none false (w.good ino x here)))
    flush_kind-Served ino x (file (some b) true) here (wide, small, enough) =
        let n = number_of_blocks block_size (attr_of x).st_size in
        let narrow : n * block_size < 2147483648 =
          omega
            (arith, number_of_blocks_bounds block_size (attr_of x).st_size (omega arith) small) in
        let closed = with_kind x (file none false) in
        let kept =
          Kept-set_inode_at s.nodes ino closed w
            (file-IsGood _ ino x none false (w.good ino x here)) in
        rw (fits_int_lem n block_size wide narrow, le→leb _ _ enough, if◌then◌else◌, ◌>>=◌)
          (record {
            after = _;
            returns = refl;
            wf = kept.wf;
            grows = omega (arith, kept.count);
            sent = err success;
            one_reply = refl;
          })

    pub fuse_flush-Served :
        (ino : ℕ)
        → ((x : INode) → get_inode ino s.nodes ≡ some x → CanFlush block_size x x.kind)
        → Served s (fuse_flush mpi block_size ino s)
    unfolding fuse_flush
    fuse_flush-Served ino can =
        with_inode-Served s w ino _ λ x here. flush_kind-Served ino x x.kind here (can x here)

  write_kind-Served :
      (block_size : ℕ) (env : Env) (ino : ℕ) (bytes : List Byte) (off : ℕ) (x : INode) (k : Kind)
      → get_inode ino s.nodes ≡ some x
      → x.kind ≡ k
      → CanWrite block_size env bytes off x k
      → Served s (write_kind block_size env ino bytes off x k s)
  unfolding write_kind fuse_write
  write_kind-Served bs env ino bytes off x (dir children) here is can =
      answer-Served s w (err eisdir)
  write_kind-Served bs env ino bytes off x (symlink link) here is can =
      answer-Served s w (err enoent)
  write_kind-Served bs env ino bytes off x (special type) here is can =
      answer-Served s w (err eisdir)
  write_kind-Served bs env ino bytes off x (file m_buf waiting) here is can =
      let (some_bytes, memory, backed, small, fits) = can in
      let same : x ≡ with_kind x (file m_buf waiting) = ap (with_kind x) is in
      let found : get_inode ino s.nodes ≡ some (with_kind x (file m_buf waiting)) =
        here ∙ ap some same in
      let grown =
        grown_lem bs env ino off bytes x m_buf waiting s found some_bytes memory backed small
          fits in
      let v =
        new_inode bs env ino off bytes x m_buf waiting s found some_bytes memory backed small
          fits in
      let g = w.good ino x here in
      let kept =
        Kept-set_inode_at s.nodes ino v w
          (record { number = g.number; ino = g.ino; children = λ children name c e _. cc e }) in
      let done =
        after_write bs env ino off bytes x m_buf waiting s found some_bytes memory backed small
          fits in
      let nodes : done.nodes ≡ set_inode_at ino v s.nodes = ap (set_inode_at ino v) grown.nodes in
      record {
        after = done;
        returns =
            ap (λ y. write_kind bs env ino bytes off y (file m_buf waiting) s) same
            ∙ sym (with_inode-found ino s _ (with_kind x (file m_buf waiting)) found)
            ∙ fuse_write-written bs env ino off bytes x m_buf waiting s found some_bytes memory
                backed small fits;
        wf = subst IsWellFormed (sym nodes) kept.wf;
        grows = omega (arith, kept.count, ap number_of_inodes nodes);
        sent = wrote (length bytes);
        one_reply = ap (λ l. wrote (length bytes) ∷ l) grown.replies;
      }

  pub fuse_write-Served :
      (block_size : ℕ) (env : Env) (ino : ℕ) (bytes : Option (List Byte)) (off : ℕ)
      → ((content : List Byte) (x : INode)
          → bytes ≡ some content
          → get_inode ino s.nodes ≡ some x
          → CanWrite block_size env content off x x.kind)
      → Served s (fuse_write block_size env ino bytes off s)
  unfolding fuse_write
  fuse_write-Served bs env ino none off can = answer-Served s w (err eperm)
  fuse_write-Served bs env ino (some bytes) off can =
      with_inode-Served s w ino _
        λ x here. write_kind-Served bs env ino bytes off x x.kind here refl (can bytes x refl here)
