-- ===== src/FileSystem/Files/Contents.antt =====
-- What is written to an open file is read from it.
use native.Mathlib.Nat.{div-add-mod', mod-lt}
use dagon_fs.Prelude.{
  ℕ, ◌+◌, ◌-◌, ◌*◌, ◌<◌, ◌≤◌, ◌≡◌, ◌∙◌, refl, ap, true, false, Option, some, none, List, [], ◌∷◌,
  ◌++◌, arith, length, take, drop, replicate, get_elem?-set_self, get_elem?-lt, if◌then◌else◌, Bool,
  Bool-cases, inl, inr, ltb, leb, ◌==◌, take-append_left, drop-append_left, length-append,
  length-take, length-replicate,
}
use dagon_fs.Cluster.{Byte}
use dagon_fs.Nodes.{u64, INode, Stat, file, attr_of, with_attr, get_inode, set_inode_at}
use dagon_fs.FileSystem.{Fs, Env, buf, wrote, reply, with_nodes, update_used_blocks}
use dagon_fs.FileSystem.Guards.{with_inode-found}
use dagon_fs.FileSystem.Files.{
  with_kind, peek, poke, realloc, new_blocks_for, grow, read_file, read_kind, fuse_read, write_file,
  write_kind, fuse_write,
}

-- The bytes behind `m_buf`.
abbrev pub room : Option (List Byte) → ℕ
room none = 0
room (some b) = length b

length-realloc : (n : ℕ) (m_buf : Option (List Byte)) → length (realloc n m_buf) ≡ n
length-realloc n none = length-replicate n none
length-realloc n (some b) =
    let unset : Byte = none in
    omega (
      arith,
      length-append (take n b) (replicate (n - length b) unset),
      length-take n b,
      length-replicate (n - length b) unset,
    )

-- What a copy into a buffer left there.
pub record Copied (off : ℕ) (bytes : List Byte) (m_buf : Option (List Byte)) : Type 0 where
  pub after : Option (List Byte)
  pub returns : poke off bytes m_buf ≡ some after
  pub reads : peek off (length bytes) after ≡ some bytes

poke-Copied :
    (off : ℕ) (bytes : List Byte) (m_buf : Option (List Byte))
    → off + length bytes ≤ room m_buf
    → Copied off bytes m_buf
unfolding poke peek
poke-Copied off [] none h = record { after = none; returns = refl; reads = refl }
poke-Copied off [] (some b) h = record { after = some b; returns = refl; reads = refl }
poke-Copied off (c ∷ bytes) none h = absurd (omega arith)
poke-Copied off (c ∷ bytes) (some b) h =
    let new = c ∷ bytes in
    let rest = drop (off + length new) b in
    let fits : leb (off + length new) (length b) ≡ true = ground arith in
    let front : off ≡ length (take off b) = omega (arith, length-take off b) in
    let whole = take off b ++ (new ++ rest) in
    let enough : leb (off + length new) (length whole) ≡ true =
      ground (arith, length-append (take off b) (new ++ rest), length-append new rest) in
    let some_bytes : (length new == 0) ≡ false = ground arith in
    record {
      after = some whole;
      returns = rw fits refl;
      reads =
          rw (some_bytes, enough)
            (ap some (
              ap (take (length new)) (drop-append_left (take off b) (new ++ rest) off front)
              ∙ take-append_left new rest (length new) refl));
    }

-- What `grow` leaves: room for the bytes, and nothing sent.
pub record Grown (new_size : ℕ) (s : Fs) (m_buf : Option (List Byte)) (blocks : ℕ) (s' : Fs)
    : Type 0 where
  pub fits : new_size ≤ room m_buf
  pub nodes : s'.nodes ≡ s.nodes
  pub replies : s'.replies ≡ s.replies
  pub cluster : s'.cluster ≡ s.cluster

enough_blocks : (b n : ℕ) → 0 < b → (n ≤ new_blocks_for b n * b) × (new_blocks_for b n * b < n + b)
enough_blocks b n h = ground (arith, div-add-mod' n b, mod-lt n h)

grow-Grown :
    (block_size : ℕ) (env : Env) (new_size : ℕ) (a : Stat) (m_buf : Option (List Byte)) (s : Fs)
    → 0 < block_size
    → ((n : ℕ) → env.alloc n ≡ true)
    → a.st_blocks * block_size ≤ room m_buf
    → room m_buf < 18446744073709551616
    → new_size + block_size < 18446744073709551616
    → let g = grow block_size env new_size a m_buf s in Grown new_size s g.0 g.1.0 g.1.1
unfolding grow update_used_blocks
grow-Grown block_size env new_size a m_buf s some_bytes memory backed small small' =
    let capacity : u64 (block_size * a.st_blocks) ≡ a.st_blocks * block_size = omega arith in
    elim (Bool-cases (ltb (u64 (block_size * a.st_blocks)) new_size)) [
      | inr holds ↦
          rw holds (record { fits = ground arith; nodes = refl; replies = refl; cluster = refl })
      | inl short ↦
          let n = new_blocks_for block_size new_size in
          let whole : u64 (n * block_size) ≡ n * block_size =
            omega (arith, enough_blocks block_size new_size some_bytes) in
          rw (short, memory (u64 (n * block_size)))
            (record {
              fits = omega (
                arith,
                length-realloc (u64 (n * block_size)) m_buf,
                enough_blocks block_size new_size some_bytes,
              );
              nodes = refl;
              replies = refl;
              cluster = refl;
            })
    ]

-- The inode that a write leaves.
abbrev pub written : Env → ℕ → ℕ → Option (List Byte) → INode → INode
written env new_size blocks m_buf x =
    let a = attr_of x in
    with_attr (with_kind x (file m_buf true)) (record a {
      st_blocks = blocks;
      st_size = if ltb a.st_size new_size then new_size else a.st_size;
      st_ctim = env.now;
      st_mtim = env.now;
    })

module _ (block_size : ℕ) (env : Env) (ino off : ℕ) (bytes : List Byte) (x : INode)
    (m_buf : Option (List Byte)) (waiting : Bool) (s : Fs)
    (found : get_inode ino s.nodes ≡ some (with_kind x (file m_buf waiting)))
    (some_bytes : 0 < block_size) (memory : (n : ℕ) → env.alloc n ≡ true)
    (backed : (attr_of x).st_blocks * block_size ≤ room m_buf)
    (small : room m_buf < 18446744073709551616)
    (fits : off + length bytes + block_size < 18446744073709551616) where
  abbrev pub size : ℕ
  size = off + length bytes

  exact : u64 (off + length bytes) ≡ size
  exact = omega arith

  abbrev pub grown : Option (List Byte) × (ℕ × Fs)
  grown = grow block_size env size (attr_of x) m_buf s

  pub grown_lem : Grown size s grown.0 grown.1.0 grown.1.1
  grown_lem = grow-Grown block_size env size (attr_of x) m_buf s some_bytes memory backed small fits

  pub copied : Copied off bytes grown.0
  copied = poke-Copied off bytes grown.0 grown_lem.fits

  abbrev pub new_inode : INode
  new_inode = written env size grown.1.0 copied.after x

  abbrev pub after_write : Fs
  after_write =
      reply (wrote (length bytes))
        (with_nodes grown.1.1 (set_inode_at ino new_inode grown.1.1.nodes))

  pub fuse_write-written : fuse_write block_size env ino (some bytes) off s ≡ some after_write
  unfolding fuse_write write_kind write_file
  fuse_write-written =
      with_inode-found ino s _ (with_kind x (file m_buf waiting)) found
      ∙ rw (exact, copied.returns) refl

  pub in_after : get_inode ino after_write.nodes ≡ some new_inode
  in_after =
      ap (λ ns. get_inode ino (set_inode_at ino new_inode ns)) grown_lem.nodes
      ∙ get_elem?-set_self s.nodes.inodes ino new_inode (get_elem?-lt s.nodes.inodes ino _ found)

  abbrev after_read : Env → Fs
  after_read later = reply (buf bytes) (
      with_nodes after_write (
        set_inode_at ino (with_attr new_inode (record (attr_of new_inode) { st_atim = later.now }))
          after_write.nodes))

  fuse_read-written :
      (later : Env) → fuse_read later ino (length bytes) off after_write ≡ some (after_read later)
  unfolding fuse_read read_kind read_file
  fuse_read-written later =
      let inside : ltb (attr_of new_inode).st_size off ≡ false = ground arith in
      let all : ltb (attr_of new_inode).st_size size ≡ false = ground arith in
      with_inode-found ino after_write
        (λ y. read_kind later ino (length bytes) off y y.kind after_write) new_inode in_after
      ∙ rw (inside, exact, all, copied.reads) refl

-- For a file with the memory that its block count promises (blocks of at least one byte, where
-- realloc finds memory and no size reaches 2 ^ 64 bytes), open or not: a write at any offset
-- returns and reports all its bytes, and a read of as many bytes at this offset returns and sends
-- exactly these.
pub fuse_read-fuse_write :
    (block_size : ℕ) (env later : Env) (ino off : ℕ) (bytes : List Byte) (x : INode)
    (m_buf : Option (List Byte)) (waiting : Bool) (s : Fs)
    → get_inode ino s.nodes ≡ some (with_kind x (file m_buf waiting))
    → 0 < block_size
    → ((n : ℕ) → env.alloc n ≡ true)
    → (attr_of x).st_blocks * block_size ≤ room m_buf
    → room m_buf < 18446744073709551616
    → off + length bytes + block_size < 18446744073709551616
    → (s' : Fs) × (s'' : Fs) × (fuse_write block_size env ino (some bytes) off s ≡ some s')
      × (fuse_read later ino (length bytes) off s' ≡ some s'')
      × (s''.replies ≡ buf bytes ∷ wrote (length bytes) ∷ s.replies)
fuse_read-fuse_write b env later ino off bytes x m_buf waiting s found some_bytes memory backed
      small fits =
    (
      after_write b env ino off bytes x m_buf waiting s found some_bytes memory backed small fits,
      after_read b env ino off bytes x m_buf waiting s found some_bytes memory backed small fits
          later,
      fuse_write-written b env ino off bytes x m_buf waiting s found some_bytes memory backed small
          fits,
      fuse_read-written b env ino off bytes x m_buf waiting s found some_bytes memory backed small
          fits later,
      ap (λ l. buf bytes ∷ wrote (length bytes) ∷ l)
          (grown_lem b env ino off bytes x m_buf waiting s found some_bytes memory backed small
            fits).replies,
    )
