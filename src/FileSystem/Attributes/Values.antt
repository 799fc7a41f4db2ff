-- ===== src/FileSystem/Attributes/Values.antt =====
-- Writing, reading and removing an extended attribute.
use dagon_fs.Prelude.{
  ℕ, ◌<◌, ◌≡◌, ◌∙◌, refl, ap, sym, true, false, some, List, [], ◌∷◌, ◌++◌, arith, length, drop, ltb,
  ◌==◌, Bool-cases, Option-cases, inl, inr, get_elem?-set_self, get_elem?-lt, take-append_left,
  length-append, append-nil,
}
use dagon_fs.Map.{find, insert, erase}
use dagon_fs.Map.Keys.{Name, name_ord}
use dagon_fs.Map.Laws.{find-insert_self, find-erase_self}
use dagon_fs.Cluster.{Byte}
use dagon_fs.Nodes.{INode, get_inode, set_inode_at}
use dagon_fs.FileSystem.{Fs, Env, success, enodata, err, buf, reply, with_nodes}
use dagon_fs.FileSystem.Guards.{with_inode-found}
use dagon_fs.FileSystem.Attributes.{
  store_xattr, set_xattr, remove_xattr, fuse_set_xattr, get_xattr, fuse_get_xattr,
  fuse_remove_xattr,
}

-- An attribute that was written: the value, and what was behind it.
record Stored (name : Name) (value : List Byte) (x y : INode) : Type 0 where
  rest : List Byte
  found : find name y.xattr ≡ some (value ++ rest)

store_xattr-Stored :
    (env : Env) (name : Name) (value current : List Byte) (x : INode)
    → ((n : ℕ) → env.alloc n ≡ true)
    → (y : INode) × (store_xattr env name value current x ≡ (success, y)) × Stored name value x y
unfolding store_xattr
store_xattr-Stored env name value current x memory =
    elim (Bool-cases (ltb (length current) (length value))) [
      | inl longer ↦ (
        record x { xattr = insert name value x.xattr },
        rw (longer, memory (length value)) refl,
        record {
          rest = [];
          found = find-insert_self name value x.xattr ∙ ap some (sym (append-nil value));
        },
      )
      | inr shorter ↦ (
        record x { xattr = insert name (value ++ drop (length value) current) x.xattr },
        rw shorter refl,
        record { rest = drop (length value) current; found = find-insert_self name _ x.xattr },
      )
    ]

set_xattr-Stored :
    (env : Env) (name : Name) (value : List Byte) (x : INode)
    → ((n : ℕ) → env.alloc n ≡ true)
    → (y : INode) × (set_xattr env name value false false x ≡ (success, y)) × Stored name value x y
unfolding set_xattr
set_xattr-Stored env name value x memory = elim (Option-cases (find name x.xattr)) [
  | inl missing ↦
      let (y, e, t) = store_xattr-Stored env name value [] x memory in
      (y, rw (missing, set_xattr) e, t)
  | inr (current, there) ↦
      let (y, e, t) = store_xattr-Stored env name value current x memory in
      (y, rw (there, set_xattr) e, t)
]

get_xattr-Stored :
    (name : Name) (value : List Byte) (x y : INode) (s : Fs)
    → Stored name value x y
    → 0 < length value
    → get_xattr name (length value) y s ≡ some (reply (buf value) s)
get_xattr-Stored name value x y s t some_bytes =
    let whole = value ++ t.rest in
    let asked : (length value == 0) ≡ false = ground arith in
    let enough : ltb (length whole) (length value) ≡ false =
      ground (arith, length-append value t.rest) in
    rw (t.found, get_xattr, asked, enough, take-append_left value t.rest (length value) refl) refl

-- Where the inode exists and realloc finds memory, a setxattr without flags of a value that is
-- not empty returns and replies with success, and a getxattr for as many bytes then sends the
-- value, whether the attribute was there before or not.
fuse_get_xattr-fuse_set_xattr :
    (env : Env) (ino : ℕ) (name : Name) (value : List Byte) (x : INode) (s : Fs)
    → get_inode ino s.nodes ≡ some x
    → ((n : ℕ) → env.alloc n ≡ true)
    → 0 < length value
    → (s' : Fs) × (s'' : Fs) × (fuse_set_xattr env ino name value false false s ≡ some s')
      × (fuse_get_xattr ino name (length value) s' ≡ some s'')
      × (s''.replies ≡ buf value ∷ err success ∷ s.replies)
unfolding fuse_set_xattr fuse_get_xattr
fuse_get_xattr-fuse_set_xattr env ino name value x s found memory some_bytes =
    let (y, done, stored) = set_xattr-Stored env name value x memory in
    let s' = reply (err success) (with_nodes s (set_inode_at ino y s.nodes)) in
    let here = get_elem?-set_self s.nodes.inodes ino y (get_elem?-lt s.nodes.inodes ino x found) in
    (
      s',
      reply (buf value) s',
      with_inode-found ino s _ x found ∙ rw done refl,
      with_inode-found ino s' (λ z. get_xattr name (length value) z s') y here
          ∙ get_xattr-Stored name value x y s' stored some_bytes,
      refl,
    )

-- Where the inode exists and has the attribute, removexattr returns and replies with success, and
-- a getxattr of any size then sends ENODATA.
fuse_get_xattr-fuse_remove_xattr :
    (ino size : ℕ) (name : Name) (value : List Byte) (x : INode) (s : Fs)
    → get_inode ino s.nodes ≡ some x
    → find name x.xattr ≡ some value
    → (s' : Fs) × (s'' : Fs) × (fuse_remove_xattr ino name s ≡ some s')
      × (fuse_get_xattr ino name size s' ≡ some s'')
      × (s''.replies ≡ err enodata ∷ err success ∷ s.replies)
unfolding fuse_remove_xattr remove_xattr fuse_get_xattr
fuse_get_xattr-fuse_remove_xattr ino size name value x s found there =
    let y = record x { xattr = erase name x.xattr } in
    let s' = reply (err success) (with_nodes s (set_inode_at ino y s.nodes)) in
    let here = get_elem?-set_self s.nodes.inodes ino y (get_elem?-lt s.nodes.inodes ino x found) in
    (
      s',
      reply (err enodata) s',
      with_inode-found ino s _ x found ∙ rw (there, remove_xattr) refl,
      with_inode-found ino s' (λ z. get_xattr name size z s') y here
          ∙ rw (find-erase_self name x.xattr, get_xattr) refl,
      refl,
    )
