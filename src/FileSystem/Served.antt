-- ===== src/FileSystem/Served.antt =====
-- What every handler owes FUSE on a well-formed file system: it returns, the file system is well
-- formed again, and exactly one reply was sent. The lemmas follow the handlers' guards.
pub mod Inodes
pub mod Removal
pub mod Files
pub mod ReadDir
pub mod Entries
pub mod Links
pub mod Attributes
use dagon_fs.Prelude.{
  ℕ, ◌≤◌, ◌<◌, ◌≡◌, refl, sym, ap, ◌∙◌, subst, inl, inr, Option, none, some, Bool, true, false,
  if◌then◌else◌, ◌≢◌, ◌∷◌, arith, length-set, get_elem?-inside, Bool-cases, Option-cases, leb, ◌==◌,
  ◌>>=◌,
}
use dagon_fs.Map.{Map, find}
use dagon_fs.Map.Keys.{Name, name_ord}
use dagon_fs.Nodes.{
  INode, Nodes, number_of_inodes, get_inode, set_inode_at, modify_inode, as_directory, no_ino,
  child_inode_number_with_name,
}
use dagon_fs.Nodes.WellFormed.{
  IsWellFormed, IsGood, Preserves, set_inode_at-IsWellFormed, modify_inode-IsWellFormed,
  number_of_inodes-modify_inode,
}
use dagon_fs.FileSystem.{
  Fs, Reply, err, enoent, Errno, reply, answer, with_nodes, with_inode, with_directory, with_child,
}

pub record Served (s : Fs) (o : Option Fs) : Type 0 where
  pub after : Fs
  pub returns : o ≡ some after
  pub wf : IsWellFormed after.nodes
  pub grows : number_of_inodes s.nodes ≤ number_of_inodes after.nodes
  pub sent : Reply
  pub one_reply : after.replies ≡ sent ∷ s.replies

-- Nodes that are well formed and have the numbers of the first.
pub record Kept (ns ns' : Nodes) : Type 0 where
  pub wf : IsWellFormed ns'
  pub count : number_of_inodes ns' ≡ number_of_inodes ns

pub Kept-modify_inode :
    (ns ns' : Nodes) (i : ℕ) (f : INode → INode)
    → Kept ns ns'
    → Preserves (number_of_inodes ns) f
    → Kept ns (modify_inode i f ns')
Kept-modify_inode ns ns' i f k p = record {
  wf = modify_inode-IsWellFormed ns' i f k.wf (subst (λ n. Preserves n f) (sym k.count) p);
  count = omega (arith, number_of_inodes-modify_inode ns' i f, k.count);
}

pub Kept-set_inode_at :
    (ns : Nodes) (i : ℕ) (v : INode)
    → IsWellFormed ns
    → IsGood (number_of_inodes ns) i v
    → Kept ns (set_inode_at i v ns)
Kept-set_inode_at ns i v w g = record {
  wf = set_inode_at-IsWellFormed ns i v w g;
  count = length-set ns.inodes i v;
}

pub Kept-trans : (a b c : Nodes) → Kept a b → Kept b c → Kept a c
Kept-trans a b c k l = record { wf = l.wf; count = l.count ∙ k.count }

-- What is sent after steps that send nothing.
pub Served-after :
    (s s' : Fs) (o : Option Fs)
    → number_of_inodes s.nodes ≤ number_of_inodes s'.nodes
    → s'.replies ≡ s.replies
    → Served s' o
    → Served s o
Served-after s s' o more quiet t = record {
  after = t.after;
  returns = t.returns;
  wf = t.wf;
  grows = omega (arith, t.grows);
  sent = t.sent;
  one_reply = t.one_reply ∙ ap (λ l. t.sent ∷ l) quiet;
}

module _ (s : Fs) (w : IsWellFormed s.nodes) where
  pub Kept-refl : Kept s.nodes s.nodes
  Kept-refl = record { wf = w; count = refl }

  pub answer-Served : (r : Reply) → Served s (answer r s)
  answer-Served r = record {
    after = reply r s;
    returns = refl;
    wf = w;
    grows = omega arith;
    sent = r;
    one_reply = refl;
  }

  pub answer_nodes-Served :
      (r : Reply) (ns : Nodes) → Kept s.nodes ns → Served s (answer r (with_nodes s ns))
  answer_nodes-Served r ns k = record {
    after = reply r (with_nodes s ns);
    returns = refl;
    wf = k.wf;
    grows = omega (arith, k.count);
    sent = r;
    one_reply = refl;
  }

  pub get_inode-Served :
      (ino : ℕ) (k : INode → Option Fs)
      → ino < number_of_inodes s.nodes
      → ((x : INode) → get_inode ino s.nodes ≡ some x → Served s (k x))
      → Served s (get_inode ino s.nodes >>= k)
  get_inode-Served ino k h served =
      let (x, found) = get_elem?-inside s.nodes.inodes ino h in rw found (served x found)

  pub with_inode-Served :
      (ino : ℕ) (k : INode → Option Fs)
      → ((x : INode) → get_inode ino s.nodes ≡ some x → Served s (k x))
      → Served s (with_inode ino s k)
  with_inode-Served ino k served = elim (Bool-cases (leb (number_of_inodes s.nodes) ino)) [
    | inl out ↦ rw out (answer-Served (err enoent))
    | inr inside ↦ rw inside (get_inode-Served ino k (ground arith) served)
  ]

  pub with_directory-Served :
      (ino : ℕ) (wrong : Errno) (k : Map Name ℕ → Option Fs)
      → ((x : INode) (children : Map Name ℕ)
          → get_inode ino s.nodes ≡ some x
          → as_directory x ≡ some children
          → Served s (k children))
      → Served s (with_directory ino wrong s k)
  with_directory-Served ino wrong k served = with_inode-Served ino _ λ x found.
      elim (Option-cases (as_directory x)) [
        | inl other ↦ rw other (answer-Served (err wrong))
        | inr (children, is_dir) ↦ rw is_dir (served x children found is_dir)
      ]

  pub with_child-Served :
      (ino : ℕ) (x : INode) (name : Name) (children : Map Name ℕ) (k : ℕ → Option Fs)
      → get_inode ino s.nodes ≡ some x
      → as_directory x ≡ some children
      → ((c : ℕ) → c < number_of_inodes s.nodes → Served s (k c))
      → Served s (with_child name children s k)
  unfolding child_inode_number_with_name
  with_child-Served ino x name children k found is_dir served =
      elim (Option-cases (find name children)) [
        | inl missing ↦ rw (missing, child_inode_number_with_name) (answer-Served (err enoent))
        | inr (c, is_child) ↦ elim (Bool-cases (c == no_ino)) [
          | inl same ↦
              rw (is_child, child_inode_number_with_name, same) (answer-Served (err enoent))
          | inr other ↦
              rw (is_child, child_inode_number_with_name, other)
                (served c ((w.good ino x found).children children name c is_dir is_child))
        ]
      ]

  pub if-Served :
      (b : Bool) (o p : Option Fs) → Served s o → Served s p → Served s (if b then o else p)
  if-Served true o p h k = h
  if-Served false o p h k = k

  as_directory-Served :
      (x : INode) (o : Option Fs) (k : Map Name ℕ → Option Fs)
      → Served s o
      → ((children : Map Name ℕ) → as_directory x ≡ some children → Served s (k children))
      → Served s (elim (as_directory x) [ none ↦ o | some children ↦ k children ])
  as_directory-Served x o k other served = elim (Option-cases (as_directory x)) [
    | inl not_dir ↦ rw not_dir other
    | inr (children, is_dir) ↦ rw is_dir (served children is_dir)
  ]

  bind-Served {ℓ} :
      {A : Type ℓ} (o : Option A) (a : A) (k : A → Option Fs)
      → o ≡ some a
      → Served s (k a)
      → Served s (o >>= k)
  bind-Served o a k e served = rw e served

  -- The number that `ChildINodeNumberWithName` gives, unless it is -1.
  pub child-below :
      (ino : ℕ) (x : INode) (name : Name) (children : Map Name ℕ)
      → get_inode ino s.nodes ≡ some x
      → as_directory x ≡ some children
      → child_inode_number_with_name name children ≢ no_ino
      → child_inode_number_with_name name children < number_of_inodes s.nodes
  unfolding child_inode_number_with_name
  child-below ino x name children found is_dir real = elim (Option-cases (find name children)) [
    | inl missing ↦ absurd (real (rw (missing, child_inode_number_with_name) refl))
    | inr (c, is_child) ↦
        rw (is_child, child_inode_number_with_name)
          ((w.good ino x found).children children name c is_dir is_child)
  ]
