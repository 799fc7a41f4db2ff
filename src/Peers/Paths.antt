-- ===== src/Peers/Paths.antt =====
-- The names that the processes of the peer-to-peer program announce, as paths in the tree.
pub mod Made
pub mod Synced
pub mod Announced
pub mod Stale
use dagon_fs.Prelude.{
  ℕ, zero, suc, ◌≡◌, ◌≢◌, refl, ap, sym, ◌∙◌, subst, Option, none, some, List, [], ◌∷◌, ◌++◌, arith,
  length, get_elem?, inl, inr, Bool, true, false, Bool-cases, if◌then◌else◌, ◌>>=◌, ℕ_discrete,
  some-injective, ◌<◌,
}
use dagon_fs.Map.{Map, insert, find}
use dagon_fs.Map.Keys.{Name, name_ord}
use dagon_fs.Map.Laws.{find-insert, find-insert_self, same, eq_of_same}
use dagon_fs.FileSystem.Namespace.{Tree, dir_at, put, added}
use dagon_fs.FileSystem.Namespace.Added.{dir_at-put, dir_at-append, dir_at-added}
use dagon_fs.Peers.Handlers.{slash}

-- The number of the root directory.
abbrev pub root : ℕ
root = 1

-- What stands between two separators of a path.
abbrev pub IsComponent : Name → Type 0
IsComponent name = (name ≢ []) × ((i : ℕ) → get_elem? name i ≢ some 47)

-- A path, with a separator at its end, leads from the root to an inode.
pub data Walks (tree : Tree) : Name → ℕ → Type 0 where
  at_root : Walks tree slash root
  at_child :
      (path name : Name) (parent ino : ℕ) (children : Map Name ℕ)
      → Walks tree path parent
      → dir_at parent tree ≡ some children
      → find name children ≡ some ino
      → IsComponent name
      → Walks tree (path ++ (name ++ slash)) ino

-- Each directory has at least the children that it had.
abbrev pub Extends : Tree → Tree → Type 0
Extends tree tree' =
    (ino : ℕ) (children : Map Name ℕ)
    → dir_at ino tree ≡ some children
    → (children' : Map Name ℕ) × (dir_at ino tree' ≡ some children')
      × ((name : Name) (child : ℕ)
          → find name children ≡ some child
          → find name children' ≡ some child)

Walks-Extends :
    (tree tree' : Tree) (path : Name) (ino : ℕ)
    → Extends tree tree'
    → Walks tree path ino
    → Walks tree' path ino
Walks-Extends tree tree' _ _ more at_root = at_root
Walks-Extends tree tree' _ _ more
      (at_child path name parent ino children walks is_dir is_child proper) =
    let (children', is_dir', kept) = more parent children is_dir in
    at_child path name parent ino children' (Walks-Extends tree tree' path parent more walks)
      is_dir' (kept name ino is_child) proper

pub dir_at-put_ne :
    (i j : ℕ) (f : Map Name ℕ → Map Name ℕ) (tree : Tree)
    → i ≢ j
    → dir_at j (put i f tree) ≡ dir_at j tree
unfolding put
dir_at-put_ne i j f [] apart = refl
dir_at-put_ne zero zero f (entry ∷ tree) apart = absurd (apart refl)
dir_at-put_ne zero (suc j) f (entry ∷ tree) apart = refl
dir_at-put_ne (suc i) zero f (entry ∷ tree) apart = refl
dir_at-put_ne (suc i) (suc j) f (entry ∷ tree) apart = dir_at-put_ne i j f tree (omega arith)

find-insert_fresh :
    (name : Name) (ino : ℕ) (children : Map Name ℕ)
    → find name children ≡ none
    → (k : Name) (child : ℕ) → find k children ≡ some child
    → find k (insert name ino children) ≡ some child
find-insert_fresh name ino children free k child e = elim (Bool-cases (same k name)) [
  | inl equal ↦ cc (subst (λ t. find t children ≡ some child) (eq_of_same k name equal) e)
  | inr other ↦ find-insert k name ino children ∙ rw (other, if◌then◌else◌) e
]

-- A name that was free and is given to a new inode takes nothing away.
added-Extends :
    (entry : Option (Map Name ℕ)) (parent : ℕ) (name : Name) (tree : Tree) (old : Map Name ℕ)
    → dir_at parent tree ≡ some old
    → find name old ≡ none
    → Extends tree (added entry parent name tree)
added-Extends entry parent name tree old is_dir free ino children e = elim (ℕ_discrete parent ino) [
  | yes here ↦
      let at_ino : dir_at ino tree ≡ some old = subst (λ t. dir_at t tree ≡ some old) here is_dir in
      let is_old : children ≡ old = some-injective _ _ (sym e ∙ at_ino) in
      (
        insert name (length tree) old,
        subst (λ t. dir_at t (added entry parent name tree) ≡ some (insert name (length tree) old))
            here (dir_at-added entry parent name tree old is_dir),
        λ k child found.
            find-insert_fresh name (length tree) old free k child
              (ap (find k) (sym is_old) ∙ found),
      )
  | no apart ↦ (
    children,
    dir_at-put_ne parent ino (insert name (length tree)) (tree ++ entry ∷ []) apart
        ∙ dir_at-append ino tree (entry ∷ []) children e,
    λ k child found. found,
  )
]

-- The path of a new directory leads to it.
pub added-Walks :
    (path name : Name) (parent : ℕ) (tree : Tree) (old : Map Name ℕ)
    → Walks tree path parent
    → dir_at parent tree ≡ some old
    → find name old ≡ none
    → IsComponent name
    → Walks (added (some []) parent name tree) (path ++ (name ++ slash)) (length tree)
added-Walks path name parent tree old walks is_dir free proper =
    at_child path name parent (length tree) (insert name (length tree) old)
      (Walks-Extends tree (added (some []) parent name tree) path parent
        (added-Extends (some []) parent name tree old is_dir free) walks)
      (dir_at-added (some []) parent name tree old is_dir) (find-insert_self name (length tree) old)
      proper
