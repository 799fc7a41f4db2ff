-- ===== src/FileSystem/Namespace/Added.antt =====
-- What stands in a directory after a name was added to it.
use dagon_fs.Prelude.{
  ℕ, zero, suc, ◌≡◌, refl, ap, ◌∙◌, Option, some, [], ◌∷◌, ◌++◌, arith, length, length-append,
}
use dagon_fs.Map.{Map, insert}
use dagon_fs.Map.Keys.{Name, name_ord}
use dagon_fs.FileSystem.Namespace.{Tree, dir_at, put, added}

pub dir_at-put :
    (i : ℕ) (f : Map Name ℕ → Map Name ℕ) (tree : Tree) (children : Map Name ℕ)
    → dir_at i tree ≡ some children
    → dir_at i (put i f tree) ≡ some (f children)
unfolding put
dir_at-put i f [] children e = cc
dir_at-put zero f (entry ∷ tree) children e = rw e refl
dir_at-put (suc i) f (entry ∷ tree) children e = dir_at-put i f tree children e

pub dir_at-append :
    (i : ℕ) (tree more : Tree) (children : Map Name ℕ)
    → dir_at i tree ≡ some children
    → dir_at i (tree ++ more) ≡ some children
dir_at-append i [] more children e = cc
dir_at-append zero (entry ∷ tree) more children e = e
dir_at-append (suc i) (entry ∷ tree) more children e = dir_at-append i tree more children e

length-put :
    (i : ℕ) (f : Map Name ℕ → Map Name ℕ) (tree : Tree) → length (put i f tree) ≡ length tree
unfolding put
length-put i f [] = refl
length-put zero f (entry ∷ tree) = refl
length-put (suc i) f (entry ∷ tree) = ap suc (length-put i f tree)

pub dir_at-added :
    (entry : Option (Map Name ℕ)) (parent : ℕ) (name : Name) (tree : Tree) (children : Map Name ℕ)
    → dir_at parent tree ≡ some children
    → dir_at parent (added entry parent name tree) ≡ some (insert name (length tree) children)
dir_at-added entry parent name tree children e =
    dir_at-put parent (insert name (length tree)) (tree ++ entry ∷ []) children
      (dir_at-append parent tree (entry ∷ []) children e)

pub length-added :
    (entry : Option (Map Name ℕ)) (parent : ℕ) (name : Name) (tree : Tree)
    → length (added entry parent name tree) ≡ suc (length tree)
length-added entry parent name tree =
    length-put parent (insert name (length tree)) (tree ++ entry ∷ [])
    ∙ omega (arith, length-append tree (entry ∷ []))
