-- ===== src/Map/Keys.antt =====
-- The key types of the program: inode numbers, and names as lists of bytes in their order.
use dagon_fs.Prelude.{ℕ, ◌≡◌, ◌↔◌, refl, compare, Ordering, List, [], ◌∷◌, arith}
use dagon_fs.Map.{Ord}

pub nat_cmp_eq : (a b : ℕ) → (compare a b ≡ Ordering.eq) ↔ (a ≡ b)
nat_cmp_eq a b = ground arith

instance abbrev pub nat_ord : Ord ℕ
nat_ord = record { cmp = compare; cmp_eq = nat_cmp_eq }

-- `std::string`
abbrev pub Name : Type 0
Name = List ℕ

-- `std::string::compare`, as three outcomes.
unfoldable pub name_cmp : Name → Name → Ordering
name_cmp [] [] = Ordering.eq
name_cmp [] (b ∷ y) = Ordering.lt
name_cmp (a ∷ x) [] = Ordering.gt
name_cmp (a ∷ x) (b ∷ y) = elim (compare a b) [
  | Ordering.lt ↦ Ordering.lt
  | Ordering.eq ↦ name_cmp x y
  | Ordering.gt ↦ Ordering.gt
]

pub name_cmp_eq : (a b : Name) → (name_cmp a b ≡ Ordering.eq) ↔ (a ≡ b)
unfolding name_cmp
name_cmp_eq [] [] = (λ h. refl, λ h. refl)
name_cmp_eq [] (b ∷ y) = ground arith
name_cmp_eq (a ∷ x) [] = ground arith
name_cmp_eq (a ∷ x) (b ∷ y) = ground (arith, name_cmp_eq x y)

instance abbrev pub name_ord : Ord Name
name_ord = record { cmp = name_cmp; cmp_eq = name_cmp_eq }
