-- ===== src/Prelude/Slices.antt =====
-- Cutting lists into consecutive pieces, and sums.
use Prim.Native.Nat.{ℕ, zero, suc, ◌+◌, ◌*◌, ◌≤◌}
use Prim.Native.Nat.add
use mathlib.Core.Path.{◌≡◌, refl, ap}
use mathlib.Core.List.{List, [], ◌∷◌, ◌++◌, map, flatten}
use native.Mathlib.Omega.{arith}
use dagon_fs.Prelude.Lists.{length, length-append, take, drop}

abbrev pub sum : List ℕ → ℕ
sum [] = 0
sum (x ∷ xs) = x + sum xs

pub sum-map-mul : (k : ℕ) (xs : List ℕ) → sum (map (λ x. x * k) xs) ≡ sum xs * k
sum-map-mul k [] = omega arith
sum-map-mul k (x ∷ xs) = omega (arith, sum-map-mul k xs)

module _ {ℓ} {A : Type ℓ} where
  pub take_zero_of_eq : (n : ℕ) (xs : List A) → n ≡ 0 → take n xs ≡ []
  take_zero_of_eq zero xs e = refl
  take_zero_of_eq (suc n) xs e = absurd (omega arith)

  drop_nil : (n : ℕ) → drop {A = A} n [] ≡ []
  drop_nil zero = refl
  drop_nil (suc n) = refl

  take_nil : (n : ℕ) → take {A = A} n [] ≡ []
  take_nil zero = refl
  take_nil (suc n) = refl

  pub drop_add : (m n : ℕ) (xs : List A) → drop (m + n) xs ≡ drop n (drop m xs)
  drop_add zero n xs = rw add.zero refl
  drop_add (suc m) n [] = rw (drop_nil, drop_nil) refl
  drop_add (suc m) n (x ∷ xs) = rw add.suc (drop_add m n xs)

  pub take_add : (m n : ℕ) (xs : List A) → take (m + n) xs ≡ take m xs ++ take n (drop m xs)
  take_add zero n xs = rw add.zero refl
  take_add (suc m) n [] = rw (take_nil, take_nil) refl
  take_add (suc m) n (x ∷ xs) = rw add.suc (ap (λ t. x ∷ t) (take_add m n xs))

  pub take_all : (n : ℕ) (xs : List A) → length xs ≤ n → take n xs ≡ xs
  take_all zero [] h = refl
  take_all zero (x ∷ xs) h = absurd (omega arith)
  take_all (suc n) [] h = refl
  take_all (suc n) (x ∷ xs) h = ap (λ t. x ∷ t) (take_all n xs (omega arith))

  pub take-append_left : (xs ys : List A) (n : ℕ) → n ≡ length xs → take n (xs ++ ys) ≡ xs
  take-append_left [] ys n e = take_zero_of_eq n ys e
  take-append_left (x ∷ xs) ys zero e = absurd (omega arith)
  take-append_left (x ∷ xs) ys (suc n) e = ap (λ t. x ∷ t) (take-append_left xs ys n (omega arith))

  pub drop-append_left : (xs ys : List A) (n : ℕ) → n ≡ length xs → drop n (xs ++ ys) ≡ ys
  drop-append_left [] ys zero e = refl
  drop-append_left [] ys (suc n) e = absurd (omega arith)
  drop-append_left (x ∷ xs) ys zero e = absurd (omega arith)
  drop-append_left (x ∷ xs) ys (suc n) e = drop-append_left xs ys n (omega arith)

pub length-flatten {ℓ} :
    {A : Type ℓ} (parts : List (List A)) → length (flatten parts) ≡ sum (map length parts)
unfolding flatten
length-flatten [] = refl
length-flatten (p ∷ parts) = omega (arith, length-append p (flatten parts), length-flatten parts)
