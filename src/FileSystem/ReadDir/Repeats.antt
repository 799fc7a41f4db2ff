-- ===== src/FileSystem/ReadDir/Repeats.antt =====
-- Lists that repeat the entries of another one.
use dagon_fs.Prelude.{
  ℕ, zero, suc, ◌+◌, ◌-◌, ◌≤◌, ◌<◌, ◌≡◌, ◌∙◌, sym, ap, subst, [], ◌∷◌, ◌++◌, length, take, drop,
  drop_add, arith, ℕ_discrete,
}
use dagon_fs.Map.{Map}
use dagon_fs.Map.Keys.{Name}

-- The second list has the entries of the first in their order, and each once or several times in
-- a row.
pub data Repeats : Map Name ℕ → Map Name ℕ → Type 0 where
  no_more : Repeats [] []
  once : (e : Name × ℕ) {xs ys : Map Name ℕ} → Repeats xs ys → Repeats (e ∷ xs) (e ∷ ys)
  again : (e : Name × ℕ) {xs ys : Map Name ℕ} → Repeats (e ∷ xs) ys → Repeats (e ∷ xs) (e ∷ ys)

Repeats-take : (k : ℕ) (xs ys : Map Name ℕ) → Repeats (drop k xs) ys → Repeats xs (take k xs ++ ys)
Repeats-take zero xs ys r = r
Repeats-take (suc k) [] ys r = r
Repeats-take (suc k) (x ∷ xs) ys r = once x (Repeats-take k xs ys r)

Repeats-again :
    (k : ℕ) (xs ys : Map Name ℕ)
    → k < length xs
    → Repeats (drop k xs) ys
    → Repeats xs (take (suc k) xs ++ ys)
Repeats-again zero [] ys h r = r
Repeats-again zero (x ∷ xs) ys h r = again x r
Repeats-again (suc k) [] ys h r = r
Repeats-again (suc k) (x ∷ xs) ys h r = once x (Repeats-again k xs ys (omega arith) r)

-- What a request sends in front of what the later ones list, if they go on behind it or one back.
pub Repeats-front :
    (k at : ℕ) (xs ys : Map Name ℕ)
    → k ≤ length xs
    → at ≤ k
    → k ≤ suc at
    → Repeats (drop at xs) ys
    → Repeats xs (take k xs ++ ys)
Repeats-front k at xs ys few below above later = elim (ℕ_discrete at k) [
  | yes behind ↦ Repeats-take k xs ys (subst (λ n. Repeats (drop n xs) ys) behind later)
  | no back ↦
      let one : k ≡ suc at = omega arith in
      subst (λ n. Repeats xs (take n xs ++ ys)) (sym one)
        (Repeats-again at xs ys (omega arith) later)
]

pub Repeats-chunk :
    (at at' k : ℕ) (xs : Map Name ℕ) (e : Name × ℕ) (rest ys : Map Name ℕ)
    → drop at xs ≡ e ∷ rest
    → k ≤ length rest
    → at' ≤ at + suc k
    → at + suc k ≤ suc at'
    → at ≤ at'
    → Repeats (drop at' xs) ys
    → Repeats (drop at xs) (e ∷ take k rest ++ ys)
Repeats-chunk at at' k xs e rest ys here few below above ahead later =
    let split : at' ≡ at + (at' - at) = omega arith in
    let moved : drop at' xs ≡ drop (at' - at) (e ∷ rest) =
      ap (λ n. drop n xs) split ∙ drop_add at (at' - at) xs ∙ ap (drop (at' - at)) here in
    subst (λ t. Repeats t (e ∷ take k rest ++ ys)) (sym here)
      (Repeats-front (suc k) (at' - at) (e ∷ rest) ys (omega arith) (omega arith) (omega arith)
        (subst (λ t. Repeats t ys) moved later))
