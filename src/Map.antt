-- ===== src/Map.antt =====
-- `std::map`: an association list in the order of its keys, over any key type with a comparison.
-- A client uses the laws of `Map.Laws`.
pub mod Laws
pub mod Keys
use dagon_fs.Prelude.{◌≡◌, ◌↔◌, Ordering, Option, none, some, List, [], ◌∷◌}

-- What `std::less` gives on a key type.
pub record Ord (K : Type 0) : Type 0 where
  pub cmp : K → K → Ordering
  pub cmp_eq : (a b : K) → (cmp a b ≡ Ordering.eq) ↔ (a ≡ b)

abbrev pub Map : Type 0 → Type 0 → Type 0
Map K V = List (K × V)

module _ {K V : Type 0} ⦃o : Ord K⦄ where
  -- `find`: `none` is `end()`.
  unfoldable pub find : K → Map K V → Option V
  find k [] = none
  find k ((j, v) ∷ m) = elim (o.cmp k j) [ Ordering.eq ↦ some v | _ ↦ find k m ]

  -- `m[k] = v`
  unfoldable pub insert : K → V → Map K V → Map K V
  insert k v [] = (k, v) ∷ []
  insert k v ((j, w) ∷ m) = elim (o.cmp k j) [
    | Ordering.lt ↦ (k, v) ∷ (j, w) ∷ m
    | Ordering.eq ↦ (k, v) ∷ m
    | Ordering.gt ↦ (j, w) ∷ insert k v m
  ]

  -- `m.erase(k)`
  unfoldable pub erase : K → Map K V → Map K V
  erase k [] = []
  erase k ((j, w) ∷ m) = elim (o.cmp k j) [ Ordering.eq ↦ erase k m | _ ↦ (j, w) ∷ erase k m ]
