-- ===== src/Map/Laws.antt =====
-- Reading a map after a write or an erasure.
use dagon_fs.Prelude.{◌≡◌, Ordering, Bool, true, false, none, some, [], ◌∷◌, arith, if◌then◌else◌}
use dagon_fs.Map.{Ord, Map, find, insert, erase}

module _ {K : Type 0} ⦃o : Ord K⦄ where
  -- Two keys are the same key.
  abbrev pub same : K → K → Bool
  same a b = elim (o.cmp a b) [ Ordering.eq ↦ true | _ ↦ false ]

  pub same_refl : (a : K) → same a a ≡ true
  same_refl a = ground (arith, o.cmp_eq a a)

  pub eq_of_same : (a b : K) → same a b ≡ true → a ≡ b
  eq_of_same a b h = ground (arith, o.cmp_eq a b)

module _ {K V : Type 0} ⦃o : Ord K⦄ where
  pub find-insert :
      (j k : K) (v : V) (m : Map K V)
      → find j (insert k v m) ≡ (if same j k then some v else find j m)
  unfolding find insert
  find-insert j k v [] = ground arith
  find-insert j k v ((i, w) ∷ m) =
      ground (arith, o.cmp_eq k i, o.cmp_eq j i, o.cmp_eq j k, find-insert j k v m)

  pub find-erase :
      (j k : K) (m : Map K V) → find j (erase k m) ≡ (if same j k then none else find j m)
  unfolding find erase
  find-erase j k [] = ground arith
  find-erase j k ((i, w) ∷ m) =
      ground (arith, o.cmp_eq k i, o.cmp_eq j i, o.cmp_eq j k, find-erase j k m)

  pub find-insert_self : (k : K) (v : V) (m : Map K V) → find k (insert k v m) ≡ some v
  find-insert_self k v m = ground (arith, find-insert k k v m, same_refl k)

  pub find-erase_self : (k : K) (m : Map K V) → find k (erase k m) ≡ none
  find-erase_self k m = ground (arith, find-erase k k m, same_refl k)
