-- ===== src/Base/HashMap.antt =====
-- `std::collections::HashMap` with numbers as keys. The order of the entries stands for the table's
-- order of iteration, so a result that depends on it shows in the model.
use sonicbrew.Base.Tests.{◌==◌, if◌then◌else◌, Bool-cases, ==_iff}
use sonicbrew.Base.Lists.{length, All}
use Prim.Native.Nat.{ℕ, ◌+◌}
use mathlib.Core.Path.{◌≡◌, refl, subst, ap}
use mathlib.Core.Logic.{◌≢◌, inl, inr}
use mathlib.Core.Bool.{Bool, true, false}
use mathlib.Core.Option.{Option, none, some}
use mathlib.Core.List.{List, [], ◌∷◌}
use native.Mathlib.Omega.{arith}

abbrev pub HashMap {ℓ} : Type ℓ → Type ℓ
HashMap V = List (ℕ × V)

module _ {ℓ} {V : Type ℓ} where
  unfoldable pub get : ℕ → HashMap V → Option V
  get k [] = none
  get k ((j, v) ∷ m) = if j == k then some v else get k m

  unfoldable pub contains_key : ℕ → HashMap V → Bool
  contains_key k [] = false
  contains_key k ((j, v) ∷ m) = if j == k then true else contains_key k m

  unfoldable pub remove : ℕ → HashMap V → HashMap V
  remove k [] = []
  remove k ((j, v) ∷ m) = let rest = remove k m in if j == k then rest else (j, v) ∷ rest

  unfoldable pub insert : ℕ → V → HashMap V → HashMap V
  insert k v [] = (k, v) ∷ []
  insert k v ((j, w) ∷ m) = let rest = insert k v m in if j == k then (k, v) ∷ m else (j, w) ∷ rest

  -- Each key stands in one entry.
  abbrev pub Distinct : HashMap V → Type 0
  Distinct [] = Unit {0}
  Distinct ((k, v) ∷ m) = (contains_key k m ≡ false) × Distinct m

  pub get-insert :
      (k j : ℕ) (v : V) (m : HashMap V)
      → get j (insert k v m) ≡ (if k == j then some v else get j m)
  unfolding get insert
  get-insert k j v [] = refl
  get-insert k j v ((i, w) ∷ m) = ground (arith, get-insert k j v m)

  pub get-remove :
      (k j : ℕ) (m : HashMap V) → get j (remove k m) ≡ (if k == j then none else get j m)
  unfolding get remove
  get-remove k j [] = ground arith
  get-remove k j ((i, w) ∷ m) = ground (arith, get-remove k j m)

  pub contains_key-insert :
      (k j : ℕ) (v : V) (m : HashMap V)
      → contains_key j (insert k v m) ≡ (if k == j then true else contains_key j m)
  unfolding contains_key insert
  contains_key-insert k j v [] = refl
  contains_key-insert k j v ((i, w) ∷ m) = ground (arith, contains_key-insert k j v m)

  pub contains_key-remove :
      (k j : ℕ) (m : HashMap V)
      → contains_key j (remove k m) ≡ (if k == j then false else contains_key j m)
  unfolding contains_key remove
  contains_key-remove k j [] = ground arith
  contains_key-remove k j ((i, w) ∷ m) = ground (arith, contains_key-remove k j m)

  pub get_of_contains_key :
      (k : ℕ) (m : HashMap V) → contains_key k m ≡ true → (v : V) × (get k m ≡ some v)
  unfolding get contains_key
  get_of_contains_key k [] h = cc
  get_of_contains_key k ((j, v) ∷ m) h = elim (Bool-cases (j == k)) [
    | inl e ↦ (v, rw e)
    | inr e ↦ rw e (get_of_contains_key k m (rw e at h))
  ]

  pub contains_key_of_get :
      (k : ℕ) (v : V) (m : HashMap V) → get k m ≡ some v → contains_key k m ≡ true
  unfolding get contains_key
  contains_key_of_get k v [] h = cc
  contains_key_of_get k v ((j, w) ∷ m) h = ground (arith, contains_key_of_get k v m)

  pub remove_absent : (k : ℕ) (m : HashMap V) → contains_key k m ≡ false → remove k m ≡ m
  unfolding contains_key remove
  remove_absent k [] h = refl
  remove_absent k ((j, w) ∷ m) h = ground (arith, remove_absent k m)

  pub insert-Distinct : (k : ℕ) (v : V) (m : HashMap V) → Distinct m → Distinct (insert k v m)
  unfolding contains_key insert
  insert-Distinct k v [] d = (refl, tt)
  insert-Distinct k v ((j, w) ∷ m) d =
      ground (arith, insert-Distinct k v m, contains_key-insert k j v m)

  pub remove-Distinct : (k : ℕ) (m : HashMap V) → Distinct m → Distinct (remove k m)
  unfolding remove
  remove-Distinct k [] d = d
  remove-Distinct k ((j, w) ∷ m) d = ground (arith, remove-Distinct k m, contains_key-remove k j m)

  pub length-insert_absent :
      (k : ℕ) (v : V) (m : HashMap V)
      → contains_key k m ≡ false
      → length (insert k v m) ≡ length m + 1
  unfolding contains_key insert
  length-insert_absent k v [] h = omega arith
  length-insert_absent k v ((j, w) ∷ m) h = ground (arith, length-insert_absent k v m)

  -- Removing a key that is there takes one entry.
  pub length-remove_present :
      (k : ℕ) (m : HashMap V)
      → Distinct m
      → contains_key k m ≡ true
      → length (remove k m) + 1 ≡ length m
  unfolding contains_key remove
  length-remove_present k [] d h = cc
  length-remove_present k ((j, w) ∷ m) d h =
      ground (arith, length-remove_present k m d.1, remove_absent k m)

module _ {ℓ κ} {V : Type ℓ} (P : ℕ → Type κ) where
  -- Every key satisfies `P`.
  abbrev pub AllKeys : HashMap V → Type κ
  AllKeys [] = Unit {κ}
  AllKeys ((k, v) ∷ m) = P k × AllKeys m

module _ {ℓ} {V : Type ℓ} where
  pub insert-AllKeys :
      (P : ℕ → Type 0) (k : ℕ) (v : V) (m : HashMap V)
      → P k
      → AllKeys P m
      → AllKeys P (insert k v m)
  unfolding insert
  insert-AllKeys P k v [] h all = (h, tt)
  insert-AllKeys P k v ((j, w) ∷ m) h all = ground (arith, insert-AllKeys P k v m h all.1)

  pub remove-AllKeys :
      (P Q : ℕ → Type 0) (k : ℕ) (m : HashMap V)
      → ((j : ℕ) → P j → j ≢ k → Q j)
      → AllKeys P m
      → AllKeys Q (remove k m)
  unfolding remove
  remove-AllKeys P Q k [] step all = tt
  remove-AllKeys P Q k ((j, w) ∷ m) step all =
      ground (arith, step j all.0, remove-AllKeys P Q k m step all.1)

  pub AllKeys-map :
      (P Q : ℕ → Type 0) (m : HashMap V)
      → ((j : ℕ) → P j → contains_key j m ≡ true → Q j)
      → AllKeys P m
      → AllKeys Q m
  unfolding contains_key
  AllKeys-map P Q [] step all = tt
  AllKeys-map P Q ((k, v) ∷ m) step all =
      (step k all.0 (ground arith), AllKeys-map P Q m (λ j p c. step j p (ground arith)) all.1)

  pub AllKeys_at :
      (P : ℕ → Type 0) (k : ℕ) (m : HashMap V) → contains_key k m ≡ true → AllKeys P m → P k
  unfolding contains_key
  AllKeys_at P k [] h all = cc
  AllKeys_at P k ((j, v) ∷ m) h all = elim (Bool-cases (j == k)) [
    | inl e ↦ subst P ((==_iff j k).0 e) all.0
    | inr e ↦ AllKeys_at P k m (rw e at h) all.1
  ]

-- What holds of every entry.
module _ {ℓ} {V : Type ℓ} (P : ℕ × V → Type 0) where
  pub insert-All : (k : ℕ) (v : V) (m : HashMap V) → P (k, v) → All P m → All P (insert k v m)
  unfolding insert
  insert-All k v [] h all = (h, tt)
  insert-All k v ((j, w) ∷ m) h all = elim (Bool-cases (j == k)) [
    | inl same ↦ rw same (h, all.1)
    | inr other ↦ rw other (all.0, insert-All k v m h all.1)
  ]

  pub remove-All : (k : ℕ) (m : HashMap V) → All P m → All P (remove k m)
  unfolding remove
  remove-All k [] all = tt
  remove-All k ((j, w) ∷ m) all = elim (Bool-cases (j == k)) [
    | inl same ↦ rw same (remove-All k m all.1)
    | inr other ↦ rw other (all.0, remove-All k m all.1)
  ]

  pub get-All : (k : ℕ) (v : V) (m : HashMap V) → get k m ≡ some v → All P m → P (k, v)
  unfolding get
  get-All k v [] h all = absurd (ground (arith, h))
  get-All k v ((j, w) ∷ m) h all = elim (Bool-cases (j == k)) [
    | inl same ↦
        let key : j ≡ k = (==_iff j k).0 same in
        let value : w ≡ v = ap (λ o. elim o [ none ↦ w | some u ↦ u ]) (rw same at h) in
        subst (λ i. P (i, v)) key (subst (λ u. P (j, u)) value all.0)
    | inr other ↦ get-All k v m (rw other at h) all.1
  ]
