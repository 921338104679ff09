-- ===== src/HashMap.antt =====
-- `std::collections::HashMap` as the sources use it: an association list over keys with a
-- decidable equality. `insert` overwrites in place, so no key stands twice in a map that was
-- built from `empty`.
pub mod Laws
pub mod Size
use bolt.Prelude.{
  ℕ, zero, suc, ◌+◌, Bool, true, false, Option, none, some, List, [], ◌∷◌, ite, if◌then◌else◌,
  length,
}

abbrev pub HashMap {ℓ} : Type ℓ → Type ℓ → Type ℓ
HashMap K V = List (K × V)

abbrev pub len {ℓ} : {K V : Type ℓ} → HashMap K V → ℕ
len = length

-- `retain(|k, _| p k)`.
unfoldable pub retain {ℓ} : {K V : Type ℓ} → (K → Bool) → HashMap K V → HashMap K V
retain p [] = []
retain p (e ∷ m) = if p e.0 then e ∷ retain p m else retain p m

module _ {ℓ} {K V : Type ℓ} (dec : Discrete K) where
  unfoldable pub get : K → HashMap K V → Option V
  get k [] = none
  get k (e ∷ m) = ite (dec e.0 k) (some e.1) (get k m)

  abbrev pub contains_key : K → HashMap K V → Bool
  contains_key k m = elim (get k m) [ none ↦ false | some v ↦ true ]

  unfoldable pub insert : K → V → HashMap K V → HashMap K V
  insert k v [] = (k, v) ∷ []
  insert k v (e ∷ m) = ite (dec e.0 k) ((k, v) ∷ m) (e ∷ insert k v m)

  unfoldable pub remove : K → HashMap K V → HashMap K V
  remove k [] = []
  remove k (e ∷ m) = ite (dec e.0 k) (remove k m) (e ∷ remove k m)
