-- ===== src/HashMap/Laws.antt =====
-- What `get` reads after each operation, and the keys that a map holds.
use bolt.Prelude.{◌≡◌, refl, Bool, none, some, [], ◌∷◌, ite, if◌then◌else◌, arith}
use bolt.HashMap.{HashMap, retain, get, insert, remove}

module _ {ℓ} {K V : Type ℓ} (dec : Discrete K) where
  pub get-insert :
      (k j : K) (v : V) (m : HashMap K V)
      → get dec j (insert dec k v m) ≡ ite (dec k j) (some v) (get dec j m)
  unfolding get insert
  get-insert k j v [] = refl
  get-insert k j v (e ∷ m) = ground (arith, get-insert k j v m)

  pub get-insert_self : (k : K) (v : V) (m : HashMap K V) → get dec k (insert dec k v m) ≡ some v
  get-insert_self k v m = ground (arith, get-insert k k v m)

  pub get-remove :
      (k j : K) (m : HashMap K V) → get dec j (remove dec k m) ≡ ite (dec k j) none (get dec j m)
  unfolding get remove
  get-remove k j [] = ground arith
  get-remove k j (e ∷ m) = ground (arith, get-remove k j m)

  pub get-retain :
      (p : K → Bool) (j : K) (m : HashMap K V)
      → get dec j (retain p m) ≡ (if p j then get dec j m else none)
  unfolding get retain
  get-retain p j [] = ground arith
  get-retain p j (e ∷ m) = ground (arith, get-retain p j m)
