-- ===== src/HashMap/Size.antt =====
-- Maps with no key twice: every map built by the operations is one, and its `len` counts its keys.
use bolt.HashMap.Laws.{get-insert, get-remove}
use bolt.HashMap.{HashMap, len, get, contains_key, insert, remove}
use bolt.Prelude.{◌+◌, ◌≡◌, refl, none, some, [], ◌∷◌, ◌++◌, if◌then◌else◌, arith}

module _ {K V : Type 0} (dec : Discrete K) where
  abbrev pub IsDistinct : HashMap K V → Type 0
  IsDistinct [] = Unit
  IsDistinct (e ∷ m) = (get dec e.0 m ≡ none) × IsDistinct m

  pub insert-IsDistinct :
      (k : K) (v : V) (m : HashMap K V) → IsDistinct m → IsDistinct (insert dec k v m)
  unfolding insert get
  insert-IsDistinct k v [] d = (refl, tt)
  insert-IsDistinct k v (e ∷ m) d =
      ground (arith, insert-IsDistinct k v m d.1, get-insert dec k e.0 v m)

  pub remove-IsDistinct : (k : K) (m : HashMap K V) → IsDistinct m → IsDistinct (remove dec k m)
  unfolding remove
  remove-IsDistinct k [] d = tt
  remove-IsDistinct k (e ∷ m) d = ground (arith, remove-IsDistinct k m d.1, get-remove dec k e.0 m)

  pub remove_of_get-none : (k : K) (m : HashMap K V) → get dec k m ≡ none → remove dec k m ≡ m
  unfolding remove get
  remove_of_get-none k [] h = refl
  remove_of_get-none k (e ∷ m) h = ground (arith, remove_of_get-none k m)

  pub len-insert :
      (k : K) (v : V) (m : HashMap K V)
      → len (insert dec k v m) ≡ (if contains_key dec k m then len m else len m + 1)
  unfolding insert get
  len-insert k v [] = ground arith
  len-insert k v (e ∷ m) = ground (arith, len-insert k v m)

  pub len-remove :
      (k : K) (m : HashMap K V)
      → IsDistinct m
      → len m ≡ (if contains_key dec k m then len (remove dec k m) + 1 else len (remove dec k m))
  unfolding remove get
  len-remove k [] d = ground arith
  len-remove k (e ∷ m) d = ground (arith, len-remove k m d.1, remove_of_get-none k m)

  pub get-append :
      (j : K) (m n : HashMap K V)
      → get dec j (m ++ n) ≡ elim (get dec j m) [ none ↦ get dec j n | some v ↦ some v ]
  unfolding get
  get-append j [] n = refl
  get-append j (e ∷ m) n = ground (arith, get-append j m n)

  pub append-IsDistinct :
      (m : HashMap K V) (k : K) (v : V)
      → IsDistinct m
      → get dec k m ≡ none
      → IsDistinct (m ++ (k, v) ∷ [])
  unfolding get
  append-IsDistinct [] k v d h = (refl, tt)
  append-IsDistinct (e ∷ m) k v d h =
      ground (arith, append-IsDistinct m k v d.1, get-append e.0 m ((k, v) ∷ []))
