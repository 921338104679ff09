-- ===== src/Text/Laws.antt =====
-- Laws of the text operations.
use bolt.Prelude.{
  ℕ, ◌≡◌, refl, ◌≢◌, Bool, true, false, none, some, [], ◌∷◌, ◌++◌, Option-cases, inl, inr, arith,
  length, All,
}
use bolt.Text.{
  Text, trim_start_by, trim_end_by, trim_by, strip_prefix, split_once, rfind, contains, last?,
}

-- No `q` in the text.
abbrev pub Lacks : ℕ → Text → Type 0
Lacks q = All (λ c. c ≢ q)

-- The last character of a text that is not empty fails the test.
abbrev pub EndsClear : (ℕ → Bool) → Text → Type 0
EndsClear p [] = ⊥
EndsClear p (c ∷ []) = p c ≡ false
EndsClear p (c ∷ d ∷ t) = EndsClear p (d ∷ t)

-- Neither end of the text would be trimmed.
abbrev pub IsTrimmed : (ℕ → Bool) → Text → Type 0
IsTrimmed p [] = Unit
IsTrimmed p (c ∷ t) = (p c ≡ false) × EndsClear p (c ∷ t)

pub EndsClear-append : (p : ℕ → Bool) (s t : Text) → EndsClear p t → EndsClear p (s ++ t)
EndsClear-append p [] t h = h
EndsClear-append p (c ∷ []) [] h = absurd h
EndsClear-append p (c ∷ []) (d ∷ t) h = h
EndsClear-append p (c ∷ d ∷ s) t h = EndsClear-append p (d ∷ s) t h

pub EndsClear-cons : (p : ℕ → Bool) (c : ℕ) (t : Text) → EndsClear p t → EndsClear p (c ∷ t)
EndsClear-cons p c [] h = absurd h
EndsClear-cons p c (d ∷ t) h = h

pub EndsClear-ne : (p : ℕ → Bool) (t : Text) → EndsClear p t → t ≢ []
EndsClear-ne p [] h = absurd h
EndsClear-ne p (c ∷ t) h = ground arith

-- A character that is trimmed goes from the front.
pub trim_by-cons : (p : ℕ → Bool) (c : ℕ) (t : Text) → p c ≡ true → trim_by p (c ∷ t) ≡ trim_by p t
unfolding trim_by trim_start_by
trim_by-cons p c t h = rw h

pub trim_end_by-EndsClear : (p : ℕ → Bool) (t : Text) → EndsClear p t → trim_end_by p t ≡ t
unfolding trim_end_by
trim_end_by-EndsClear p [] h = absurd h
trim_end_by-EndsClear p (c ∷ []) h = ground arith
trim_end_by-EndsClear p (c ∷ d ∷ t) h = ground (arith, trim_end_by-EndsClear p (d ∷ t) h)

-- Text that is trimmed already is left alone.
pub trim_by-IsTrimmed : (p : ℕ → Bool) (t : Text) → IsTrimmed p t → trim_by p t ≡ t
unfolding trim_by trim_start_by trim_end_by
trim_by-IsTrimmed p [] h = refl
trim_by-IsTrimmed p (c ∷ t) h = ground (arith, trim_end_by-EndsClear p (c ∷ t) h.1)

pub strip_prefix-append : (p t : Text) → strip_prefix p (p ++ t) ≡ some t
strip_prefix-append [] t = refl
strip_prefix-append (c ∷ p) t = ground (arith, strip_prefix-append p t)

pub strip_prefix_sound : (p t : Text) {r : Text} → strip_prefix p t ≡ some r → t ≡ p ++ r
strip_prefix_sound [] t h = ground arith
strip_prefix_sound (c ∷ p) [] h = ground arith
strip_prefix_sound (c ∷ p) (d ∷ t) {r} h = ground (arith, strip_prefix_sound p t {r = r})

-- The split is at the first `q`.
pub split_once-append : (q : ℕ) (a b : Text) → Lacks q a → split_once q (a ++ q ∷ b) ≡ some (a, b)
unfolding split_once
split_once-append q [] b h = ground arith
split_once-append q (c ∷ a) b h = ground (arith, split_once-append q a b h.1)

pub split_once_sound :
    (q : ℕ) (t : Text) {a b : Text} → split_once q t ≡ some (a, b) → (t ≡ a ++ q ∷ b) × Lacks q a
unfolding split_once
split_once_sound q [] h = ground arith
split_once_sound q (c ∷ t) {a} {b} h = elim (Option-cases (split_once q t)) [
  | inl e ↦ ground arith
  | inr (ab, e) ↦ ground (arith, split_once_sound q t {a = ab.0} {b = ab.1} e)
]

pub rfind-Lacks : (q : ℕ) (t : Text) → Lacks q t → rfind q t ≡ none
unfolding rfind
rfind-Lacks q [] h = refl
rfind-Lacks q (c ∷ t) h = ground (arith, rfind-Lacks q t h.1)

-- The last `q` stands before a text that has none.
pub rfind-append : (q : ℕ) (a b : Text) → Lacks q b → rfind q (a ++ q ∷ b) ≡ some (length a)
unfolding rfind
rfind-append q [] b h = ground (arith, rfind-Lacks q b h)
rfind-append q (c ∷ a) b h = ground (arith, rfind-append q a b h)

pub contains-Lacks : (q : ℕ) (t : Text) → Lacks q t → contains q t ≡ false
unfolding contains
contains-Lacks q [] h = refl
contains-Lacks q (c ∷ t) h = ground (arith, contains-Lacks q t h.1)

pub last?-append : (t : Text) (c : ℕ) → last? (t ++ c ∷ []) ≡ some c
unfolding last?
last?-append [] c = refl
last?-append (d ∷ []) c = refl
last?-append (d ∷ e ∷ t) c = last?-append (e ∷ t) c
