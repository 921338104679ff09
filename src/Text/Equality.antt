-- ===== src/Text/Equality.antt =====
-- Equality of texts, as a test and as a decision that computes by the test.
use bolt.Prelude.{◌≡◌, refl, ◌↔◌, Bool, true, false, ◌&&◌, [], ◌∷◌, ◌==◌, arith}
use bolt.Text.{Text}

unfoldable pub text_eq : Text → Text → Bool
text_eq [] [] = true
text_eq (c ∷ s) (d ∷ t) = c == d && text_eq s t
text_eq _ _ = false

pub text_eq_iff : (s t : Text) → (text_eq s t ≡ true) ↔ (s ≡ t)
unfolding text_eq
text_eq_iff (c ∷ s) (d ∷ t) = ground (arith, text_eq_iff s t)
text_eq_iff _ _ = ground arith

pub text_ne : (s t : Text) → text_eq s t ≡ false → ¬ (s ≡ t)
text_ne s t h e = ground (arith, text_eq_iff s t)

unfoldable pub decide_text : (s t : Text) (b : Bool) → text_eq s t ≡ b → Dec (s ≡ t)
decide_text s t true e = yes ((text_eq_iff s t).0 e)
decide_text s t false e = no (text_ne s t e)

unfoldable pub Text-discrete : Discrete Text
Text-discrete s t = decide_text s t (text_eq s t) refl
