-- ===== src/Proto/Scheme.antt =====
-- The scheme prefix that both headers start with: `L402 `, or the older `LSAT `.
use bolt.Prelude.{Option, none, some, ◌≡◌, ◌++◌, refl, ◌⊎◌, inl, inr, arith, Option-cases}
use bolt.Text.Laws.{strip_prefix_sound}
use bolt.Text.{Text, codes, strip_prefix}

abbrev pub l402 : Text
l402 = codes "L402 "

abbrev pub lsat : Text
lsat = codes "LSAT "

unfoldable pub strip_scheme : Text → Option Text
strip_scheme header = elim (strip_prefix l402 header) [
  | some rest ↦ some rest
  | none ↦ strip_prefix lsat header
]

pub strip_scheme-l402 : (t : Text) → strip_scheme (l402 ++ t) ≡ some t
unfolding strip_scheme
strip_scheme-l402 t = refl

pub strip_scheme-lsat : (t : Text) → strip_scheme (lsat ++ t) ≡ some t
unfolding strip_scheme
strip_scheme-lsat t = refl

pub strip_scheme_sound :
    (header : Text) {t : Text}
    → strip_scheme header ≡ some t
    → (header ≡ l402 ++ t) ⊎ (header ≡ lsat ++ t)
unfolding strip_scheme
strip_scheme_sound header {t} h = elim (Option-cases (strip_prefix l402 header)) [
  | inl e ↦ inr (strip_prefix_sound lsat header (rw (strip_scheme, e) at h))
  | inr (u, e) ↦ inl (strip_prefix_sound l402 header (ground arith))
]
