-- ===== src/Text/Lines.antt =====
-- `str::lines` and `strip_suffix`.
use bolt.Prelude.{
  ℕ, ◌&&◌, Option, none, some, List, [], ◌∷◌, ◌++◌, ◌==◌, if◌then◌else◌, ◌≡◌, ◌≢◌, refl, arith, All,
  Bool-cases, length, length-append, ap, inl, inr,
}
use bolt.Text.Equality.{text_eq, text_eq_iff}
use bolt.Text.{Text, starts_with}

abbrev pub newline : ℕ
newline = 0x0a

abbrev pub carriage_return : ℕ
carriage_return = 0x0d

-- A character in front of the first line.
abbrev pub onto_first : ℕ → List Text → List Text
onto_first c [] = (c ∷ []) ∷ []
onto_first c (l ∷ ls) = (c ∷ l) ∷ ls

-- A line ends in `\n` or `\r\n`, or with the text.
unfoldable pub lines : Text → List Text
lines [] = []
lines (c ∷ t) =
    let rest = lines t in
    if c == newline
    then [] ∷ rest
    else if c == carriage_return && starts_with (newline ∷ []) t
    then rest
    else onto_first c rest

unfoldable pub strip_suffix : Text → Text → Option Text
strip_suffix q [] = if text_eq q [] then some [] else none
strip_suffix q (c ∷ t) =
    if text_eq q (c ∷ t)
    then some []
    else (elim (strip_suffix q t) [ none ↦ none | some r ↦ some (c ∷ r) ])

-- Lines that are all ended are read back.
abbrev pub end_lines : List Text → Text
end_lines [] = []
end_lines (l ∷ ls) = l ++ newline ∷ end_lines ls

abbrev pub IsLine : Text → Type 0
IsLine = All (λ c. (c ≢ newline) × (c ≢ carriage_return))

lines-line : (l t : Text) → IsLine l → lines (l ++ newline ∷ t) ≡ l ∷ lines t
unfolding lines
lines-line [] t h = refl
lines-line (c ∷ l) t h = ground (arith, lines-line l t h.1)

pub lines-end_lines : (ls : List Text) → All IsLine ls → lines (end_lines ls) ≡ ls
unfolding lines
lines-end_lines [] h = refl
lines-end_lines (l ∷ ls) h = rw (lines-line l (end_lines ls) h.0, lines-end_lines ls h.1) refl

strip_suffix_self : (q : Text) → strip_suffix q q ≡ some []
unfolding strip_suffix
strip_suffix_self [] = rw ((text_eq_iff [] []).1 refl) refl
strip_suffix_self (c ∷ q) = rw ((text_eq_iff (c ∷ q) (c ∷ q)).1 refl) refl

-- A suffix that was appended is stripped.
pub strip_suffix-append : (q t : Text) → strip_suffix q (t ++ q) ≡ some t
unfolding strip_suffix
strip_suffix-append q [] = strip_suffix_self q
strip_suffix-append q (c ∷ t) = elim (Bool-cases (text_eq q (c ∷ t ++ q))) [
  | inl e ↦ absurd (omega (arith, ap length ((text_eq_iff q (c ∷ t ++ q)).0 e), length-append t q))
  | inr e ↦ rw (e, strip_suffix-append q t) refl
]
