-- ===== src/Proto/Challenge/Params.antt =====
-- Splitting a header of `key="value"` parameters, and reading one parameter.
use bolt.Prelude.{
  Bool, true, false, not, ◌≡◌, ◌≢◌, refl, ◌∙◌, ap, sym, List, [], ◌∷◌, ◌++◌, map, ◌==◌, ok, arith,
  append_assoc, append-nil, All,
}
use bolt.Proto.Challenge.{quote, push_trimmed, scan_params, parse_params, parse_kv}
use bolt.Proto.Std.{Std, IsLower, IsLower-IsAscii, map-ascii_lower}
use bolt.Text.Laws.{
  Lacks, IsTrimmed, trim_by-IsTrimmed, trim_by-cons, EndsClear-append, split_once-append,
}
use bolt.Text.{Text, is_whitespace, trim, trim_by, trim_start_by, trim_end_by, trim_matches}

-- `key="value"`.
abbrev pub param : Text × Text → Text
param (k, v) = k ++ (b'=' ∷ quote ∷ (v ++ quote ∷ []))

abbrev pub join_params : List (Text × Text) → Text
join_params [] = []
join_params (e ∷ []) = param e
join_params (e ∷ f ∷ es) = param e ++ (b',' ∷ b' ' ∷ join_params (f ∷ es))

-- A key in lower case with nothing in it that separates, and a value with no quote.
pub record IsParam (e : Text × Text) : Type 0 where
  pub lower : IsLower e.0
  pub no_quote : Lacks quote e.0
  pub no_comma : Lacks b',' e.0
  pub no_equals : Lacks b'=' e.0
  pub trimmed : IsTrimmed is_whitespace e.0
  pub key_ne : e.0 ≢ []
  pub value : Lacks quote e.1

scan_params-outside :
    (s current rest : Text)
    → Lacks quote s
    → Lacks b',' s
    → scan_params false current (s ++ rest) ≡ scan_params false (current ++ s) rest
unfolding scan_params
scan_params-outside [] current rest h k = rw append-nil
scan_params-outside (c ∷ s) current rest h k =
    ground (
      arith,
      scan_params-outside s (current ++ c ∷ []) rest h.1 k.1,
      append_assoc current (c ∷ []) s,
    )

scan_params-inside :
    (s current rest : Text)
    → Lacks quote s
    → scan_params true current (s ++ rest) ≡ scan_params true (current ++ s) rest
unfolding scan_params
scan_params-inside [] current rest h = rw append-nil
scan_params-inside (c ∷ s) current rest h =
    ground
      (arith, scan_params-inside s (current ++ c ∷ []) rest h.1, append_assoc current (c ∷ []) s)

scan_params-quote :
    (b : Bool) (current rest : Text)
    → scan_params b current (quote ∷ rest) ≡ scan_params (not b) (current ++ quote ∷ []) rest
unfolding scan_params
scan_params-quote b current rest = refl

scan_params-open :
    (current rest : Text)
    → scan_params false current (b'=' ∷ quote ∷ rest)
      ≡ scan_params true ((current ++ b'=' ∷ []) ++ quote ∷ []) rest
unfolding scan_params
scan_params-open current rest = refl

-- A whole parameter is read into `current`.
scan_params-param :
    (e : Text × Text) (current rest : Text)
    → IsParam e
    → scan_params false current (param e ++ rest) ≡ scan_params false (current ++ param e) rest
scan_params-param (k, v) current rest p =
    let opened = ((current ++ k) ++ b'=' ∷ []) ++ quote ∷ [] in
    simp append_assoc (
      scan_params-outside k current (b'=' ∷ quote ∷ (v ++ quote ∷ rest)) p.no_quote p.no_comma
      ∙ scan_params-open (current ++ k) (v ++ quote ∷ rest)
      ∙ scan_params-inside v opened (quote ∷ rest) p.value
      ∙ scan_params-quote true (opened ++ v) rest
      ∙ simp append_assoc)

IsTrimmed-param : (e : Text × Text) → IsParam e → IsTrimmed is_whitespace (param e)
IsTrimmed-param ([], v) p = absurd (p.key_ne refl)
IsTrimmed-param (c ∷ k, v) p = (
  p.trimmed.0,
  EndsClear-append is_whitespace (c ∷ k) (b'=' ∷ quote ∷ (v ++ quote ∷ [])) (
      EndsClear-append is_whitespace (b'=' ∷ quote ∷ v) (quote ∷ [])
        (unfold is_whitespace in refl)),
)

push_trimmed_to :
    (t u : Text) (rest : List Text) → trim t ≡ u → u ≢ [] → push_trimmed t rest ≡ u ∷ rest
unfolding push_trimmed
push_trimmed_to t [] rest e ne = absurd (ne refl)
push_trimmed_to t (c ∷ u) rest e ne = rw e

param-ne : (e : Text × Text) → IsParam e → param e ≢ []
param-ne ([], v) p = absurd (p.key_ne refl)
param-ne (c ∷ k, v) p = ground arith

push_trimmed-param :
    (e : Text × Text) (rest : List Text) → IsParam e → push_trimmed (param e) rest ≡ param e ∷ rest
push_trimmed-param e rest p =
    push_trimmed_to (param e) (param e) rest
      (trim_by-IsTrimmed is_whitespace (param e) (IsTrimmed-param e p)) (param-ne e p)

push_trimmed-space :
    (e : Text × Text) (rest : List Text)
    → IsParam e
    → push_trimmed (b' ' ∷ param e) rest ≡ param e ∷ rest
push_trimmed-space e rest p =
    push_trimmed_to (b' ' ∷ param e) (param e) rest
      (trim_by-cons is_whitespace b' ' (param e) (unfold is_whitespace in refl)
        ∙ trim_by-IsTrimmed is_whitespace (param e) (IsTrimmed-param e p))
      (param-ne e p)

scan_params-comma :
    (current rest : Text)
    → scan_params false current (b',' ∷ b' ' ∷ rest)
      ≡ push_trimmed current (scan_params false (b' ' ∷ []) rest)
unfolding scan_params
scan_params-comma current rest = refl

scan_params-end : (current : Text) → scan_params false current [] ≡ push_trimmed current []
unfolding scan_params
scan_params-end current = refl

-- `front` is what was read before the parameter, nothing or a space.
scan_params-join_params :
    (front : Text)
    → ((e : Text × Text) (rest : List Text)
        → IsParam e
        → push_trimmed (front ++ param e) rest ≡ param e ∷ rest)
    → (e : Text × Text) (es : List (Text × Text)) → All IsParam (e ∷ es)
    → scan_params false front (join_params (e ∷ es)) ≡ map param (e ∷ es)
scan_params-join_params front push e [] h =
    ap (scan_params false front) (sym (append-nil (param e)))
    ∙ scan_params-param e front [] h.0
    ∙ scan_params-end (front ++ param e)
    ∙ push e [] h.0
scan_params-join_params front push e (f ∷ es) h =
    scan_params-param e front (b',' ∷ b' ' ∷ join_params (f ∷ es)) h.0
    ∙ scan_params-comma (front ++ param e) (join_params (f ∷ es))
    ∙ push e _ h.0
    ∙ ap (◌∷◌ (param e)) (scan_params-join_params (b' ' ∷ []) push_trimmed-space f es h.1)

-- Parameters with keys and values as above are split at the commas between them, whatever commas
-- the values have.
pub parse_params-join_params :
    (es : List (Text × Text)) → All IsParam es → parse_params (join_params es) ≡ map param es
unfolding scan_params push_trimmed trim_by trim_end_by trim_start_by
parse_params-join_params [] h = refl
parse_params-join_params (e ∷ es) h = scan_params-join_params [] push_trimmed-param e es h

trim_end_by-quote : (v : Text) → Lacks quote v → trim_end_by (λ c. c == quote) (v ++ quote ∷ []) ≡ v
unfolding trim_end_by
trim_end_by-quote [] h = refl
trim_end_by-quote (c ∷ v) h = ground (arith, trim_end_by-quote v h.1)

-- A quoted value is unquoted.
trim_matches-quoted :
    (v : Text) → Lacks quote v → trim_matches quote (quote ∷ (v ++ quote ∷ [])) ≡ v
unfolding trim_by trim_start_by
trim_matches-quoted [] h = unfold trim_end_by in refl
trim_matches-quoted (c ∷ v) h = ground (arith, trim_end_by-quote (c ∷ v) h)

IsTrimmed-quoted : (v : Text) → IsTrimmed is_whitespace (quote ∷ (v ++ quote ∷ []))
unfolding is_whitespace
IsTrimmed-quoted v = (refl, EndsClear-append is_whitespace (quote ∷ v) (quote ∷ []) refl)

module _ (std : Std) where
  -- A parameter is read as its key and its value.
  pub parse_kv-param : (e : Text × Text) → IsParam e → parse_kv std (param e) ≡ ok e
  unfolding parse_kv
  parse_kv-param (k, v) p =
      let quoted = quote ∷ (v ++ quote ∷ []) in
      rw (split_once-append b'=' k quoted p.no_equals) (
        rw (
          trim_by-IsTrimmed is_whitespace quoted (IsTrimmed-quoted v),
          trim_matches-quoted v p.value,
          trim_by-IsTrimmed is_whitespace k p.trimmed,
          std.lowercase_ascii k (IsLower-IsAscii k p.lower),
          map-ascii_lower k p.lower,
        ))
