-- ===== src/Proto/Challenge/RoundTrip.antt =====
-- Writing a challenge and reading it back.
use bolt.Prelude.{
  ◌≡◌, refl, ◌∙◌, ap, ◌⊎◌, inl, inr, Bool-cases, false, if◌then◌else◌, Option, none, some, List, [],
  ◌∷◌, ◌++◌, map, ok, All,
}
use bolt.Proto.Challenge.Params.{
  param, join_params, IsParam, parse_params-join_params, parse_kv-param,
}
use bolt.Proto.Challenge.Sound.{IsAccepted, check-IsAccepted}
use bolt.Proto.Challenge.{
  Base64, L402Challenge, Fields, no_fields, quote, assign, read_fields, from_header,
}
use bolt.Proto.Scheme.{l402, strip_scheme-l402}
use bolt.Proto.Std.{Std}
use bolt.Text.Laws.{EndsClear, EndsClear-append, trim_by-IsTrimmed}
use bolt.Text.Equality.{text_eq, text_eq_iff}
use bolt.Text.{Text, codes, is_whitespace, trim}

-- What the parameters leave in the three variables: the last one of each name.
abbrev assign_all : List (Text × Text) → Fields → Fields
assign_all [] f = f
assign_all (e ∷ es) f = assign_all es (assign e f)

read_fields-param :
    (std : Std) (es : List (Text × Text)) (f : Fields)
    → All IsParam es
    → read_fields std (map param es) f ≡ ok (assign_all es f)
unfolding read_fields
read_fields-param std [] f h = refl
read_fields-param std (e ∷ es) f h =
    rw (parse_kv-param std e h.0) (read_fields-param std es (assign e f) h.1)

EndsClear-param : (e : Text × Text) → EndsClear is_whitespace (param e)
unfolding is_whitespace
EndsClear-param (k, v) =
    EndsClear-append is_whitespace k (b'=' ∷ quote ∷ (v ++ quote ∷ []))
      (EndsClear-append is_whitespace (b'=' ∷ quote ∷ v) (quote ∷ []) refl)

EndsClear-join_params :
    (e : Text × Text) (es : List (Text × Text)) → EndsClear is_whitespace (join_params (e ∷ es))
EndsClear-join_params e [] = EndsClear-param e
EndsClear-join_params e (f ∷ es) =
    EndsClear-append is_whitespace (param e) (b',' ∷ b' ' ∷ join_params (f ∷ es)) (
      EndsClear-append is_whitespace (b',' ∷ b' ' ∷ []) (join_params (f ∷ es))
        (EndsClear-join_params f es))

-- A header with at least one parameter is not trimmed.
trim-header :
    (e : Text × Text) (es : List (Text × Text))
    → trim (l402 ++ join_params (e ∷ es)) ≡ l402 ++ join_params (e ∷ es)
trim-header e es = trim_by-IsTrimmed is_whitespace (l402 ++ join_params (e ∷ es)) (
  unfold is_whitespace in refl,
  EndsClear-append is_whitespace l402 (join_params (e ∷ es)) (EndsClear-join_params e es),
)

abbrev or_else : {A : Type 0} → Option A → Option A → Option A
or_else none y = y
or_else (some a) y = some a

-- The value of the last parameter with the name.
unfoldable pub last_named : Text → List (Text × Text) → Option Text
last_named name [] = none
last_named name ((k, v) ∷ es) =
    let later = last_named name es in or_else later (if text_eq k name then some v else none)

-- The parameters hold the challenge: the last one of each name counts, and unknown names do not.
pub record Holds (es : List (Text × Text)) (c : L402Challenge) : Type 0 where
  pub macaroon : last_named (codes "macaroon") es ≡ some c.macaroon
  pub invoice : last_named (codes "invoice") es ≡ some c.invoice
  pub address : last_named (codes "address") es ≡ c.address

-- Three different names: a key is one of them at most.
name_cases :
    (k : Text)
    → (k ≡ codes "macaroon")
      ⊎ (k ≡ codes "invoice")
      ⊎ (k ≡ codes "address")
      ⊎ ((text_eq k (codes "macaroon") ≡ false)
          × (text_eq k (codes "invoice") ≡ false)
          × (text_eq k (codes "address") ≡ false))
name_cases k = elim (Bool-cases (text_eq k (codes "macaroon"))) [
  | inl m ↦ inl ((text_eq_iff k _).0 m)
  | inr m ↦ elim (Bool-cases (text_eq k (codes "invoice"))) [
    | inl i ↦ inr (inl ((text_eq_iff k _).0 i))
    | inr i ↦ elim (Bool-cases (text_eq k (codes "address"))) [
      | inl a ↦ inr (inr (inl ((text_eq_iff k _).0 a)))
      | inr a ↦ inr (inr (inr (m, i, a)))
    ]
  ]
]

-- The fields after the parameters, over those before.
pub record Assigned (es : List (Text × Text)) (f g : Fields) : Type 0 where
  pub macaroon : g.macaroon ≡ or_else (last_named (codes "macaroon") es) f.macaroon
  pub invoice : g.invoice ≡ or_else (last_named (codes "invoice") es) f.invoice
  pub address : g.address ≡ or_else (last_named (codes "address") es) f.address

or_else-or_else :
    {A : Type 0} (x y z : Option A) → or_else x (or_else y z) ≡ or_else (or_else x y) z
or_else-or_else none y z = refl
or_else-or_else (some a) y z = refl

assign-Assigned : (e : Text × Text) (f : Fields) → Assigned (e ∷ []) f (assign e f)
unfolding assign last_named text_eq
assign-Assigned (k, v) f = elim (name_cases k) [
  | inl e ↦ rw e (record { macaroon = refl; invoice = refl; address = refl })
  | inr (inl e) ↦ rw e (record { macaroon = refl; invoice = refl; address = refl })
  | inr (inr (inl e)) ↦ rw e (record { macaroon = refl; invoice = refl; address = refl })
  | inr (inr (inr (m, i, a))) ↦ record {
    macaroon = rw (m, i, a) refl;
    invoice = rw (m, i, a) refl;
    address = rw (m, i, a) refl;
  }
]

assign_all-Assigned : (es : List (Text × Text)) (f : Fields) → Assigned es f (assign_all es f)
unfolding last_named
assign_all-Assigned [] f = record { macaroon = refl; invoice = refl; address = refl }
assign_all-Assigned (e ∷ es) f =
    let now = assign-Assigned e f in
    let later = assign_all-Assigned es (assign e f) in
    record {
      macaroon =
          later.macaroon
          ∙ ap (or_else _) now.macaroon
          ∙ or_else-or_else (last_named (codes "macaroon") es)
              (last_named (codes "macaroon") (e ∷ [])) f.macaroon;
      invoice =
          later.invoice
          ∙ ap (or_else _) now.invoice
          ∙ or_else-or_else (last_named (codes "invoice") es)
              (last_named (codes "invoice") (e ∷ [])) f.invoice;
      address =
          later.address
          ∙ ap (or_else _) now.address
          ∙ or_else-or_else (last_named (codes "address") es)
              (last_named (codes "address") (e ∷ [])) f.address;
    }

or_else-none : {A : Type 0} (x : Option A) → or_else x none ≡ x
or_else-none none = refl
or_else-none (some a) = refl

-- A header of quoted parameters, in any order and with any further parameters, is read as the
-- challenge that has the last value of each of the names macaroon, invoice and address, if its
-- macaroon decodes and its invoice starts as one does.
pub from_header-join_params :
    (std : Std) (base64 : Base64) (e : Text × Text) (es : List (Text × Text)) (c : L402Challenge)
    → All IsParam (e ∷ es)
    → Holds (e ∷ es) c
    → IsAccepted base64 c
    → from_header std base64 (l402 ++ join_params (e ∷ es)) ≡ ok c
unfolding from_header
from_header-join_params std base64 e es c p h a =
    let (m, i) = check-IsAccepted base64 c a in
    let fields = assign_all-Assigned (e ∷ es) no_fields in
    rw
      (
        trim-header e es,
        strip_scheme-l402 (join_params (e ∷ es)),
        parse_params-join_params (e ∷ es) p,
        read_fields-param std (e ∷ es) no_fields p,
        fields.macaroon ∙ or_else-none _ ∙ h.macaroon,
        fields.invoice ∙ or_else-none _ ∙ h.invoice,
        m,
        fields.address ∙ or_else-none _ ∙ h.address,
      )
      i
