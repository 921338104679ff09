-- ===== src/Proto/Challenge/Sound.antt =====
-- What an accepted challenge satisfies, and that the two checks accept nothing less.
use bolt.Prelude.{true, ◌≡◌, ◌⊎◌, none, some, ok, ok_or, >>=-eq-ok, ok_or-eq-ok, arith, ◌++◌}
use bolt.Proto.Challenge.{
  Base64, L402Challenge, Fields, no_fields, parse_params, read_fields, check_macaroon,
  check_invoice, from_header,
}
use bolt.Proto.Scheme.{l402, lsat, strip_scheme, strip_scheme_sound}
use bolt.Proto.Std.{Std}
use bolt.Text.{Text, trim, starts_with, codes}

-- The macaroon is base64 in one of the two alphabets, and the invoice starts as one does.
pub record IsAccepted (base64 : Base64) (c : L402Challenge) : Type 0 where
  pub macaroon : (base64.is_standard c.macaroon ≡ true) ⊎ (base64.url_safe_error c.macaroon ≡ none)
  pub invoice :
      (starts_with (codes "lnbc") c.invoice ≡ true) ⊎ (starts_with (codes "lntb") c.invoice ≡ true)

check_invoice_sound :
    (c : L402Challenge) {d : L402Challenge}
    → check_invoice c ≡ ok d
    → (d ≡ c)
      × ((starts_with (codes "lnbc") c.invoice ≡ true)
          ⊎ (starts_with (codes "lntb") c.invoice ≡ true))
unfolding check_invoice
check_invoice_sound c {d} h = (ground arith, ground arith)

check_macaroon_sound :
    (base64 : Base64) (m : Text)
    → check_macaroon base64 m ≡ ok tt
    → (base64.is_standard m ≡ true) ⊎ (base64.url_safe_error m ≡ none)
unfolding check_macaroon
check_macaroon_sound base64 m h = ground arith

pub check-IsAccepted :
    (base64 : Base64) (c : L402Challenge)
    → IsAccepted base64 c
    → (check_macaroon base64 c.macaroon ≡ ok tt) × (check_invoice c ≡ ok c)
unfolding check_macaroon check_invoice
check-IsAccepted base64 c a = (ground arith, ground arith)

-- Where an accepted challenge comes from: the parameters behind the scheme, of which the last one of
-- each name counts.
pub record ComesFrom (std : Std) (base64 : Base64) (header : Text) (c : L402Challenge)
    : Type 0 where
  pub params : Text
  pub scheme : (trim header ≡ l402 ++ params) ⊎ (trim header ≡ lsat ++ params)
  pub fields : Fields
  pub read : read_fields std (parse_params params) no_fields ≡ ok fields
  pub macaroon : fields.macaroon ≡ some c.macaroon
  pub invoice : fields.invoice ≡ some c.invoice
  pub address : fields.address ≡ c.address
  pub accepted : IsAccepted base64 c

-- A header that is accepted starts with one of the two schemes; the challenge holds what was read
-- from its parameters, its macaroon decodes as base64, and its invoice starts with `lnbc` or `lntb`.
pub from_header_sound :
    (std : Std) (base64 : Base64) (header : Text) {c : L402Challenge}
    → from_header std base64 header ≡ ok c
    → ComesFrom std base64 header c
unfolding from_header
from_header_sound std base64 header {c} h =
    let (params, p0, h0) = >>=-eq-ok (ok_or (strip_scheme (trim header)) _) _ h in
    let (f, p1, h1) = >>=-eq-ok (read_fields std (parse_params params) no_fields) _ h0 in
    let (m, p2, h2) = >>=-eq-ok (ok_or f.macaroon _) _ h1 in
    let (i, p3, h3) = >>=-eq-ok (ok_or f.invoice _) _ h2 in
    let (u, p4, h4) = >>=-eq-ok (check_macaroon base64 m) _ h3 in
    let (same, starts) = check_invoice_sound _ h4 in
    record {
      params = params;
      scheme = strip_scheme_sound (trim header) (ok_or-eq-ok (strip_scheme (trim header)) _ p0);
      fields = f;
      read = p1;
      macaroon = rw same (ok_or-eq-ok f.macaroon _ p2);
      invoice = rw same (ok_or-eq-ok f.invoice _ p3);
      address = rw same;
      accepted = rw same (record { macaroon = check_macaroon_sound base64 m p4; invoice = starts });
    }
