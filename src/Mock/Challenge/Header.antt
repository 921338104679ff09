-- ===== src/Mock/Challenge/Header.antt =====
-- The header of the mock server, read by the client's parser.
use bolt.Mock.Challenge.Invoice.{IsSafe, safe_hash-IsSafe, IsSafe-Lacks_quote}
use bolt.Mock.Challenge.{
  hash_of, macaroon_data, safe_hash, invoice_for, generate, to_www_authenticate,
}
use bolt.Mock.Laws.{IsCodec}
use bolt.Mock.{Codec, PendingChallenge}
use bolt.Prelude.{
  ℕ, ◌%◌, ◌≡◌, ◌<◌, ◌≤◌, inl, inr, refl, ◌∙◌, sym, ap, true, false, ◌&&◌, none, List, [], ◌∷◌, ◌++◌,
  arith, ok, leb, ◌==◌, Bool-cases, All, All-append, append_assoc,
}
use bolt.Proto.Challenge
use bolt.Proto.Challenge.Params.{join_params, IsParam}
use bolt.Proto.Challenge.RoundTrip.{Holds, from_header-join_params}
use bolt.Proto.Challenge.Sound.{IsAccepted}
use bolt.Proto.Challenge.{Base64, L402Challenge, no_fields, assign, quote}
use bolt.Proto.Scheme.{l402}
use bolt.Proto.Std.{Std, IsLower}
use bolt.Text.Decimal.RoundTrip.{print_u64-IsDigits, IsDigits-Lacks}
use bolt.Text.Decimal.{print_u64}
use bolt.Text.Laws.{Lacks, EndsClear}
use bolt.Text.{Text, codes, is_whitespace}

Lacks-lnbc : (q : ℕ) (t : Text) → q < b'0' → Lacks q t → Lacks q (codes "lnbc" ++ t)
Lacks-lnbc q t h k =
    (λ e. omega arith, (λ e. omega arith, (λ e. omega arith, (λ e. omega arith, k))))

Lacks-print_u64 : (q v : ℕ) (t : Text) → q < b'0' → Lacks q t → Lacks q (print_u64 v ++ t)
Lacks-print_u64 q v t h k =
    All-append _ (print_u64 v) t (IsDigits-Lacks q (print_u64 v) (inl h) (print_u64-IsDigits v)) k

Lacks-mock :
    (q c : ℕ) (t : Text) → q < b'0' → b'0' < c → Lacks q t → Lacks q (c ∷ (codes "1mock" ++ t))
Lacks-mock q c t h hc k = (
  λ e. omega arith,
  (
    λ e. omega arith,
    (λ e. omega arith, (λ e. omega arith, (λ e. omega arith, (λ e. omega arith, k)))),
  ),
)

-- No quote stands in an invoice.
invoice_for-no_quote :
    (amount : ℕ) (safe : Text) → All IsSafe safe → Lacks quote (invoice_for amount safe)
unfolding invoice_for
invoice_for-no_quote amount safe h = elim (Bool-cases (leb 100 amount && amount % 100 == 0)) [
  | inl e ↦ rw e (
      Lacks-lnbc quote _ (omega arith) (
        Lacks-print_u64 quote _ _ (omega arith)
          (Lacks-mock quote b'u' safe (omega arith) (omega arith) (IsSafe-Lacks_quote safe h))))
  | inr e ↦ rw e (
      Lacks-lnbc quote _ (omega arith) (
        Lacks-print_u64 quote _ _ (omega arith)
          (Lacks-mock quote b'n' safe (omega arith) (omega arith) (IsSafe-Lacks_quote safe h))))
]

abbrev written : Text → Text → List (Text × Text)
written macaroon invoice = (codes "macaroon", macaroon) ∷ (codes "invoice", invoice) ∷ []

-- Keys of lower case letters.
abbrev pub IsLetters : Text → Type 0
IsLetters = All (λ c. (b'a' ≤ c) × (c ≤ b'z'))

IsLetters-IsLower : (t : Text) → IsLetters t → IsLower t
IsLetters-IsLower [] h = tt
IsLetters-IsLower (c ∷ t) h = ((omega (arith, h.0.0, h.0.1), ground arith), IsLetters-IsLower t h.1)

IsLetters-Lacks : (q : ℕ) (t : Text) → q < b'a' → IsLetters t → Lacks q t
IsLetters-Lacks q [] k h = tt
IsLetters-Lacks q (c ∷ t) k h = (λ e. omega (arith, h.0.0, e), IsLetters-Lacks q t k h.1)

letter-clear : (c : ℕ) → b'a' ≤ c → c ≤ b'z' → is_whitespace c ≡ false
unfolding is_whitespace
letter-clear c h k = ground arith

IsLetters-EndsClear : (c : ℕ) (t : Text) → IsLetters (c ∷ t) → EndsClear is_whitespace (c ∷ t)
IsLetters-EndsClear c [] h = letter-clear c h.0.0 h.0.1
IsLetters-EndsClear c (d ∷ t) h = IsLetters-EndsClear d t h.1

pub IsParam-letters : (c : ℕ) (k v : Text) → IsLetters (c ∷ k) → Lacks quote v → IsParam (c ∷ k, v)
IsParam-letters c k v l h = record {
  lower = IsLetters-IsLower (c ∷ k) l;
  no_quote = IsLetters-Lacks quote (c ∷ k) (omega arith) l;
  no_comma = IsLetters-Lacks b',' (c ∷ k) (omega arith) l;
  no_equals = IsLetters-Lacks b'=' (c ∷ k) (omega arith) l;
  trimmed = (letter-clear c l.0.0 l.0.1, IsLetters-EndsClear c k l);
  key_ne = λ e. cc;
  value = h;
}

macaroon-IsLetters : IsLetters (codes "macaroon")
macaroon-IsLetters = omega arith

invoice-IsLetters : IsLetters (codes "invoice")
invoice-IsLetters = omega arith

written_header :
    (c : PendingChallenge)
    → to_www_authenticate c ≡ l402 ++ join_params (written c.macaroon c.invoice)
unfolding to_www_authenticate
written_header c =
    ap (λ t. codes "L402 macaroon=\"" ++ t)
      (sym
        (append_assoc c.macaroon (quote ∷ []) (codes ", invoice=\"" ++ (c.invoice ++ codes "\""))))

written-Holds :
    (macaroon invoice : Text)
    → Holds
        (written macaroon invoice)
        (record { macaroon = macaroon; invoice = invoice; address = none })
unfolding bolt.Proto.Challenge.RoundTrip.last_named bolt.Text.Equality.text_eq
written-Holds macaroon invoice = record { macaroon = refl; invoice = refl; address = refl }

invoice_for-IsAccepted :
    (base64 : Base64) (macaroon : Text) (amount : ℕ) (safe : Text)
    → base64.is_standard macaroon ≡ true
    → IsAccepted base64
        (record { macaroon = macaroon; invoice = invoice_for amount safe; address = none })
unfolding invoice_for
invoice_for-IsAccepted base64 macaroon amount safe h = record {
  macaroon = inl h;
  invoice = inl (ground arith);
}

-- The header of a challenge that the mock server generates is read by the client as that
-- challenge's macaroon and invoice, with no address.
pub from_header-to_www_authenticate :
    (std : Std) (codec : Codec) (base64 : Base64) (bytes : Text) (amount : ℕ)
    → IsCodec codec base64
    → Challenge.from_header std base64 (to_www_authenticate (generate codec bytes amount))
      ≡ ok (record {
        macaroon = (generate codec bytes amount).macaroon;
        invoice = (generate codec bytes amount).invoice;
        address = none;
      })
unfolding generate
from_header-to_www_authenticate std codec base64 bytes amount k =
    let hash = hash_of codec bytes in
    let safe = safe_hash-IsSafe hash (k.hex_encode-IsHex _ (k.sha256-IsBytes bytes)) in
    let macaroon = codec.base64_encode (macaroon_data codec hash) in
    let invoice = invoice_for amount (safe_hash hash) in
    ap (Challenge.from_header std base64) (written_header (generate codec bytes amount))
    ∙ from_header-join_params std base64 (codes "macaroon", macaroon)
        ((codes "invoice", invoice) ∷ []) _
        (
          IsParam-letters b'm' (codes "acaroon") macaroon macaroon-IsLetters (k.base64-no_quote _),
          (
            IsParam-letters b'i' (codes "nvoice") invoice invoice-IsLetters
                (invoice_for-no_quote amount _ safe),
            tt,
          ),
        )
        (written-Holds macaroon invoice)
        (invoice_for-IsAccepted base64 macaroon amount _ (k.base64-is_standard _))
