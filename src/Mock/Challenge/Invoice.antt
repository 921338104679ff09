-- ===== src/Mock/Challenge/Invoice.antt =====
-- The invoices of the mock server, read by the client's decoder.
use bolt.Core.Client.Extract.{invoice_amount_sats}
use bolt.Mock.Challenge.{safe_char, safe_hash, invoice_for}
use bolt.Text.Hex.{IsHex}
use bolt.Prelude.{
  ℕ, zero, suc, ◌*◌, ◌/◌, ◌%◌, ◌<◌, ◌≡◌, ◌≢◌, inl, inr, refl, ◌∙◌, sym, ap, ◌&&◌, some, [], ◌∷◌,
  ◌++◌, map, take, arith, ok, leb, ◌==◌, Bool-cases, mul64-exact, u64_mod, All, All-append,
  append_assoc,
}
use bolt.Proto.Bolt11.Decode.{Denomination, micro, nano, suffix}
use bolt.Proto.Bolt11.Exact.{Reads, decode_bolt11_amount-exact}
use bolt.Proto.Bolt11.Networks.{mainnet}
use bolt.Proto.Bolt11.{satoshis, decode_bolt11_amount}
use bolt.Proto.Challenge.{quote}
use bolt.Proto.Std.{Std, IsLower, IsLower-IsAscii, map-ascii_lower, ascii_lower}
use bolt.Text.Decimal.RoundTrip.{IsDigits, print_u64-IsDigits}
use bolt.Text.Decimal.{print_u64}
use bolt.Text.Laws.{Lacks}
use bolt.Text.{Text, codes}

-- A lower case character that neither separates an invoice nor ends a quoted value.
abbrev pub IsSafe : ℕ → Type 0
IsSafe c = (c < 128) × (ascii_lower c ≡ c) × (c ≢ b'1') × (c ≢ quote)

take-All : (P : ℕ → Type 0) (n : ℕ) (t : Text) → All P t → All P (take n t)
take-All P zero t h = tt
take-All P (suc n) [] h = tt
take-All P (suc n) (c ∷ t) h = (h.0, take-All P n t h.1)

map-safe_char : (t : Text) → IsHex t → All IsSafe (map safe_char t)
map-safe_char [] h = tt
map-safe_char (c ∷ t) (inl d, h) =
    ((ground arith, ground arith, λ e. ground arith, λ e. ground arith), map-safe_char t h)
map-safe_char (c ∷ t) (inr d, h) =
    ((ground arith, ground arith, λ e. ground arith, λ e. ground arith), map-safe_char t h)

pub safe_hash-IsSafe : (t : Text) → IsHex t → All IsSafe (safe_hash t)
unfolding safe_hash
safe_hash-IsSafe t h = take-All IsSafe 20 (map safe_char t) (map-safe_char t h)

IsSafe-IsLower : (t : Text) → All IsSafe t → IsLower t
IsSafe-IsLower [] h = tt
IsSafe-IsLower (c ∷ t) h = ((h.0.0, h.0.1), IsSafe-IsLower t h.1)

IsSafe-Lacks_one : (t : Text) → All IsSafe t → Lacks b'1' t
IsSafe-Lacks_one [] h = tt
IsSafe-Lacks_one (c ∷ t) h = (h.0.2, IsSafe-Lacks_one t h.1)

pub IsSafe-Lacks_quote : (t : Text) → All IsSafe t → Lacks quote t
IsSafe-Lacks_quote [] h = tt
IsSafe-Lacks_quote (c ∷ t) h = (h.0.3, IsSafe-Lacks_quote t h.1)

IsDigits-IsLower : (t : Text) → IsDigits t → IsLower t
IsDigits-IsLower [] h = tt
IsDigits-IsLower (c ∷ t) h = ((omega arith, ground arith), IsDigits-IsLower t h.1)

IsLower-append : (s t : Text) → IsLower s → IsLower t → IsLower (s ++ t)
IsLower-append s t hs ht = All-append _ s t hs ht

IsLower-mock : (safe : Text) → All IsSafe safe → IsLower (b'1' ∷ (codes "mock" ++ safe))
IsLower-mock safe h = (
  (omega arith, refl),
  (
    (omega arith, refl),
    ((omega arith, refl), ((omega arith, refl), ((omega arith, refl), IsSafe-IsLower safe h))),
  ),
)

IsLower-lnbc : (t : Text) → IsLower t → IsLower (codes "lnbc" ++ t)
IsLower-lnbc t h =
    ((omega arith, refl), ((omega arith, refl), ((omega arith, refl), ((omega arith, refl), h))))

Lacks-mock : (safe : Text) → All IsSafe safe → Lacks b'1' (codes "mock" ++ safe)
Lacks-mock safe h = (
  λ e. omega (arith, e),
  (
    λ e. omega (arith, e),
    (λ e. omega (arith, e), (λ e. omega (arith, e), IsSafe-Lacks_one safe h)),
  ),
)

Reads-mock :
    (v : ℕ) (d : Denomination) (safe : Text)
    → IsLower (suffix d)
    → All IsSafe safe
    → Reads
        (codes "lnbc" ++ (print_u64 v ++ (suffix d ++ (b'1' ∷ (codes "mock" ++ safe)))))
        mainnet
        v
        d
Reads-mock v d safe hd h =
    let invoice = codes "lnbc" ++ (print_u64 v ++ (suffix d ++ (b'1' ∷ (codes "mock" ++ safe)))) in
    let low : IsLower invoice = IsLower-lnbc _ (
      IsLower-append (print_u64 v) _ (IsDigits-IsLower (print_u64 v) (print_u64-IsDigits v))
        (IsLower-append (suffix d) _ hd (IsLower-mock safe h))) in
    record {
      rest = codes "mock" ++ safe;
      ascii = IsLower-IsAscii invoice low;
      shape =
          map-ascii_lower invoice low
          ∙ ap (λ t. codes "lnbc" ++ t) (sym (append_assoc (print_u64 v) (suffix d) _));
      clear = Lacks-mock safe h;
    }

-- An invoice that the mock server issues for a positive price is decoded to exactly that price, if
-- the price in millisatoshis fits in a `u64`, both where the price is written in microbitcoin and
-- where it is written in nanobitcoin.
pub decode_bolt11_amount-invoice_for :
    (std : Std) (amount : ℕ) (safe : Text)
    → All IsSafe safe
    → 0 < amount
    → amount * 1000 < u64_mod
    → decode_bolt11_amount std (invoice_for amount safe)
      ≡ ok (some (record { millisatoshis = amount * 1000 }))
unfolding invoice_for
decode_bolt11_amount-invoice_for std amount safe h pos fits =
    elim (Bool-cases (leb 100 amount && amount % 100 == 0)) [
      | inl e ↦ rw e (
          decode_bolt11_amount-exact std _ mainnet (amount / 100) micro (amount * 1000)
            (omega arith) (Reads-mock (amount / 100) micro safe ((omega arith, refl), tt) h)
            (ground arith) (omega arith) fits)
      | inr e ↦
          rw (e, mul64-exact amount 10 (omega arith))
            (decode_bolt11_amount-exact std _ mainnet (amount * 10) nano (amount * 1000)
              (omega arith) (Reads-mock (amount * 10) nano safe ((omega arith, refl), tt) h)
              (omega arith) (omega arith) fits)
    ]

pub invoice_amount_sats-invoice_for :
    (std : Std) (amount : ℕ) (safe : Text)
    → All IsSafe safe
    → 0 < amount
    → amount * 1000 < u64_mod
    → invoice_amount_sats std (invoice_for amount safe) ≡ amount
unfolding invoice_amount_sats satoshis
invoice_amount_sats-invoice_for std amount safe h pos fits =
    rw (decode_bolt11_amount-invoice_for, h, pos, fits) (ground arith)
