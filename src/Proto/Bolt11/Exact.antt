-- ===== src/Proto/Bolt11/Exact.antt =====
-- The decoded amount against the amount that the invoice states.
use bolt.Prelude.{
  ℕ, ◌*◌, ◌%◌, ◌<◌, ◌≡◌, ◌≢◌, refl, ◌∙◌, ap, none, some, [], ◌∷◌, ◌++◌, map, arith, Result, ok,
  ◌>>=◌, mul64-exact, mul64-mod, u64_mod,
}
use bolt.Proto.Bolt11.Decode.{
  Denomination, whole, milli, micro, nano, pico, suffix, picobitcoin, converted,
  decode_amount-print,
}
use bolt.Proto.Bolt11.Networks.{Network, prefix, StartsPlain, decode_bolt11_amount-split}
use bolt.Proto.Bolt11.{pico_to_msat, positive, decode_amount, decode_bolt11_amount}
use bolt.Proto.Errors.{L402Error}
use bolt.Proto.Std.{Std, IsAscii, ascii_lower}
use bolt.Text.Decimal.RoundTrip.{IsDigits, print_u64-IsDigits, print_u64-ne-nil}
use bolt.Text.Decimal.{print_u64}
use bolt.Text.Laws.{Lacks}
use bolt.Text.{Text, last?}

positive-pos : (msat : ℕ) → 0 < msat → positive msat ≡ ok (some (record { millisatoshis = msat }))
unfolding positive
positive-pos msat h = ground arith

converted-exact :
    (d : Denomination) (v msat : ℕ)
    → msat * 10 ≡ v * picobitcoin d
    → msat < u64_mod
    → converted d v ≡ ok msat
unfolding pico_to_msat
converted-exact whole v msat e h = ap ok (mul64-exact v _ (omega arith) ∙ omega arith)
converted-exact milli v msat e h = ap ok (mul64-exact v _ (omega arith) ∙ omega arith)
converted-exact micro v msat e h = ap ok (mul64-exact v _ (omega arith) ∙ omega arith)
converted-exact nano v msat e h = ap ok (mul64-exact v _ (omega arith) ∙ omega arith)
converted-exact pico v msat e h = ground arith

-- The invoice reads, in lower case, as a network prefix, a number, a denomination, the separator
-- and a data part with no other `1` in it.
pub record Reads (invoice : Text) (n : Network) (v : ℕ) (d : Denomination) : Type 0 where
  pub rest : Text
  pub ascii : IsAscii invoice
  pub shape : map ascii_lower invoice ≡ prefix n ++ ((print_u64 v ++ suffix d) ++ b'1' ∷ rest)
  pub clear : Lacks b'1' rest

StartsPlain-digits : (t s : Text) → IsDigits t → t ≢ [] → StartsPlain (t ++ s)
StartsPlain-digits [] s h ne = absurd (ne refl)
StartsPlain-digits (c ∷ t) s h ne = (λ e. absurd (omega arith), λ e. absurd (omega arith))

StartsPlain-suffix :
    (t : Text) (d : Denomination) (s : Text)
    → IsDigits t
    → t ≢ []
    → StartsPlain ((t ++ suffix d) ++ s)
StartsPlain-suffix [] d s h ne = absurd (ne refl)
StartsPlain-suffix (c ∷ t) d s h ne = (λ e. absurd (omega arith), λ e. absurd (omega arith))

decode_bolt11_amount-Reads :
    (std : Std) (invoice : Text) (n : Network) (v : ℕ) (d : Denomination)
    → v < u64_mod
    → Reads invoice n v d
    → decode_bolt11_amount std invoice ≡ (converted d v >>= positive)
decode_bolt11_amount-Reads std invoice n v d small r =
    decode_bolt11_amount-split std invoice n (print_u64 v ++ suffix d) r.rest r.ascii r.shape
      (StartsPlain-suffix (print_u64 v) d (b'1' ∷ r.rest) (print_u64-IsDigits v)
        (print_u64-ne-nil v))
      r.clear
    ∙ decode_amount-print std v small d

-- On every network and for every denomination: an invoice that states a number of units below 2^64
-- that is worth a positive whole number of millisatoshis below 2^64 is decoded to exactly that number
-- of millisatoshis.
pub decode_bolt11_amount-exact :
    (std : Std) (invoice : Text) (n : Network) (v : ℕ) (d : Denomination) (msat : ℕ)
    → v < u64_mod
    → Reads invoice n v d
    → msat * 10 ≡ v * picobitcoin d
    → 0 < msat
    → msat < u64_mod
    → decode_bolt11_amount std invoice ≡ ok (some (record { millisatoshis = msat }))
decode_bolt11_amount-exact std invoice n v d msat small r e pos h =
    decode_bolt11_amount-Reads std invoice n v d small r
    ∙ ap (λ (m : Result L402Error ℕ). m >>= positive) (converted-exact d v msat e h)
    ∙ positive-pos msat pos

converted-wraps :
    (d : Denomination) (v f : ℕ) → picobitcoin d ≡ f * 10 → converted d v ≡ ok ((v * f) % u64_mod)
converted-wraps whole v f e =
    let g : f ≡ 100_000_000_000 = omega arith in rw g (ap ok (mul64-mod v _))
converted-wraps milli v f e = let g : f ≡ 100_000_000 = omega arith in rw g (ap ok (mul64-mod v _))
converted-wraps micro v f e = let g : f ≡ 100_000 = omega arith in rw g (ap ok (mul64-mod v _))
converted-wraps nano v f e = let g : f ≡ 100 = omega arith in rw g (ap ok (mul64-mod v _))
converted-wraps pico v f e = absurd (omega arith)

-- For an invoice that states a number of units below 2^64, where one unit is worth `f` millisatoshis:
-- the decoder of a release build returns the stated amount modulo 2^64, if that is not 0. An invoice
-- that states 2^64 millisatoshis or more in this way is decoded to less than it states.
pub decode_bolt11_amount-wraps :
    (std : Std) (invoice : Text) (n : Network) (v : ℕ) (d : Denomination) (f : ℕ)
    → v < u64_mod
    → Reads invoice n v d
    → picobitcoin d ≡ f * 10
    → 0 < (v * f) % u64_mod
    → decode_bolt11_amount std invoice ≡ ok (some (record { millisatoshis = (v * f) % u64_mod }))
decode_bolt11_amount-wraps std invoice n v d f small r e pos =
    decode_bolt11_amount-Reads std invoice n v d small r
    ∙ ap (λ (m : Result L402Error ℕ). m >>= positive) (converted-wraps d v f e)
    ∙ positive-pos ((v * f) % u64_mod) pos

-- An invoice with no amount is decoded as such.
pub decode_bolt11_amount-none :
    (std : Std) (invoice : Text) (n : Network) (rest : Text)
    → IsAscii invoice
    → map ascii_lower invoice ≡ prefix n ++ b'1' ∷ rest
    → Lacks b'1' rest
    → decode_bolt11_amount std invoice ≡ ok none
unfolding decode_amount last?
decode_bolt11_amount-none std invoice n rest ascii e clear =
    decode_bolt11_amount-split std invoice n [] rest ascii e
      (λ x. absurd (omega arith), λ x. absurd (omega arith)) clear
