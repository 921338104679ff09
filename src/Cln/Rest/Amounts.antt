-- ===== src/Cln/Rest/Amounts.antt =====
-- Amounts in millisatoshis.
use bolt.Cln.Rest.{
  written, as_u64, ListFundsChannel, sum_msat, ClnJson, ListFundsResponse, balance_answer,
  msat_or_zero, maxfee,
}
use bolt.Prelude.{
  ℕ, ◌+◌, ◌*◌, ◌%◌, ◌≡◌, ◌<◌, refl, ap, ◌∙◌, some, List, [], ◌∷◌, min, u64_max, u64_mod,
  saturating_thousand, saturating_thousand-lt, saturating_thousand-min, add64, ◌/◌, ok, arith, true,
}
use bolt.Rest.{checked, RestResponse, is_success}
use bolt.Text.Decimal.RoundTrip.{parse_u64-print_u64}
use bolt.Text.Decimal.{print_u64}
use bolt.Text.Lines.{strip_suffix-append}
use bolt.Text.{Text, codes}

-- The fee limit that is sent with a payment is read, by the backend's own reader of amounts, as the
-- limit in satoshis times 1,000, or as the largest u64 where that does not fit.
pub as_u64-maxfee :
    (max_fee_sats : ℕ)
    → as_u64 (written (maxfee max_fee_sats)) ≡ some (min (max_fee_sats * 1_000) u64_max)
unfolding as_u64
as_u64-maxfee n = rw (strip_suffix-append (codes "msat") (print_u64 (saturating_thousand n))) (
    parse_u64-print_u64 (saturating_thousand n) (saturating_thousand-lt n)
    ∙ ap some (saturating_thousand-min n))

-- The sum of the channels, unbounded.
abbrev pub total_msat : List ListFundsChannel → ℕ
total_msat [] = 0
total_msat (channel ∷ channels) = msat_or_zero channel.our_amount_msat + total_msat channels

pub sum_msat-total :
    (acc : ℕ) (channels : List ListFundsChannel)
    → acc < u64_mod
    → sum_msat acc channels ≡ (acc + total_msat channels) % u64_mod
unfolding sum_msat
sum_msat-total acc [] h = omega (arith, h)
sum_msat-total acc (channel ∷ channels) h =
    let rest =
      sum_msat-total (add64 acc (msat_or_zero channel.our_amount_msat)) channels (omega arith) in
    omega (arith, rest)

-- The balance of an answer of status 2xx that can be read is the sum of what the channels hold,
-- modulo 2^64 millisatoshis, in whole satoshis.
pub balance_answer-total :
    (json : ClnJson) (r : RestResponse) (body : Text) (funds : ListFundsResponse)
    → is_success r.status ≡ true
    → r.bytes ≡ ok body
    → json.parse_funds body ≡ ok funds
    → balance_answer json (ok r) ≡ ok ((total_msat funds.channels % u64_mod) / 1_000)
unfolding balance_answer checked
balance_answer-total json r body funds success read parsed =
    let sum : sum_msat 0 funds.channels ≡ total_msat funds.channels % u64_mod =
      omega (arith, sum_msat-total 0 funds.channels (omega arith)) in
    rw (success, read, parsed, sum) refl
