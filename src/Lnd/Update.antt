-- ===== src/Lnd/Update.antt =====
-- crates/bolt402-lnd/src/rest.rs: the types of the node's answers, and what is read of an update.
use bolt.Prelude.{ℕ, ◌/◌, Bool, false, Option, none, some, unwrap_or}
use bolt.Text.Decimal.{parse_u64}
use bolt.Text.Equality.{text_eq}
use bolt.Text.{Text, codes}

pub record PaymentUpdate : Type 0 where
  pub status : Option Text
  pub payment_preimage : Option Text
  pub payment_preimage_camel : Option Text
  pub payment_hash : Option Text
  pub payment_hash_camel : Option Text
  pub value_sat : Option Text
  pub value_sat_camel : Option Text
  pub value_msat : Option Text
  pub value_msat_camel : Option Text
  pub fee_sat : Option Text
  pub fee_sat_camel : Option Text
  pub fee_msat : Option Text
  pub fee_msat_camel : Option Text
  pub failure_reason : Option Text

-- `PaymentUpdate::default()`.
abbrev pub no_update : PaymentUpdate
no_update = record {
  status = none;
  payment_preimage = none;
  payment_preimage_camel = none;
  payment_hash = none;
  payment_hash_camel = none;
  value_sat = none;
  value_sat_camel = none;
  value_msat = none;
  value_msat_camel = none;
  fee_sat = none;
  fee_sat_camel = none;
  fee_msat = none;
  fee_msat_camel = none;
  failure_reason = none;
}

pub record SendPaymentResponse : Type 0 where
  pub result : Option PaymentUpdate
  pub flat : PaymentUpdate

pub record BalanceAmount : Type 0 where
  pub sat : Option Text

pub record ChannelBalanceResponse : Type 0 where
  pub local_balance : Option BalanceAmount

pub record GetInfoResponse : Type 0 where
  pub identity_pubkey : Option Text
  pub alias : Option Text
  pub num_active_channels : Option ℕ

-- `Option::or`.
abbrev pub or : {A : Type 0} → Option A → Option A → Option A
or none b = b
or (some a) b = some a

abbrev pub preimage : PaymentUpdate → Option Text
preimage u = or u.payment_preimage u.payment_preimage_camel

abbrev pub hash : PaymentUpdate → Option Text
hash u = or u.payment_hash u.payment_hash_camel

-- A number that is missing or not readable is 0.
abbrev pub parsed_or_zero : Option Text → ℕ
parsed_or_zero none = 0
parsed_or_zero (some t) = unwrap_or (parse_u64 t) 0

-- Satoshis, of the millisatoshis if they are given.
abbrev pub sats_of : Option Text → Option Text → ℕ
sats_of (some msat) sat = parsed_or_zero (some msat) / 1_000
sats_of none sat = parsed_or_zero sat

unfoldable pub amount_sats : PaymentUpdate → ℕ
amount_sats u = sats_of (or u.value_msat u.value_msat_camel) (or u.value_sat u.value_sat_camel)

unfoldable pub fee_sats : PaymentUpdate → ℕ
fee_sats u = sats_of (or u.fee_msat u.fee_msat_camel) (or u.fee_sat u.fee_sat_camel)

abbrev is_status : Text → Option Text → Bool
is_status s none = false
is_status s (some t) = text_eq t s

unfoldable pub is_succeeded : PaymentUpdate → Bool
is_succeeded u = is_status (codes "SUCCEEDED") u.status

unfoldable pub is_failed : PaymentUpdate → Bool
is_failed u = is_status (codes "FAILED") u.status

-- The update of a line: what is wrapped in `result`, or else the line's own fields.
abbrev pub update_of : SendPaymentResponse → PaymentUpdate
update_of parsed = unwrap_or parsed.result parsed.flat
