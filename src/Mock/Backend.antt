-- ===== src/Mock/Backend.antt =====
-- crates/bolt402-mock/src/backend.rs: the backend that pays from the registry. Each call reads and
-- writes under the locks it takes, so it is one step on the shared state.
pub mod Balance
use bolt.HashMap
use bolt.Mock.{PendingChallenge, MockState}
use bolt.Prelude.{ℕ, ◌-◌, Option, none, some, ◌++◌, ltb, if◌then◌else◌, Result, ok, err}
use bolt.Proto.Errors.{ClientError, payment_failed}
use bolt.Proto.Port.{PaymentResult, NodeInfo, LnBackend}
use bolt.Text.Decimal.{print_u64}
use bolt.Text.Equality.{Text-discrete}
use bolt.Text.{Text, text}

abbrev pub payment_of : PendingChallenge → PaymentResult
payment_of challenge = record {
  preimage = challenge.preimage;
  payment_hash = challenge.payment_hash;
  amount_sats = challenge.amount_sats;
  fee_sats = 0;
}

-- Lines 55 to 72.
unfoldable pub deduct : PendingChallenge → MockState → MockState × Result ClientError PaymentResult
deduct challenge s =
    if ltb s.balance challenge.amount_sats
    then (
      s,
      err (
          payment_failed (
            text "insufficient balance: have "
            ++ (print_u64 s.balance ++ (text " sats, need " ++ print_u64 challenge.amount_sats)))),
    )
    else (record s { balance = s.balance - challenge.amount_sats }, ok (payment_of challenge))

unfoldable pub pay_invoice : Text → ℕ → MockState → MockState × Result ClientError PaymentResult
pay_invoice bolt11 max_fee_sats s = elim (HashMap.get Text-discrete bolt11 s.challenges) [
  | none ↦ (s, err (payment_failed (text "unknown invoice: " ++ bolt11)))
  | some challenge ↦ deduct challenge s
]

abbrev pub get_balance : MockState → MockState × Result ClientError ℕ
get_balance s = (s, ok s.balance)

abbrev pub get_info : MockState → MockState × Result ClientError NodeInfo
get_info s = (
  s,
  ok (record {
    pubkey = text "mock_pubkey_000000000000000000000000000000000000000000000000000000000000";
    alias = text "bolt402-mock";
    num_active_channels = 1;
  }),
)

abbrev pub set_balance : ℕ → MockState → MockState
set_balance sats s = record s { balance = sats }

abbrev pub mock_backend : LnBackend MockState
mock_backend = record { pay_invoice = pay_invoice; get_balance = get_balance; get_info = get_info }
