-- ===== src/Mock/Backend/Balance.antt =====
-- The simulated balance over a run of payments.
use bolt.HashMap
use bolt.Mock.Backend.{payment_of, deduct, pay_invoice}
use bolt.Mock.{PendingChallenge, MockState}
use bolt.Prelude.{
  ℕ, ◌+◌, ◌-◌, ◌≤◌, ◌≡◌, inl, inr, refl, false, some, List, [], ◌∷◌, ltb, arith, Bool-cases,
  Option-cases, Result, ok, err,
}
use bolt.Proto.Errors.{ClientError}
use bolt.Proto.Port.{PaymentResult}
use bolt.Text.Equality.{Text-discrete}
use bolt.Text.{Text}

-- The amount and the fee of a payment that succeeded.
abbrev pub cost : Result ClientError PaymentResult → ℕ
cost (ok p) = p.amount_sats + p.fee_sats
cost (err e) = 0

-- Payments one after the other, each an invoice and a fee limit, and what they cost together.
abbrev pub pay_all : List (Text × ℕ) → MockState → MockState × ℕ
pay_all [] s = (s, 0)
pay_all ((bolt11, fee) ∷ calls) s =
    let r = pay_invoice bolt11 fee s in let rest = pay_all calls r.0 in (rest.0, cost r.1 + rest.1)

deduct-balance :
    (c : PendingChallenge) (s : MockState)
    → (deduct c s).0.balance + cost (deduct c s).1 ≡ s.balance
unfolding deduct
deduct-balance c s = elim (Bool-cases (ltb s.balance c.amount_sats)) [
  | inl e ↦ rw (deduct, e) (omega arith)
  | inr e ↦ rw (deduct, e) (ground arith)
]

pay_invoice-balance :
    (bolt11 : Text) (fee : ℕ) (s : MockState)
    → (pay_invoice bolt11 fee s).0.balance + cost (pay_invoice bolt11 fee s).1 ≡ s.balance
unfolding pay_invoice
pay_invoice-balance bolt11 fee s =
    elim (Option-cases (HashMap.get Text-discrete bolt11 s.challenges)) [
      | inl e ↦ rw (pay_invoice, e) (omega arith)
      | inr (c, e) ↦ rw (pay_invoice, e) (deduct-balance c s)
    ]

-- Over any payments, whether they succeed or not, the balance that is left and the amounts and fees
-- that the payments report add up to the balance before.
pub pay_all-balance :
    (calls : List (Text × ℕ)) (s : MockState)
    → (pay_all calls s).0.balance + (pay_all calls s).1 ≡ s.balance
pay_all-balance [] s = omega arith
pay_all-balance ((bolt11, fee) ∷ calls) s =
    omega
      (arith, pay_invoice-balance bolt11 fee s, pay_all-balance calls (pay_invoice bolt11 fee s).0)

-- An invoice of the registry that the balance covers is paid, with the challenge's preimage.
pub pay_invoice-paid :
    (bolt11 : Text) (fee : ℕ) (s : MockState) {c : PendingChallenge}
    → HashMap.get Text-discrete bolt11 s.challenges ≡ some c
    → c.amount_sats ≤ s.balance
    → pay_invoice bolt11 fee s
      ≡ (record s { balance = s.balance - c.amount_sats }, ok (payment_of c))
unfolding pay_invoice deduct
pay_invoice-paid bolt11 fee s {c} g h =
    let e : ltb s.balance c.amount_sats ≡ false = ground arith in
    rw (pay_invoice, g, deduct, e) refl
