-- ===== src/Core/Client/Receipts.antt =====
-- What the backend promises of a payment that it reports, the client's receipts have.
use bolt.Core.Client.Flow.{on_store, dispatch, push_receipt, make_receipt, purchase, request}
use bolt.Core.Client.Keeps.{Keeps, Keeps-request}
use bolt.Core.Client.Purchase.{purchase_cases}
use bolt.Core.Client.Spending.{Call, run}
use bolt.Core.Client.{L402Client, Session, Method, new_session}
use bolt.Core.Receipt.{Receipt}
use bolt.Prelude.{
  ℕ, ◌≡◌, sym, ap, ◌∙◌, inl, inr, err-ne-ok, Option, List, [], ◌∷◌, Result, ok, All, All-append,
}
use bolt.Proto.Challenge.{L402Challenge}
use bolt.Proto.Errors.{ClientError}
use bolt.Proto.Port.{PaymentResult}
use bolt.Text.{Text}

-- The payment that a receipt is for.
abbrev pub payment_of : Receipt → PaymentResult
payment_of r = record {
  preimage = r.preimage;
  payment_hash = r.payment_hash;
  amount_sats = r.amount_sats;
  fee_sats = r.fee_sats;
}

module _ {World Store : Type 0} (c : L402Client World Store) (Good : PaymentResult → Type 0) where
  abbrev pub AllGood : Session World Store → Type 0
  AllGood s = All (λ r. Good (payment_of r)) s.receipts

  module _
      (promise : (invoice : Text) (max_fee_sats : ℕ) (w : World) (p : PaymentResult)
        → (c.env.backend.pay_invoice invoice max_fee_sats w).1 ≡ ok p
        → Good p) where
    purchase-Good :
        (url : Text) (x : L402Challenge) (s : Session World Store) (y : PaymentResult)
        → (purchase c url x s).1 ≡ ok y
        → Good y
    purchase-Good url x s y h = elim (purchase_cases c url x s) [
      | inl (a, e) ↦
          promise x.invoice c.config.max_fee_sats s.world y
            (ap (λ (r : Session World Store × Result ClientError PaymentResult). r.1) (sym e) ∙ h)
      | inr (n, (reason, e)) ↦ absurd (
          err-ne-ok
            (ap (λ (r : Session World Store × Result ClientError PaymentResult). r.1) (sym e) ∙ h))
    ]

    request-AllGood :
        (m : Method) (url : Text) (body : Option Text) → Keeps AllGood (request c m url body)
    request-AllGood =
        Keeps-request c AllGood (λ A f s h. unfold on_store in h) (λ r s h. unfold dispatch in h)
          Good
          (λ r start url y t g s h.
            unfold push_receipt make_receipt in All-append _ s.receipts _ h (g, tt))
          purchase-Good
          (λ url x s h. elim (purchase_cases c url x s) [
            | inl (a, e) ↦ rw e h
            | inr (n, (reason, e)) ↦ rw e h
          ])

    run-AllGood_from :
        (calls : List Call) (s : Session World Store) → AllGood s → AllGood (run c calls s)
    unfolding run
    run-AllGood_from [] s h = h
    run-AllGood_from (x ∷ calls) s h =
        run-AllGood_from calls _ (request-AllGood x.method x.url x.body s h)

-- A new client whose backend reports a payment only where it has a property: after any requests,
-- whatever the servers and the token store do, every receipt of the client has that property.
pub run-AllGood :
    {World Store : Type 0} (c : L402Client World Store) (Good : PaymentResult → Type 0)
    (world : World) (store : Store) (calls : List Call)
    → ((invoice : Text) (max_fee_sats : ℕ) (w : World) (p : PaymentResult)
        → (c.env.backend.pay_invoice invoice max_fee_sats w).1 ≡ ok p
        → Good p)
    → AllGood c Good (run c calls (new_session world store))
run-AllGood c Good world store calls promise =
    run-AllGood_from c Good promise calls (new_session world store) tt
