-- ===== src/Nwc/Client.antt =====
-- A client that pays through Nostr Wallet Connect.
use bolt.Core.Client.Receipts.{AllGood, run-AllGood}
use bolt.Core.Client.Spending.{Call, run}
use bolt.Core.Client.{L402Client, new_session}
use bolt.Nwc.{NwcBackend, PayInvoiceResponse, nwc_backend, pay_invoice, nwc_error}
use bolt.Prelude.{
  ℕ, ◌/◌, ◌≡◌, refl, sym, ap, List, [], ok, unwrap_or, map_err, >>=-eq-ok, ok-injective,
  map_err-eq-ok,
}
use bolt.Proto.Port.{PaymentResult}
use bolt.Text.{Text}

-- What is missing of a payment: there is no payment hash, and the amount is 0 whatever was paid. The
-- preimage and the fee are the wallet's.
pub record IsBare {Node : Type 0} (b : NwcBackend Node) (p : PaymentResult) : Type 0 where
  pub invoice : Text
  pub node : Node
  pub response : PayInvoiceResponse
  pub answered : (b.nwc.pay_invoice invoice node).1 ≡ ok response
  pub preimage : p.preimage ≡ response.preimage
  pub no_hash : p.payment_hash ≡ []
  pub no_amount : p.amount_sats ≡ 0
  pub fee : p.fee_sats ≡ unwrap_or response.fees_paid 0 / 1_000

pay_invoice-IsBare :
    {Node : Type 0} (b : NwcBackend Node) (invoice : Text) (max_fee_sats : ℕ) (node : Node)
    {p : PaymentResult}
    → (pay_invoice b invoice max_fee_sats node).1 ≡ ok p
    → IsBare b p
unfolding pay_invoice
pay_invoice-IsBare b invoice max_fee_sats node {p} h =
    let (response, e, rest) =
      >>=-eq-ok (map_err nwc_error (b.nwc.pay_invoice invoice node).1) _ h in
    let same = ok-injective refl rest in
    record {
      invoice = invoice;
      node = node;
      response = response;
      answered = map_err-eq-ok nwc_error _ e;
      preimage = ap (λ (q : PaymentResult). q.preimage) (sym same);
      no_hash = ap (λ (q : PaymentResult). q.payment_hash) (sym same);
      no_amount = ap (λ (q : PaymentResult). q.amount_sats) (sym same);
      fee = ap (λ (q : PaymentResult). q.fee_sats) (sym same);
    }

-- `builder.ln_backend(backend)`.
abbrev pub with_nwc :
    {World Store : Type 0} → NwcBackend World → L402Client World Store → L402Client World Store
with_nwc b c = record c { env = record c.env { backend = nwc_backend b } }

-- After any requests of a new client that pays through Nostr Wallet Connect, whatever the wallet, the
-- servers and the token store answer: every receipt has the preimage and the fee of an answer of the
-- wallet, but no payment hash, and its amount is 0.
pub run-IsBare :
    {World Store : Type 0} (b : NwcBackend World) (c : L402Client World Store) (world : World)
    (store : Store) (calls : List Call)
    → AllGood (with_nwc b c) (IsBare b) (run (with_nwc b c) calls (new_session world store))
run-IsBare b c world store calls =
    run-AllGood (with_nwc b c) (IsBare b) world store calls
      (λ invoice fee w p h. pay_invoice-IsBare b invoice fee w h)
