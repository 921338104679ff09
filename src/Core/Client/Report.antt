-- ===== src/Core/Client/Report.antt =====
-- What one request reports, against what it did.
use bolt.Core.Client.Flow.{payment_required}
use bolt.Core.Client.Monad.{M, after}
use bolt.Core.Client.{Session, L402Response, Event, sent, paid}
use bolt.Core.Receipt.{Receipt}
use bolt.Prelude.{
  ℕ, ◌+◌, ◌≤◌, ◌≡◌, ◌≢◌, ◌∙◌, ap, true, false, none, some, List, [], ◌∷◌, ◌++◌, ◌⊎◌, inl, inr,
  Result, ok, err, arith,
}
use bolt.Proto.Errors.{ClientError}
use bolt.Text.{Text}

-- The invoices that were handed to the backend.
abbrev pub payments : List Event → ℕ
payments [] = 0
payments (sent r ∷ t) = payments t
payments (paid invoice ∷ t) = payments t + 1

module _ {World Store : Type 0} where
  -- Nothing was paid, charged or noted.
  pub record Quiet (s t : Session World Store) : Type 0 where
    pub receipts : t.receipts ≡ s.receipts
    pub payments_same : payments t.trace ≡ payments s.trace
    pub budget_same : t.budget_state ≡ s.budget_state

  -- An answer for which nothing was paid.
  pub record IsFree (s t : Session World Store) (x : L402Response) : Type 0 where
    pub not_paid : x.paid ≡ false
    pub no_receipt : x.receipt ≡ none
    pub quiet : Quiet s t

  -- An answer for which one invoice was paid: its receipt is the last of the client's receipts.
  pub record IsBought (url : Text) (s t : Session World Store) (x : L402Response) : Type 0 where
    pub was_paid : x.paid ≡ true
    pub not_cached : x.cached_token ≡ false
    pub last : Receipt
    pub receipt : x.receipt ≡ some last
    pub receipts : t.receipts ≡ s.receipts ++ last ∷ []
    pub status : last.response_status ≡ x.inner.status
    pub endpoint : last.endpoint ≡ url
    pub one_payment : payments t.trace ≡ payments s.trace + 1

  -- A failed request keeps the receipts. It has paid at most one invoice.
  pub record IsFailed (s t : Session World Store) : Type 0 where
    pub receipts : t.receipts ≡ s.receipts
    pub at_least : payments s.trace ≤ payments t.trace
    pub at_most : payments t.trace ≤ payments s.trace + 1

  abbrev pub Report :
      Text → Session World Store → Session World Store × Result ClientError L402Response → Type 0
  Report url s (t, ok x) = (x.inner.status ≢ payment_required) × (IsFree s t x ⊎ IsBought url s t x)
  Report url s (t, err e) = IsFailed s t

  pub Quiet-trans : {s t u : Session World Store} → Quiet s t → Quiet t u → Quiet s u
  Quiet-trans p q = record {
    receipts = q.receipts ∙ p.receipts;
    payments_same = q.payments_same ∙ p.payments_same;
    budget_same = q.budget_same ∙ p.budget_same;
  }

  pub Quiet-IsFailed : {s t : Session World Store} → Quiet s t → IsFailed s t
  Quiet-IsFailed q = record {
    receipts = q.receipts;
    at_least = omega (arith, q.payments_same);
    at_most = omega (arith, q.payments_same);
  }

  -- What is reported from a later session holds from an earlier one, if nothing happened between.
  pub Report-Quiet :
      (url : Text) (s t : Session World Store)
      (r : Session World Store × Result ClientError L402Response)
      → Quiet s t
      → Report url t r
      → Report url s r
  Report-Quiet url s t (u, ok x) q (st, inl f) = (
    st,
    inl (record {
      not_paid = f.not_paid;
      no_receipt = f.no_receipt;
      quiet = Quiet-trans q f.quiet;
    }),
  )
  Report-Quiet url s t (u, ok x) q (st, inr b) = (
    st,
    inr (record {
      was_paid = b.was_paid;
      not_cached = b.not_cached;
      last = b.last;
      receipt = b.receipt;
      receipts = b.receipts ∙ ap (λ (l : List Receipt). l ++ b.last ∷ []) q.receipts;
      status = b.status;
      endpoint = b.endpoint;
      one_payment = omega (arith, b.one_payment, q.payments_same);
    }),
  )
  Report-Quiet url s t (u, err e) q f = record {
    receipts = f.receipts ∙ q.receipts;
    at_least = omega (arith, f.at_least, q.payments_same);
    at_most = omega (arith, f.at_most, q.payments_same);
  }

  -- The rest of a block, after a step that did nothing that counts.
  pub Report-after :
      {A : Type 0} (url : Text) (s : Session World Store)
      (r : Session World Store × Result ClientError A)
      (f : A → M (Session World Store) L402Response)
      → Quiet s r.0
      → ((a : A) → Report url r.0 (f a r.0))
      → Report url s (after r f)
  Report-after url s (t, ok a) f q h = Report-Quiet url s t (f a t) q (h a)
  Report-after url s (t, err e) f q h = Quiet-IsFailed q

  -- The same after a payment.
  pub record IsPaid (s t : Session World Store) : Type 0 where
    pub receipts : t.receipts ≡ s.receipts
    pub one_payment : payments t.trace ≡ payments s.trace + 1

  -- Behind the payment an answer has its receipt, and an error has none.
  abbrev pub Settled :
      Text → Session World Store → Session World Store × Result ClientError L402Response → Type 0
  Settled url s (t, ok x) = (x.inner.status ≢ payment_required) × IsBought url s t x
  Settled url s (t, err e) = IsFailed s t
