-- ===== src/Core/Client/Threads.antt =====
-- Requests that run at the same time on one client: `request` and its helpers again, cut at the
-- awaits. Between two steps of a request the other requests of the client can run; a step is what is
-- done under one lock, or one call that leaves the client.
pub mod Alone
pub mod Solvent
pub mod Covered
use bolt.Core.Client.Extract.{extract_challenge, invoice_amount_sats}
use bolt.Core.Client.Flow.{
  Step, on_store, send_request, send_with_auth, charge, pay, make_receipt, push_receipt, unpaid,
  payment_required,
}
use bolt.Core.Client.Monad.{M}
use bolt.Core.Client.{L402Client, Session, Method, HttpResponse, L402Response}
use bolt.Core.Receipt.{Receipt}
use bolt.Prelude.{
  ℕ, Bool, true, false, Option, none, some, List, [], ◌∷◌, ◌++◌, ◌≡◌, ◌==◌, if◌then◌else◌, Result,
  ok, err,
}
use bolt.Proto.Challenge.{L402Challenge}
use bolt.Proto.Errors.{ClientError, retry_failed}
use bolt.Proto.Port.{PaymentResult}
use bolt.Text.{Text, text}

-- What is left of a request: its result, or its next step and what follows, which both look at the
-- session as it is when the step is made.
pub data Thread (World Store : Type 0) : Type 0 where
  done : Result ClientError L402Response → Thread World Store
  next :
      (Session World Store → Session World Store)
      → (Session World Store → Thread World Store)
      → Thread World Store

module _ {World Store : Type 0} where
  -- `?` returns the error.
  unfoldable pub resume :
      {A : Type 0} → Result ClientError A → (A → Thread World Store) → Thread World Store
  resume (ok a) k = k a
  resume (err e) k = done (err e)

  unfoldable pub and_then :
      {A : Type 0} → Step World Store A → (A → Thread World Store) → Thread World Store
  and_then m k = next (λ s. (m s).0) (λ s. resume (m s).1 k)

  -- Where no other request runs.
  unfoldable pub alone : Thread World Store → Step World Store L402Response
  alone (done r) s = (s, r)
  alone (next f k) s = alone (k s) (f s)

module _ {World Store : Type 0} (c : L402Client World Store) where
  -- The clock is read before the list of receipts is locked.
  unfoldable pub conclude_thread : World → Text → PaymentResult → HttpResponse → Thread World Store
  conclude_thread start url payment response =
      if response.status == payment_required
      then and_then (on_store c (c.token_store.remove url))
          (λ u. done (err (retry_failed (text "server returned 402 again after payment"))))
      else and_then (λ s. (s, ok (make_receipt c start url payment response s)))
          (λ receipt. and_then (push_receipt c response receipt) (λ x. done (ok x)))

  unfoldable pub settle_thread :
      World → Method → Text → Option Text → L402Challenge → Thread World Store
  settle_thread start method url body challenge =
      and_then (charge c (invoice_amount_sats c.std challenge.invoice) (c.env.host_of url)) (λ u.
        and_then (pay c challenge.invoice) (λ payment.
          and_then (on_store c (c.token_store.put url challenge.macaroon payment.preimage)) (λ v.
            and_then
              (send_with_auth c method url body
                (record { macaroon = challenge.macaroon; preimage = payment.preimage }))
              (λ retry. conclude_thread start url payment retry))))

  unfoldable pub unauthenticated_thread : World → Method → Text → Option Text → Thread World Store
  unauthenticated_thread start method url body =
      and_then (send_request c method url body) (λ response.
        if response.status == payment_required
        then resume (extract_challenge c.std c.base64 response)
            (λ challenge. settle_thread start method url body challenge)
        else done (ok (unpaid c false response)))

  unfoldable pub token_thread :
      World → Method → Text → Option Text → Option (Text × Text) → Thread World Store
  token_thread start method url body none = unauthenticated_thread start method url body
  token_thread start method url body (some (macaroon, preimage)) =
      and_then
        (send_with_auth c method url body (record { macaroon = macaroon; preimage = preimage }))
        (λ response.
          if response.status == payment_required
          then and_then (on_store c (c.token_store.remove url))
              (λ u. unauthenticated_thread start method url body)
          else done (ok (unpaid c true response)))

  unfoldable pub request_thread : Method → Text → Option Text → Thread World Store
  request_thread method url body =
      and_then (λ s. (s, ok s.world))
        (λ start.
          and_then (on_store c (c.token_store.get url)) (token_thread start method url body))

  -- A schedule, up to the session `end` and what is left of the requests: at each point a request of
  -- the caller starts, or one of the running requests makes its next step.
  pub data Schedule (end : Session World Store) (left : List (Thread World Store))
      : Session World Store → List (Thread World Store) → Type 0 where
    stop : Schedule end left end left
    arrive :
        {s : Session World Store} {ts : List (Thread World Store)} (m : Method) (url : Text)
        (body : Option Text)
        → Schedule end left s (request_thread m url body ∷ ts)
        → Schedule end left s ts
    turn :
        {s : Session World Store} (before after : List (Thread World Store))
        (f : Session World Store → Session World Store)
        (k : Session World Store → Thread World Store)
        → Schedule end left (f s) (before ++ k s ∷ after)
        → Schedule end left s (before ++ next f k ∷ after)
