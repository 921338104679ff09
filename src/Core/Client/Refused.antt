-- ===== src/Core/Client/Refused.antt =====
-- What a request leaves behind that the budget refused, where no other part reports a refusal.
use bolt.Core.Budget.{BudgetState}
use bolt.Core.Client.Flow.{
  Step, on_store, dispatch, send_request, send_with_auth, purchase, push_receipt, conclude, settle,
  request_unauthenticated, try_token, request, payment_required, plain,
}
use bolt.Core.Client.Extract.{extract_challenge}
use bolt.Core.Client.Monad.{pure, fail, lift, after, ◌>>=◌}
use bolt.Core.Client.Purchase.{purchase_cases}
use bolt.Core.Client.{
  L402Client, Session, Method, HttpRequest, HttpResponse, L402Response, Event, sent, paid,
}
use bolt.Core.Receipt.{Receipt}
use bolt.Prelude.{
  ℕ, Bool, true, false, Option, none, some, List, [], ◌∷◌, if◌then◌else◌, ◌==◌, Result, ok, err,
  map_err, inl, inr, Option-cases, Bool-cases, ◌≡◌, refl, ap, ◌∙◌,
}
use bolt.Proto.Challenge.{L402Challenge}
use bolt.Proto.Errors.{
  ClientError, protocol, payment_failed, budget_exceeded, missing_challenge, invoice_expired,
  retry_failed, backend, http,
}
use bolt.Proto.Port.{PaymentResult, TokenStore, LnBackend}
use bolt.Proto.Token.{L402Token, to_header_value}
use bolt.Text.{Text, text}

abbrev pub is_refusal : ClientError → Bool
is_refusal (protocol e) = false
is_refusal (payment_failed reason) = false
is_refusal (budget_exceeded reason) = true
is_refusal missing_challenge = false
is_refusal invoice_expired = false
is_refusal (retry_failed reason) = false
is_refusal (backend reason) = false
is_refusal (http reason) = false

abbrev pub is_refused : {A : Type 0} → Result ClientError A → Bool
is_refused (ok a) = false
is_refused (err e) = is_refusal e

-- The invoices that were handed to the backend.
abbrev invoices : List Event → List Text
invoices [] = []
invoices (sent r ∷ t) = invoices t
invoices (paid invoice ∷ t) = invoice ∷ invoices t

-- What a session has been charged, has paid and has got.
abbrev pub accounts :
    {World Store : Type 0} → Session World Store → List Text × BudgetState × List Receipt
accounts s = (invoices s.trace, s.budget_state, s.receipts)

-- The parts behind the ports never say that the client's budget is exceeded.
pub record IsQuietStore {Store : Type 0} (t : TokenStore Store) : Type 0 where
  pub put : (k m p : Text) (s : Store) → is_refused (t.put k m p s).1 ≡ false
  pub remove : (k : Text) (s : Store) → is_refused (t.remove k s).1 ≡ false

abbrev pub IsQuietBackend : {Node : Type 0} → LnBackend Node → Type 0
IsQuietBackend {Node} b =
    (invoice : Text) (fee : ℕ) (w : Node) → is_refused (b.pay_invoice invoice fee w).1 ≡ false

module _ {World Store : Type 0} where
  unfoldable IsQuiet : {A : Type 0} → Step World Store A → Type 0
  IsQuiet m = (s : Session World Store) → is_refused (m s).1 ≡ false

  unfoldable IsFree : {A : Type 0} → Step World Store A → Type 0
  IsFree m = (s : Session World Store) → accounts (m s).0 ≡ accounts s

  unfoldable pub IsHarmless : {A : Type 0} → Step World Store A → Type 0
  IsHarmless m =
      (s : Session World Store) → is_refused (m s).1 ≡ true → accounts (m s).0 ≡ accounts s

  IsFree-IsHarmless : {A : Type 0} (m : Step World Store A) → IsFree m → IsHarmless m
  unfolding IsFree IsHarmless
  IsFree-IsHarmless m f s e = f s

  IsQuiet-after :
      {A B : Type 0} (r : Session World Store × Result ClientError A) (k : A → Step World Store B)
      → is_refused r.1 ≡ false
      → ((a : A) → IsQuiet (k a))
      → is_refused (after r k).1 ≡ false
  unfolding IsQuiet
  IsQuiet-after (t, ok a) k q qk = qk a t
  IsQuiet-after (t, err x) k q qk = q

  IsQuiet-bind :
      {A B : Type 0} (m : Step World Store A) (k : A → Step World Store B)
      → IsQuiet m
      → ((a : A) → IsQuiet (k a))
      → IsQuiet (m >>= k)
  unfolding IsQuiet
  IsQuiet-bind m k q qk s = IsQuiet-after (m s) k (q s) qk

  IsHarmless-after :
      {A B : Type 0} (s : Session World Store) (r : Session World Store × Result ClientError A)
      (k : A → Step World Store B)
      → accounts r.0 ≡ accounts s
      → ((a : A) → IsHarmless (k a))
      → is_refused (after r k).1 ≡ true
      → accounts (after r k).0 ≡ accounts s
  unfolding IsHarmless
  IsHarmless-after s (t, ok a) k f h e = h a t e ∙ f
  IsHarmless-after s (t, err x) k f h e = f

  IsHarmless-bind :
      {A B : Type 0} (m : Step World Store A) (k : A → Step World Store B)
      → IsFree m
      → ((a : A) → IsHarmless (k a))
      → IsHarmless (m >>= k)
  unfolding IsHarmless IsFree
  IsHarmless-bind m k f h s e = IsHarmless-after s (m s) k (f s) h e

  IsHarmless-then :
      {A B : Type 0} (s : Session World Store) (r : Session World Store × Result ClientError A)
      (k : A → Step World Store B)
      → (is_refused r.1 ≡ true → accounts r.0 ≡ accounts s)
      → ((a : A) → IsQuiet (k a))
      → is_refused (after r k).1 ≡ true
      → accounts (after r k).0 ≡ accounts s
  unfolding IsQuiet
  IsHarmless-then s (t, ok a) k h q e = let q' = q a t in cc
  IsHarmless-then s (t, err x) k h q e = h e

  IsHarmless-quietly :
      {A B : Type 0} (m : Step World Store A) (k : A → Step World Store B)
      → IsHarmless m
      → ((a : A) → IsQuiet (k a))
      → IsHarmless (m >>= k)
  unfolding IsHarmless
  IsHarmless-quietly m k h q s e = IsHarmless-then s (m s) k (h s) q e

  IsHarmless-if :
      {A : Type 0} (b : Bool) (m n : Step World Store A)
      → IsHarmless m
      → IsHarmless n
      → IsHarmless (if b then m else n)
  IsHarmless-if true m n hm hn = hm
  IsHarmless-if false m n hm hn = hn

module _ (World Store : Type 0) where
  pure-IsHarmless : {A : Type 0} (a : A) → IsHarmless {World = World} {Store = Store} (pure a)
  unfolding IsHarmless
  pure-IsHarmless a s e = refl

  lift-IsFree :
      {A : Type 0} (r : Result ClientError A) → IsFree {World = World} {Store = Store} (lift r)
  unfolding IsFree
  lift-IsFree r s = refl

  fail-IsQuiet :
      (A : Type 0) (e : ClientError)
      → is_refusal e ≡ false
      → IsQuiet {World = World} {Store = Store} {A = A} (fail e)
  unfolding IsQuiet
  fail-IsQuiet A e h s = h

map_err-http : {A : Type 0} (r : Result Text A) → is_refused (map_err http r) ≡ false
map_err-http (ok a) = refl
map_err-http (err e) = refl

module _ {World Store : Type 0} (c : L402Client World Store) (store : IsQuietStore c.token_store)
    (node : IsQuietBackend c.env.backend) where
  on_store-IsFree : {A : Type 0} (f : Store → Store × Result ClientError A) → IsFree (on_store c f)
  unfolding on_store IsFree
  on_store-IsFree f s = refl

  on_store-IsQuiet :
      {A : Type 0} (f : Store → Store × Result ClientError A)
      → ((t : Store) → is_refused (f t).1 ≡ false)
      → IsQuiet (on_store c f)
  unfolding on_store IsQuiet
  on_store-IsQuiet f h s = h s.store

  dispatch-IsFree : (r : HttpRequest) → IsFree (dispatch c r)
  unfolding dispatch IsFree
  dispatch-IsFree r s = refl

  dispatch-IsQuiet : (r : HttpRequest) → IsQuiet (dispatch c r)
  unfolding dispatch IsQuiet
  dispatch-IsQuiet r s = map_err-http (c.env.send r s.world).1

  abbrev with_token : Method → Text → Option Text → L402Token → HttpRequest
  with_token m url body t = record (plain m url body) { authorization = some (to_header_value t) }

  send_with_auth-IsFree :
      (m : Method) (url : Text) (body : Option Text) (t : L402Token)
      → IsFree (send_with_auth c m url body t)
  unfolding IsFree send_with_auth
  send_with_auth-IsFree m url body t s =
      elim (Option-cases (c.env.header_error (to_header_value t))) [
        | inl e ↦ rw (send_with_auth, e) (dispatch-IsFree (with_token m url body t) s)
        | inr (x, e) ↦ rw (send_with_auth, e) refl
      ]

  send_with_auth-IsQuiet :
      (m : Method) (url : Text) (body : Option Text) (t : L402Token)
      → IsQuiet (send_with_auth c m url body t)
  unfolding IsQuiet send_with_auth
  send_with_auth-IsQuiet m url body t s =
      elim (Option-cases (c.env.header_error (to_header_value t))) [
        | inl e ↦ rw (is_refused, send_with_auth, e) (dispatch-IsQuiet (with_token m url body t) s)
        | inr (x, e) ↦ rw (is_refused, send_with_auth, e) refl
      ]

  purchase-IsHarmless : (url : Text) (x : L402Challenge) → IsHarmless (purchase c url x)
  unfolding IsHarmless
  purchase-IsHarmless url x s h = elim (purchase_cases c url x s) [
    | inl (a, e) ↦
        (let q = node x.invoice c.config.max_fee_sats s.world in
          let r =
            ap (λ (r : Session World Store × Result ClientError PaymentResult). is_refused r.1) e in
          cc)
    | inr (n, (reason, e)) ↦
        ap (λ (r : Session World Store × Result ClientError PaymentResult). accounts r.0) e
  ]

  conclude-IsQuiet :
      (start : World) (url : Text) (y : PaymentResult) (r : HttpResponse)
      → IsQuiet (conclude c start url y r)
  unfolding conclude push_receipt IsQuiet
  conclude-IsQuiet start url y r s = elim (Bool-cases (r.status == payment_required)) [
    | inl e ↦ rw e (
        IsQuiet-after (on_store c (c.token_store.remove url) s) _
          (on_store-IsQuiet (c.token_store.remove url) (store.remove url) s)
          (λ u.
            fail-IsQuiet World Store L402Response
              (retry_failed (text "server returned 402 again after payment")) refl))
    | inr e ↦ rw e refl
  ]

  settle-IsHarmless :
      (start : World) (m : Method) (url : Text) (body : Option Text) (x : L402Challenge)
      → IsHarmless (settle c start m url body x)
  unfolding settle
  settle-IsHarmless start m url body x =
      IsHarmless-quietly (purchase c url x) _ (purchase-IsHarmless url x) (λ y.
        IsQuiet-bind (on_store c (c.token_store.put url x.macaroon y.preimage)) _
          (on_store-IsQuiet _ (store.put url x.macaroon y.preimage))
          (λ u.
            IsQuiet-bind (send_with_auth c m url body _) _ (send_with_auth-IsQuiet m url body _)
              (λ r. conclude-IsQuiet start url y r)))

  request_unauthenticated-IsHarmless :
      (start : World) (m : Method) (url : Text) (body : Option Text)
      → IsHarmless (request_unauthenticated c start m url body)
  unfolding request_unauthenticated send_request
  request_unauthenticated-IsHarmless start m url body =
      IsHarmless-bind (dispatch c (plain m url body)) _ (dispatch-IsFree _) (λ r.
        IsHarmless-if (r.status == payment_required) _ _
          (IsHarmless-bind (lift (extract_challenge c.std c.base64 r)) _ (lift-IsFree World Store _)
            (λ x. settle-IsHarmless start m url body x))
          (pure-IsHarmless World Store _))

  try_token-IsHarmless :
      (start : World) (m : Method) (url : Text) (body : Option Text) (o : Option (Text × Text))
      → IsHarmless (try_token c start m url body o)
  unfolding try_token
  try_token-IsHarmless start m url body none = request_unauthenticated-IsHarmless start m url body
  try_token-IsHarmless start m url body (some (macaroon, preimage)) =
      IsHarmless-bind (send_with_auth c m url body _) _ (send_with_auth-IsFree m url body _) (λ r.
        IsHarmless-if (r.status == payment_required) _ _
          (IsHarmless-bind (on_store c (c.token_store.remove url)) _ (on_store-IsFree _)
            (λ u. request_unauthenticated-IsHarmless start m url body))
          (pure-IsHarmless World Store _))

  pub request-IsHarmless :
      (m : Method) (url : Text) (body : Option Text) → IsHarmless (request c m url body)
  unfolding request IsHarmless IsFree
  request-IsHarmless m url body s e =
      IsHarmless-after s (on_store c (c.token_store.get url) s) (try_token c s.world m url body)
        (on_store-IsFree _ s) (λ o. try_token-IsHarmless s.world m url body o) e
