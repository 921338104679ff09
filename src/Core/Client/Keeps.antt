-- ===== src/Core/Client/Keeps.antt =====
-- Rules for a property that every step keeps.
use bolt.Core.Client.Flow.{
  on_store, dispatch, send_request, send_with_auth, purchase, push_receipt, conclude, settle,
  request_unauthenticated, try_token, request, payment_required, make_receipt, plain,
}
use bolt.Core.Client.Extract.{extract_challenge}
use bolt.Core.Client.Monad.{M, fail, lift, after, ◌>>=◌, ◌>>◌}
use bolt.Core.Client.{L402Client, Session, Method, HttpRequest, HttpResponse}
use bolt.Prelude.{
  Bool, true, false, Option, none, some, if◌then◌else◌, ◌==◌, Result, ok, err, inl, inr,
  Option-cases, ◌≡◌, refl, ap,
}
use bolt.Proto.Challenge.{L402Challenge}
use bolt.Proto.Errors.{ClientError, retry_failed}
use bolt.Proto.Port.{PaymentResult}
use bolt.Proto.Token.{L402Token, to_header_value}
use bolt.Text.{Text, text}

abbrev pub Keeps : {S A : Type 0} → (S → Type 0) → M S A → Type 0
Keeps {S} P m = (s : S) → P s → P (m s).0

Keeps-after :
    {S A B : Type 0} (P : S → Type 0) (r : S × Result ClientError A) (f : A → M S B)
    → P r.0
    → ((a : A) → Keeps P (f a))
    → P (after r f).0
Keeps-after P (s, ok a) f p k = k a s p
Keeps-after P (s, err e) f p k = p

pub Keeps-bind :
    {S A B : Type 0} (P : S → Type 0) (m : M S A) (f : A → M S B)
    → Keeps P m
    → ((a : A) → Keeps P (f a))
    → Keeps P (m >>= f)
Keeps-bind P m f km kf s p = Keeps-after P (m s) f (km s p) kf

-- The same, where the rest only needs to keep it for what the first step can return.
Keeps-bind_ok :
    {S A B : Type 0} (P : S → Type 0) (m : M S A) (f : A → M S B)
    → Keeps P m
    → ((s : S) (a : A) → (m s).1 ≡ ok a → Keeps P (f a))
    → Keeps P (m >>= f)
Keeps-bind_ok {S} {A} P m f km kf s p = go (m s) refl (km s p)
  where
    go : (r : S × Result ClientError A) → m s ≡ r → P r.0 → P (after r f).0
    go (t, ok a) e q = kf s a (ap (λ (x : S × Result ClientError A). x.1) e) t q
    go (t, err x) e q = q

pub Keeps-if :
    {S A : Type 0} (P : S → Type 0) (b : Bool) (m n : M S A)
    → Keeps P m
    → Keeps P n
    → Keeps P (if b then m else n)
Keeps-if P true m n km kn = km
Keeps-if P false m n km kn = kn

-- A property that the store, the world and a sent request do not touch, that a purchase keeps, and
-- that the receipt of a payment keeps that a purchase returns, is kept by a whole request.
module _ {World Store : Type 0} (c : L402Client World Store) (P : Session World Store → Type 0)
    (store : (A : Type 0) (f : Store → Store × Result ClientError A)
      → Keeps {A = A} P (on_store c f))
    (send : (r : HttpRequest) → Keeps P (dispatch c r)) (Good : PaymentResult → Type 0)
    (receipt : (r : HttpResponse) (start : World) (url : Text) (y : PaymentResult)
        (s : Session World Store)
      → Good y
      → Keeps P (push_receipt c r (make_receipt c start url y r s)))
    (good : (url : Text) (x : L402Challenge) (s : Session World Store) (y : PaymentResult)
      → (purchase c url x s).1 ≡ ok y
      → Good y)
    (buy : (url : Text) (x : L402Challenge) → Keeps P (purchase c url x)) where
  Keeps-send_with_auth :
      (m : Method) (url : Text) (body : Option Text) (t : L402Token)
      → Keeps P (send_with_auth c m url body t)
  unfolding send_with_auth
  Keeps-send_with_auth m url body t s p =
      elim (Option-cases (c.env.header_error (to_header_value t))) [
        | inl e ↦ rw (send_with_auth, e) (send _ s p)
        | inr (x, e) ↦ rw (send_with_auth, e) p
      ]

  Keeps-conclude :
      (start : World) (url : Text) (x : PaymentResult) (r : HttpResponse)
      → Good x
      → Keeps P (conclude c start url x r)
  unfolding conclude
  Keeps-conclude start url x r g s p =
      Keeps-if P (r.status == payment_required)
        (on_store c (c.token_store.remove url)
          >> fail (retry_failed (text "server returned 402 again after payment")))
        (push_receipt c r (make_receipt c start url x r s))
        (Keeps-bind P (on_store c (c.token_store.remove url)) _ (store _ _) (λ u t q. q))
        (receipt r start url x s g) s p

  Keeps-settle :
      (start : World) (m : Method) (url : Text) (body : Option Text) (x : L402Challenge)
      → Keeps P (settle c start m url body x)
  unfolding settle
  Keeps-settle start m url body x = Keeps-bind_ok P (purchase c url x) _ (buy url x) (λ s y paid.
      Keeps-bind P (on_store c (c.token_store.put url x.macaroon y.preimage)) _ (store _ _) (λ u.
        Keeps-bind P (send_with_auth c m url body _) _ (Keeps-send_with_auth m url body _)
          (λ r. Keeps-conclude start url y r (good url x s y paid))))

  Keeps-request_unauthenticated :
      (start : World) (m : Method) (url : Text) (body : Option Text)
      → Keeps P (request_unauthenticated c start m url body)
  unfolding request_unauthenticated send_request
  Keeps-request_unauthenticated start m url body =
      Keeps-bind P (dispatch c (plain m url body)) _ (send _) (λ r.
        Keeps-if P (r.status == payment_required) _ _
          (Keeps-bind P (lift (extract_challenge c.std c.base64 r)) _ (λ s p. p)
            (λ x. Keeps-settle start m url body x))
          (λ s p. p))

  Keeps-try_token :
      (start : World) (m : Method) (url : Text) (body : Option Text) (o : Option (Text × Text))
      → Keeps P (try_token c start m url body o)
  unfolding try_token
  Keeps-try_token start m url body none = Keeps-request_unauthenticated start m url body
  Keeps-try_token start m url body (some (macaroon, preimage)) =
      Keeps-bind P (send_with_auth c m url body _) _ (Keeps-send_with_auth m url body _) (λ r.
        Keeps-if P (r.status == payment_required) _ _
          (Keeps-bind P (on_store c (c.token_store.remove url)) _ (store _ _)
            (λ u. Keeps-request_unauthenticated start m url body))
          (λ s p. p))

  pub Keeps-request :
      (m : Method) (url : Text) (body : Option Text) → Keeps P (request c m url body)
  unfolding request
  Keeps-request m url body s p =
      Keeps-bind P (on_store c (c.token_store.get url)) (try_token c s.world m url body) (store _ _)
        (λ o. Keeps-try_token s.world m url body o) s p
