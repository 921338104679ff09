-- ===== src/Core/Client/Threads/Alone.antt =====
-- A request that runs alone is `request`.
use bolt.Core.Client.Extract.{extract_challenge}
use bolt.Core.Client.Flow.{
  Step, on_store, send_request, send_with_auth, charge, pay, purchase, push_receipt, conclude,
  settle, request_unauthenticated, try_token, request, payment_required,
}
use bolt.Core.Client.Monad.{M, after, ◌>>=◌}
use bolt.Core.Client.Threads.{
  Thread, resume, and_then, alone, conclude_thread, settle_thread, unauthenticated_thread,
  token_thread, request_thread,
}
use bolt.Core.Client.{L402Client, Session, Method, HttpResponse, L402Response}
use bolt.Prelude.{
  Option, none, some, ◌≡◌, refl, sym, ◌∙◌, ◌==◌, Result, ok, err, Bool-cases, inl, inr,
}
use bolt.Proto.Challenge.{L402Challenge}
use bolt.Proto.Errors.{ClientError}
use bolt.Proto.Port.{PaymentResult}
use bolt.Text.{Text}

module _ {World Store : Type 0} where
  alone-resume :
      {A : Type 0} (r : Session World Store × Result ClientError A) (k : A → Thread World Store)
      (g : A → Step World Store L402Response)
      → ((a : A) (s : Session World Store) → alone (k a) s ≡ g a s)
      → alone (resume r.1 k) r.0 ≡ after r g
  unfolding alone resume
  alone-resume (s, ok a) k g h = h a s
  alone-resume (s, err e) k g h = refl

  -- A step of a thread is a step of a block.
  alone-and_then :
      {A : Type 0} (m : Step World Store A) (k : A → Thread World Store)
      (g : A → Step World Store L402Response) (s : Session World Store)
      → ((a : A) (s : Session World Store) → alone (k a) s ≡ g a s)
      → alone (and_then m k) s ≡ (m >>= g) s
  unfolding alone and_then
  alone-and_then m k g s h = alone-resume (m s) k g h

after_assoc :
    {S A B C : Type 0} (r : S × Result ClientError A) (f : A → M S B) (g : B → M S C)
    → after (after r f) g ≡ after r (λ a. f a >>= g)
after_assoc (s, ok a) f g = refl
after_assoc (s, err e) f g = refl

module _ {World Store : Type 0} (c : L402Client World Store) where
  alone-conclude :
      (start : World) (url : Text) (y : PaymentResult) (r : HttpResponse) (s : Session World Store)
      → alone (conclude_thread c start url y r) s ≡ conclude c start url y r s
  unfolding conclude conclude_thread alone push_receipt and_then resume
  alone-conclude start url y r s = elim (Bool-cases (r.status == payment_required)) [
    | inl e ↦ rw e (alone-and_then (on_store c (c.token_store.remove url)) _ _ s (λ u t. refl))
    | inr e ↦ rw e refl
  ]

  alone-settle :
      (start : World) (m : Method) (url : Text) (body : Option Text) (x : L402Challenge)
      (s : Session World Store)
      → alone (settle_thread c start m url body x) s ≡ settle c start m url body x s
  unfolding settle settle_thread purchase
  alone-settle start m url body x s =
      alone-and_then (charge c _ _) _ (λ u. pay c x.invoice >>= _) s
        (λ u t. alone-and_then (pay c x.invoice) _ _ t (λ y t.
          alone-and_then (on_store c (c.token_store.put url x.macaroon y.preimage)) _ _ t (λ v t.
            alone-and_then (send_with_auth c m url body _) _ _ t
              (λ r t. alone-conclude start url y r t))))
      ∙ sym (after_assoc (charge c _ _ s) (λ u. pay c x.invoice) _)

  alone-unauthenticated :
      (start : World) (m : Method) (url : Text) (body : Option Text) (s : Session World Store)
      → alone (unauthenticated_thread c start m url body) s
        ≡ request_unauthenticated c start m url body s
  unfolding request_unauthenticated unauthenticated_thread alone
  alone-unauthenticated start m url body s =
      alone-and_then (send_request c m url body) _ _ s (λ r t.
        elim (Bool-cases (r.status == payment_required)) [
          | inl e ↦ rw e (
              alone-resume (t, extract_challenge c.std c.base64 r) _ _
                (λ x t. alone-settle start m url body x t))
          | inr e ↦ rw e refl
        ])

  alone-token :
      (start : World) (m : Method) (url : Text) (body : Option Text) (o : Option (Text × Text))
      (s : Session World Store)
      → alone (token_thread c start m url body o) s ≡ try_token c start m url body o s
  unfolding token_thread try_token alone
  alone-token start m url body none s = alone-unauthenticated start m url body s
  alone-token start m url body (some (macaroon, preimage)) s =
      alone-and_then (send_with_auth c m url body _) _ _ s (λ r t.
        elim (Bool-cases (r.status == payment_required)) [
          | inl e ↦ rw e (
              alone-and_then (on_store c (c.token_store.remove url)) _ _ t
                (λ u t. alone-unauthenticated start m url body t))
          | inr e ↦ rw e refl
        ])

  -- A request whose steps are made without another request in between does what `request` does, in
  -- the same order, and has the same result.
  pub alone-request_thread :
      (m : Method) (url : Text) (body : Option Text) (s : Session World Store)
      → alone (request_thread c m url body) s ≡ request c m url body s
  unfolding request request_thread
  alone-request_thread m url body s =
      alone-and_then (λ t. (t, ok t.world)) _
        (λ start. on_store c (c.token_store.get url) >>= (try_token c start m url body)) s
        (λ start t.
          alone-and_then (on_store c (c.token_store.get url)) _ _ t
            (λ o t. alone-token start m url body o t))
