-- ===== src/Python/Refused.antt =====
-- What a client for Python that pays with LND has done where it raises a `ValueError`.
use bolt.Core.Budget.{Budget}
use bolt.Core.Cache.Store.{memory_store}
use bolt.Core.Cache.{CacheInner}
use bolt.Core.Client.Builder.{HttpClient, ClientParts, build, client_of, http_client_of}
use bolt.Core.Client.Refused.{
  IsQuietStore, IsQuietBackend, accounts, is_refused, request-IsHarmless, IsHarmless,
}
use bolt.Core.Client.Response.{BodyReader}
use bolt.Core.Client.{Env, L402Response, HttpResponse, Method, Session}
use bolt.Lnd.Rest.{
  LndJson, LndRestBackend, lnd_rest_backend, pay_invoice, pay_answer, received, read_stream,
  payment_lines,
}
use bolt.Lnd.{LndError, transport, rpc, api, payment, deserialize, io, to_client_error}
use bolt.Prelude.{
  ℕ, ◌≡◌, refl, sym, ap, ◌∙◌, subst, ◌⊎◌, inl, inr, Bool, true, false, Bool-cases, Option, none,
  List, Result, ok, err, ◌>>=◌, >>=-eq-ok, map_err, map_err-eq-ok, ok-injective,
}
use bolt.Proto.Challenge.{Base64}
use bolt.Proto.Errors.{
  ClientError, protocol, payment_failed, budget_exceeded, missing_challenge, invoice_expired,
  retry_failed, backend, http,
}
use bolt.Proto.Port.{LnBackend, TokenStore}
use bolt.Proto.Std.{Std}
use bolt.Python.Backends.{lnd_new, with_lnd_rest}
use bolt.Python.{
  PyErr, value_error, runtime_error, PyL402Response, build_client, convert_response,
  map_client_error,
}
use bolt.Python
use bolt.Rest.{Crypto, RestResponse, exchange}
use bolt.Text.{Text}

abbrev pub is_value_error : {A : Type 0} → Result PyErr A → Bool
is_value_error (ok a) = false
is_value_error (err (value_error message)) = true
is_value_error (err (runtime_error message)) = false

-- A call that raised no `ValueError`, or that changed nothing of what was paid, charged and got.
unfoldable pub IsRefunded :
    {World Store A : Type 0} → Session World Store → Session World Store × Result PyErr A → Type 0
IsRefunded s r = (is_value_error r.1 ≡ false) ⊎ (accounts r.0 ≡ accounts s)

memory_store-IsQuietStore : IsQuietStore memory_store
memory_store-IsQuietStore = record { put = λ k m p s. refl; remove = λ k s. refl }

to_client_error_lem :
    {A : Type 0} (r : Result LndError A) → is_refused (map_err to_client_error r) ≡ false
unfolding to_client_error
to_client_error_lem (ok a) = refl
to_client_error_lem (err (transport e)) = refl
to_client_error_lem (err (rpc e)) = refl
to_client_error_lem (err (api status body)) = refl
to_client_error_lem (err (payment reason)) = refl
to_client_error_lem (err (deserialize e)) = refl
to_client_error_lem (err (io e)) = refl

pay_answer-is_refused :
    (json : LndJson) (crypto : Crypto) (sent : Result Text RestResponse)
    → is_refused (pay_answer json crypto sent) ≡ false
unfolding pay_answer
pay_answer-is_refused json crypto sent = to_client_error_lem (
    received sent >>= (λ response.
      map_err transport response.text >>= (λ body. read_stream json crypto (payment_lines body))))

lnd_rest_backend-IsQuietBackend :
    {Node : Type 0} (json : LndJson) (crypto : Crypto) (b : LndRestBackend Node)
    → IsQuietBackend (lnd_rest_backend json crypto b)
unfolding pay_invoice exchange
lnd_rest_backend-IsQuietBackend json crypto b invoice fee w = pay_answer-is_refused json crypto _

module _ (reader : BodyReader) (headers_of : HttpResponse → List (Text × Option Text)) where
  convert_response-is_value_error :
      (r : Result ClientError L402Response)
      → is_value_error (convert_response reader headers_of r) ≡ is_refused r
  unfolding convert_response map_client_error
  convert_response-is_value_error (ok response) = refl
  convert_response-is_value_error (err (protocol e)) = refl
  convert_response-is_value_error (err (payment_failed e)) = refl
  convert_response-is_value_error (err (budget_exceeded e)) = refl
  convert_response-is_value_error (err missing_challenge) = refl
  convert_response-is_value_error (err invoice_expired) = refl
  convert_response-is_value_error (err (retry_failed e)) = refl
  convert_response-is_value_error (err (backend e)) = refl
  convert_response-is_value_error (err (http e)) = refl

  converted-IsRefunded :
      {World Store : Type 0} (s : Session World Store)
      (r : Session World Store × Result ClientError L402Response)
      → (is_refused r.1 ≡ true → accounts r.0 ≡ accounts s)
      → IsRefunded s (r.0, convert_response reader headers_of r.1)
  unfolding IsRefunded
  converted-IsRefunded s r h = elim (Bool-cases (is_refused r.1)) [
    | inl e ↦ inr (h e)
    | inr e ↦ inl (convert_response-is_value_error r.1 ∙ e)
  ]

module _ {World : Type 0} (env : Env World) (make : Text → Result Text (HttpClient World))
    (user_agent : Text) where
  build_client-parts :
      (b : LnBackend World) (limit : Option Budget) (fee : ℕ) {parts : ClientParts World CacheInner}
      → build_client env make user_agent b limit fee ≡ ok parts
      → (parts.token_store ≡ memory_store) × (parts.env.backend ≡ b)
  unfolding build_client build
  build_client-parts b limit fee {parts} h =
      let (sender, e, made) = >>=-eq-ok (http_client_of make _) _ (map_err-eq-ok _ _ h) in
      let same = ok-injective refl made in
      (
        ap (λ (x : ClientParts World CacheInner). x.token_store) (sym same),
        ap (λ (x : ClientParts World CacheInner). x.env.backend) (sym same),
      )

  -- A GET or a POST of a client that `L402Client.with_lnd_rest` makes, whatever the servers, the node
  -- and the clock do, and whatever was done with the client before: a call that raises a `ValueError`
  -- has handed no invoice to the node, charged nothing to the budget and added no receipt.
  pub get-IsRefunded :
      (reader : BodyReader) (headers_of : HttpResponse → List (Text × Option Text)) (std : Std)
      (base64 : Base64) (json : LndJson) (crypto : Crypto)
      (built : Result Text (bolt.Rest.HttpClient World)) (url macaroon : Text)
      (limit : Option Budget) (max_fee_sats : ℕ) (parts : ClientParts World CacheInner)
      (target : Text) (body : Option Text) (s : Session World CacheInner)
      → with_lnd_rest env make user_agent json crypto built url macaroon limit max_fee_sats
        ≡ ok parts
      → IsRefunded s (Python.get reader headers_of (client_of std base64 parts) target s)
        × IsRefunded s (Python.post reader headers_of (client_of std base64 parts) target body s)
  unfolding with_lnd_rest Python.get Python.post IsHarmless
  get-IsRefunded reader headers_of std base64 json crypto built url macaroon limit max_fee_sats
        parts target body s h =
      let (lnd, e, made) = >>=-eq-ok (lnd_new built url macaroon) _ h in
      let (same_store, same_backend) =
        build_client-parts (lnd_rest_backend json crypto lnd) limit max_fee_sats made in
      let quiet_store =
        subst (λ (t : TokenStore CacheInner). IsQuietStore t) (sym same_store)
          memory_store-IsQuietStore in
      let quiet_backend =
        subst (λ (b : LnBackend World). IsQuietBackend b) (sym same_backend)
          (lnd_rest_backend-IsQuietBackend json crypto lnd) in
      (
        converted-IsRefunded reader headers_of s _ (
            request-IsHarmless (client_of std base64 parts) quiet_store quiet_backend Method.get
              target none s),
        converted-IsRefunded reader headers_of s _ (
            request-IsHarmless (client_of std base64 parts) quiet_store quiet_backend Method.post
              target body s),
      )
