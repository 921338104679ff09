-- ===== src/Ffi.antt =====
-- crates/bolt402-ffi/src/lib.rs: the C interface. A pointer is null or points to a value, so it is an
-- option; freeing what a pointer points to is not modelled. Every call runs on one thread, whose
-- error is a part of the state.
pub mod Errors
use bolt.Core.Budget.{unlimited}
use bolt.Core.Cache.Store.{memory_store}
use bolt.Core.Cache.{CacheInner}
use bolt.Core.Client.Builder.{
  HttpClient, ClientParts, builder, with_ln_backend, with_token_store, with_budget, with_config,
  build, get_url, post_url, receipts_of, client_total_spent,
}
use bolt.Core.Client.Response.{BodyReader, status_of, paid_of, receipt_of, text_of}
use bolt.Core.Client.{Env, L402Client, L402ClientConfig, L402Response, Session}
use bolt.Core.Receipt.{Receipt}
use bolt.Mock.Backend.{mock_backend}
use bolt.Mock.Server.{Endpoints, endpoint, endpoint_config}
use bolt.Mock.{MockState}
use bolt.Prelude.{
  ℕ, Bool, true, false, Option, none, some, List, [], ◌∷◌, ◌++◌, if◌then◌else◌, ltb, Result, ok,
  err, map_err, ◌>>=◌, ◌>>◌,
}
use bolt.Proto.Errors.{ClientError, client_to_string}
use bolt.Text.{Text, text}

-- The error of the thread, and what the call works on.
pub record Ffi (S : Type 0) : Type 0 where
  pub last_error : Option Text
  pub inner : S

abbrev pub set_error : {S : Type 0} → Text → Ffi S → Ffi S
set_error msg s = record s { last_error = some msg }

abbrev pub clear_error : {S : Type 0} → Ffi S → Ffi S
clear_error s = record s { last_error = none }

-- `CStr::from_ptr(p).to_str()`: the text, or the display of the error.
abbrev pub CStr : Type 0
CStr = Result Text Text

-- `CString::new`, which fails on a NUL byte, and serde_json on a list of receipts.
pub record CLib : Type 0 where
  pub new_c_string : Text → Result Text Text
  pub receipts_to_string : List Receipt → Result Text Text

abbrev pub or_empty : {E : Type 0} → Result E Text → Text
or_empty (ok t) = t
or_empty (err e) = []

abbrev pub c_string : CLib → Text → Text
c_string lib t = or_empty (lib.new_c_string t)

-- What a call returns at its end: an error is noted, and null is returned.
abbrev pub returned : {S A : Type 0} → Ffi S → Result Text A → Ffi S × Option A
returned s (ok a) = (s, some a)
returned s (err e) = (set_error e s, none)

pub record Bolt402MockServer : Type 0 where
  pub endpoints : Endpoints
  pub url : Text

-- Lines 160 to 165: the first path that is not UTF-8 is an error.
unfoldable pub add_endpoints : List (CStr × ℕ) → Endpoints → Result Text Endpoints
add_endpoints [] eps = ok eps
add_endpoints ((path, price_sats) ∷ rest) eps = do
  p ← map_err (λ e. text "invalid UTF-8 in endpoint path: " ++ e) path
  add_endpoints rest (endpoint p (endpoint_config price_sats) eps)

-- The endpoints behind a pointer are a list; a null pointer with no endpoints stands for none.
-- `start` binds a socket and returns the URL of the server.
unfoldable pub mock_server_new :
    {S : Type 0}
    → CLib
    → (Endpoints → Result Text Text)
    → Option (List (CStr × ℕ))
    → ℕ
    → Ffi S
    → Ffi S × Option Bolt402MockServer
mock_server_new lib start none count s =
    if ltb 0 count
    then returned (clear_error s) (err (text "endpoints pointer is null"))
    else returned (clear_error s) (do
      url ← map_err (λ e. text "failed to start mock server: " ++ e) (start [])
      ok (record { endpoints = []; url = c_string lib url }))
mock_server_new lib start (some list) count s = returned (clear_error s) (do
  eps ← add_endpoints list []
  url ← map_err (λ e. text "failed to start mock server: " ++ e) (start eps)
  ok (record { endpoints = eps; url = c_string lib url }))

abbrev pub mock_server_url : Option Bolt402MockServer → Option Text
mock_server_url none = none
mock_server_url (some server) = some server.url

unfoldable pub client_new_mock :
    {S : Type 0}
    → Env MockState
    → (Text → Result Text (HttpClient MockState))
    → Text
    → Option Bolt402MockServer
    → ℕ
    → Ffi S
    → Ffi S × Option (ClientParts MockState CacheInner)
client_new_mock env make user_agent none max_fee_sats s =
    returned (clear_error s) (err (text "server pointer is null"))
client_new_mock env make user_agent (some server) max_fee_sats s =
    let config : L402ClientConfig = record {
      max_fee_sats = max_fee_sats;
      max_retries = 1;
      user_agent = user_agent;
    } in
    returned (clear_error s) (
      map_err (λ e. text "failed to build client: " ++ client_to_string e)
        (build env make (
          with_config config (
            with_budget unlimited (
              with_token_store memory_store (with_ln_backend mock_backend (builder user_agent)))))))

pub record Bolt402Response : Type 0 where
  pub status : ℕ
  pub paid : Bool
  pub body : Text
  pub receipt_amount_sats : ℕ
  pub receipt_fee_sats : ℕ
  pub receipt_payment_hash : Text
  pub receipt_preimage : Text
  pub has_receipt : Bool

module _ (lib : CLib) (reader : BodyReader) where
  -- A body that cannot be read, or that has a NUL byte, is empty.
  abbrev pub body_of : L402Response → Text
  body_of response = c_string lib (or_empty (text_of reader response))

  abbrev pub with_receipt : L402Response → Option Receipt → Bolt402Response
  with_receipt response (some r) = record {
    status = status_of response;
    paid = paid_of response;
    body = body_of response;
    receipt_amount_sats = r.amount_sats;
    receipt_fee_sats = r.fee_sats;
    receipt_payment_hash = c_string lib r.payment_hash;
    receipt_preimage = c_string lib r.preimage;
    has_receipt = true;
  }
  with_receipt response none = record {
    status = status_of response;
    paid = paid_of response;
    body = body_of response;
    receipt_amount_sats = 0;
    receipt_fee_sats = 0;
    receipt_payment_hash = [];
    receipt_preimage = [];
    has_receipt = false;
  }

  unfoldable pub convert_response :
      {S : Type 0} → Ffi S → Result ClientError L402Response → Ffi S × Option Bolt402Response
  convert_response s (ok response) = returned s (ok (with_receipt response (receipt_of response)))
  convert_response s (err e) = returned s (err (client_to_string e))

  module _ {World Store : Type 0} (c : L402Client World Store) where
    -- What a request leaves, and the conversion of its result.
    abbrev finished :
        Session World Store × Result ClientError L402Response
        → Ffi (Session World Store)
        → Ffi (Session World Store) × Option Bolt402Response
    finished r s = convert_response (record s { inner = r.0 }) r.1

    -- The body behind a pointer that may be null.
    abbrev body_str : Option CStr → Result Text (Option Text)
    body_str none = ok none
    body_str (some (ok t)) = ok (some t)
    body_str (some (err e)) = err (text "invalid UTF-8 in body: " ++ e)

    abbrev get_at :
        CStr → Ffi (Session World Store) → Ffi (Session World Store) × Option Bolt402Response
    get_at (ok url) s = finished (get_url c url s.inner) s
    get_at (err e) s = returned s (err (text "invalid UTF-8 in URL: " ++ e))

    abbrev post_body :
        Text
        → Result Text (Option Text)
        → Ffi (Session World Store)
        → Ffi (Session World Store) × Option Bolt402Response
    post_body url (ok body) s = finished (post_url c url body s.inner) s
    post_body url (err e) s = returned s (err e)

    abbrev post_at :
        CStr
        → Option CStr
        → Ffi (Session World Store)
        → Ffi (Session World Store) × Option Bolt402Response
    post_at (ok url) body s = post_body url (body_str body) s
    post_at (err e) body s = returned s (err (text "invalid UTF-8 in URL: " ++ e))

    -- `client` tells whether the client's pointer is not null.
    unfoldable pub client_get :
        Bool
        → Option CStr
        → Ffi (Session World Store)
        → Ffi (Session World Store) × Option Bolt402Response
    client_get true (some url) s = get_at url (clear_error s)
    client_get _ _ s = returned (clear_error s) (err (text "null pointer argument"))

    unfoldable pub client_post :
        Bool
        → Option CStr
        → Option CStr
        → Ffi (Session World Store)
        → Ffi (Session World Store) × Option Bolt402Response
    client_post true (some url) body s = post_at url body (clear_error s)
    client_post _ _ body s = returned (clear_error s) (err (text "null pointer argument"))

-- The accessors: a null pointer reads as 0, false or null.
abbrev pub response_status : Option Bolt402Response → ℕ
response_status none = 0
response_status (some r) = r.status

abbrev pub response_paid : Option Bolt402Response → Bool
response_paid none = false
response_paid (some r) = r.paid

abbrev pub response_body : Option Bolt402Response → Option Text
response_body none = none
response_body (some r) = some r.body

abbrev pub response_has_receipt : Option Bolt402Response → Bool
response_has_receipt none = false
response_has_receipt (some r) = r.has_receipt

abbrev pub response_receipt_amount_sats : Option Bolt402Response → ℕ
response_receipt_amount_sats none = 0
response_receipt_amount_sats (some r) = r.receipt_amount_sats

abbrev pub response_receipt_fee_sats : Option Bolt402Response → ℕ
response_receipt_fee_sats none = 0
response_receipt_fee_sats (some r) = r.receipt_fee_sats

abbrev pub response_receipt_payment_hash : Option Bolt402Response → Option Text
response_receipt_payment_hash none = none
response_receipt_payment_hash (some r) = if r.has_receipt then some r.receipt_payment_hash else none

abbrev pub response_receipt_preimage : Option Bolt402Response → Option Text
response_receipt_preimage none = none
response_receipt_preimage (some r) = if r.has_receipt then some r.receipt_preimage else none

module _ {World Store : Type 0} where
  abbrev pub total_spent : Bool → Ffi (Session World Store) → ℕ
  total_spent true s = client_total_spent s.inner
  total_spent false s = 0

  unfoldable pub receipts_json :
      CLib → Bool → Ffi (Session World Store) → Ffi (Session World Store) × Option Text
  receipts_json lib false s = returned (clear_error s) (err (text "null client pointer"))
  receipts_json lib true s = returned (clear_error s) (do
    json ←
        map_err (λ e. text "JSON serialization failed: " ++ e)
          (lib.receipts_to_string (receipts_of s.inner))
    map_err (λ e. text "JSON contains null byte: " ++ e) (lib.new_c_string json))
