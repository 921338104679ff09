-- ===== src/Ffi/Errors.antt =====
-- When the C interface returns null.
use bolt.Core.Client.Answers.{request-Report}
use bolt.Core.Client.Flow.{payment_required}
use bolt.Core.Client.Report.{Report}
use bolt.Core.Client.Response.{BodyReader}
use bolt.Core.Client.{L402Client, L402Response, Session, get, post}
use bolt.Core.Receipt.{Receipt}
use bolt.Ffi.{
  Ffi, CLib, CStr, Bolt402Response, returned, clear_error, convert_response, client_get,
  client_post, with_receipt,
}
use bolt.Prelude.{
  ◌≡◌, ◌≢◌, refl, inl, inr, Bool, true, false, Option, none, some, Result, ok, err, arith,
}
use bolt.Proto.Errors.{ClientError}
use bolt.Text.{Text}

module _ {World Store : Type 0} where
  -- What a request through the C interface leaves. A null pointer comes with an error message, and
  -- the client has the receipts that it had; a response comes with no error message, its status is
  -- not 402, and it is paid exactly if it has a receipt.
  abbrev pub IsReported :
      Session World Store → Ffi (Session World Store) × Option Bolt402Response → Type 0
  IsReported s (t, none) = ((e : Text) × (t.last_error ≡ some e)) × (t.inner.receipts ≡ s.receipts)
  IsReported s (t, some r) =
      (t.last_error ≡ none) × (r.status ≢ payment_required) × (r.paid ≡ r.has_receipt)

  module _ (lib : CLib) (reader : BodyReader) (c : L402Client World Store) where
    convert_response-IsReported :
        (url : Text) (s : Session World Store) (t : Ffi (Session World Store))
        (r : Result ClientError L402Response)
        → t.last_error ≡ none
        → Report url s (t.inner, r)
        → IsReported s (convert_response lib reader t r)
    unfolding convert_response
    convert_response-IsReported url s t (err e) q h = ((_, refl), h.receipts)
    convert_response-IsReported url s t (ok x) q (st, inl free) = go x.receipt free.no_receipt
      where
        go : (o : Option Receipt) → o ≡ none → IsReported s (t, some (with_receipt lib reader x o))
        go none e = (q, st, free.not_paid)
        go (some r) e = absurd (ground arith)
    convert_response-IsReported url s t (ok x) q (st, inr bought) = go x.receipt bought.receipt
      where
        go :
            (o : Option Receipt)
            → o ≡ some bought.last
            → IsReported s (t, some (with_receipt lib reader x o))
        go none e = absurd (ground arith)
        go (some r) e = (q, st, bought.was_paid)

    failed-IsReported :
        (e : Text) (s : Ffi (Session World Store))
        → IsReported s.inner (returned (clear_error s) (err e))
    failed-IsReported e s = ((e, refl), refl)

    get-IsReported :
        (client : Bool) (url : Option CStr) (s : Ffi (Session World Store))
        → IsReported s.inner (client_get lib reader c client url s)
    unfolding client_get
    get-IsReported true (some (ok url)) s =
        convert_response-IsReported url s.inner _ _ refl (request-Report c get url none s.inner)
    get-IsReported true (some (err e)) s = failed-IsReported _ s
    get-IsReported true none s = failed-IsReported _ s
    get-IsReported false url s = failed-IsReported _ s

    post-IsReported :
        (client : Bool) (url body : Option CStr) (s : Ffi (Session World Store))
        → IsReported s.inner (client_post lib reader c client url body s)
    unfolding client_post
    post-IsReported true (some (ok url)) none s =
        convert_response-IsReported url s.inner _ _ refl (request-Report c post url none s.inner)
    post-IsReported true (some (ok url)) (some (ok body)) s =
        convert_response-IsReported url s.inner _ _ refl
          (request-Report c post url (some body) s.inner)
    post-IsReported true (some (ok url)) (some (err e)) s = failed-IsReported _ s
    post-IsReported true (some (err e)) body s = failed-IsReported _ s
    post-IsReported true none body s = failed-IsReported _ s
    post-IsReported false url body s = failed-IsReported _ s

    -- A GET or a POST through the C interface, whatever the pointers, the texts behind them, the
    -- error of an earlier call, the servers, the node and the store: null is returned exactly where
    -- an error message is left, and then no receipt was added, also where the request has paid and
    -- failed behind that; a response has another status than
    -- 402, leaves no error message, and is paid exactly if it has a receipt.
    pub client_get-IsReported :
        (client : Bool) (url body : Option CStr) (s : Ffi (Session World Store))
        → IsReported s.inner (client_get lib reader c client url s)
          × IsReported s.inner (client_post lib reader c client url body s)
    client_get-IsReported client url body s =
        (get-IsReported client url s, post-IsReported client url body s)
