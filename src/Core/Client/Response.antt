-- ===== src/Core/Client/Response.antt =====
-- What a caller reads of an answer: the accessors of `L402Response`. Reading the body is reqwest's,
-- and can fail: it is a parameter.
use bolt.Core.Client.{HttpResponse, L402Response}
use bolt.Core.Receipt.{Receipt}
use bolt.Prelude.{ℕ, Bool, Option, Result, map_err}
use bolt.Proto.Errors.{ClientError, http}
use bolt.Text.{Text}

pub record BodyReader : Type 0 where
  pub text : HttpResponse → Result Text Text
  pub bytes : HttpResponse → Result Text Text

abbrev pub status_of : L402Response → ℕ
status_of response = response.inner.status

abbrev pub paid_of : L402Response → Bool
paid_of response = response.paid

abbrev pub cached_token_of : L402Response → Bool
cached_token_of response = response.cached_token

abbrev pub receipt_of : L402Response → Option Receipt
receipt_of response = response.receipt

abbrev pub text_of : BodyReader → L402Response → Result ClientError Text
text_of reader response = map_err http (reader.text response.inner)

abbrev pub bytes_of : BodyReader → L402Response → Result ClientError Text
bytes_of reader response = map_err http (reader.bytes response.inner)

-- `json::<T>()`, with reqwest's and serde_json's reading of a body as a `T`.
abbrev pub json_of :
    {T : Type 0} → (HttpResponse → Result Text T) → L402Response → Result ClientError T
json_of read response = map_err http (read response.inner)

-- `headers()`, with reqwest's map of the headers.
abbrev pub headers_of : {HeaderMap : Type 0} → (HttpResponse → HeaderMap) → L402Response → HeaderMap
headers_of headers response = headers response.inner
