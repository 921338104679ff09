-- ===== src/Rest.antt =====
-- What the REST backends of the crates bolt402-lnd, bolt402-cln and bolt402-swissknife use of
-- reqwest and serde_json: a request with a flat JSON body, and the answer to it.
use bolt.Prelude.{
  ℕ, Bool, ◌&&◌, Option, List, [], ltb, leb, Result, ok, err, ◌+◌, ◌*◌, ◌/◌, ◌≡◌, length, true,
  if◌then◌else◌, err-ne-ok, if-eq-ok, ap, sym, ◌∙◌,
}
use bolt.Proto.Errors.{ClientError}
use bolt.Proto.Port.{PaymentResult}
use bolt.Text.Hex.{IsBytes, IsHex}
use bolt.Text.{Text}

pub data RestMethod : Type 0 where
  get post : RestMethod

pub data JsonScalar : Type 0 where
  string : Text → JsonScalar
  number : ℕ → JsonScalar

pub record RestRequest : Type 0 where
  pub method : RestMethod
  pub url : Text
  pub header : Text × Text
  pub body : Option (List (Text × JsonScalar))

-- `text()` and `bytes()` of the answer: the body, or the display of reqwest's error.
pub record RestResponse : Type 0 where
  pub status : ℕ
  pub text : Result Text Text
  pub bytes : Result Text Text

-- A `reqwest::Client`: `send()` moves the node and the network behind it to a new state.
pub record HttpClient (Node : Type 0) : Type 0 where
  pub send : RestRequest → Node → Node × Result Text RestResponse

abbrev pub is_success : ℕ → Bool
is_success status = leb 200 status && ltb status 300

-- `response.text().await.unwrap_or_default()`.
abbrev pub text_or_default : RestResponse → Text
text_or_default r = elim r.text [ ok t ↦ t | err e ↦ [] ]

-- An answer with another status than 2xx is an error, with the body that can be read.
unfoldable pub checked :
    {E : Type 0} → (Text → E) → (ℕ → Text → E) → Result Text RestResponse → Result E RestResponse
checked transport api (err e) = err (transport e)
checked transport api (ok r) =
    if is_success r.status then ok r else err (api r.status (text_or_default r))

pub checked-eq-ok :
    {E : Type 0} (transport : Text → E) (api : ℕ → Text → E) (r : Result Text RestResponse)
    {x : RestResponse}
    → checked transport api r ≡ ok x
    → (r ≡ ok x) × (is_success x.status ≡ true)
unfolding checked
checked-eq-ok transport api (err e) h = absurd (err-ne-ok h)
checked-eq-ok transport api (ok r) h =
    let (t, same) = if-eq-ok (is_success r.status) _ h in
    (ap ok same, ap (λ (x : RestResponse). is_success x.status) (sym same) ∙ t)

-- One request, and what is made of its answer.
unfoldable pub exchange :
    {Node A : Type 0}
    → HttpClient Node
    → RestRequest
    → (Result Text RestResponse → Result ClientError A)
    → Node
    → Node × Result ClientError A
exchange client request answer node = let r = client.send request node in (r.0, answer r.1)

-- The hex, sha2 and base64 crates; an error is its display.
pub record Crypto : Type 0 where
  pub hex_encode : Text → Text
  pub hex_decode : Text → Result Text Text
  pub sha256 : Text → Text
  pub base64_decode : Text → Result Text Text

-- The process: environment variables, and files, whose error is its display.
pub record Process : Type 0 where
  pub var : Text → Option Text
  pub read : Text → Result Text Text

-- What the backends rely on in the three crates: `hex::encode` writes two lower-case digits for a
-- byte, which `hex::decode` reads back; a digest has 32 bytes; a base64 text that decodes is padded.
pub record IsCrypto (crypto : Crypto) : Type 0 where
  pub hex_decode-hex_encode :
      (b : Text) → IsBytes b → crypto.hex_decode (crypto.hex_encode b) ≡ ok b
  pub hex_encode-IsHex : (b : Text) → IsBytes b → IsHex (crypto.hex_encode b)
  pub length-hex_encode : (b : Text) → length (crypto.hex_encode b) ≡ 2 * length b
  pub sha256-IsBytes : (b : Text) → IsBytes (crypto.sha256 b)
  pub length-sha256 : (b : Text) → length (crypto.sha256 b) ≡ 32
  pub length-base64_decode :
      (t : Text) {b : Text} → crypto.base64_decode t ≡ ok b → length t ≡ 4 * ((length b + 2) / 3)

-- The payment hash is the digest of the preimage.
pub record IsProof (crypto : Crypto) (p : PaymentResult) : Type 0 where
  pub bytes : Text
  pub decoded : crypto.hex_decode p.preimage ≡ ok bytes
  pub hashed : crypto.hex_encode (crypto.sha256 bytes) ≡ p.payment_hash
