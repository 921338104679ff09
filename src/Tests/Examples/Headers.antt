-- ===== src/Tests/Examples/Headers.antt =====
-- The theorems on invoices, headers and tokens, at concrete inputs.
use bolt.Core.Client.{HttpResponse}
use bolt.HashMap
use bolt.HashMap.Laws.{get-insert_self}
use bolt.Mock.Challenge.Header.{IsLetters, IsParam-letters, from_header-to_www_authenticate}
use bolt.Mock.Challenge.Invoice.{IsSafe, decode_bolt11_amount-invoice_for}
use bolt.Mock.Challenge.{generate, hash_of, macaroon_data, to_www_authenticate, invoice_for}
use bolt.Mock.Purchase.{issued, next_challenge, next_token}
use bolt.Mock.Server
use bolt.Mock.Server.Access.{
  Opens, handle_request_sound, handle_request-admits, validate_auth-generate,
}
use bolt.Mock.Server.{EndpointConfig, answer, handle_request}
use bolt.Mock.{MockState}
use bolt.Prelude.{
  ◌*◌, ◌%◌, ◌≡◌, ◌≢◌, ◌⊎◌, inl, refl, ap, none, some, List, [], ◌∷◌, ◌++◌, ok, u64_mod, All, arith,
}
use bolt.Proto.Bolt11.Decode.{micro}
use bolt.Proto.Bolt11.Exact.{Reads, decode_bolt11_amount-exact, decode_bolt11_amount-wraps}
use bolt.Proto.Bolt11.Networks.{mainnet}
use bolt.Proto.Bolt11.{decode_bolt11_amount}
use bolt.Proto.Challenge
use bolt.Proto.Challenge.Params.{IsParam, join_params}
use bolt.Proto.Challenge.RoundTrip.{Holds, from_header-join_params}
use bolt.Proto.Challenge.Sound.{ComesFrom, IsAccepted, from_header_sound}
use bolt.Proto.Challenge.{L402Challenge}
use bolt.Proto.Scheme.{l402, lsat}
use bolt.Proto.Std.{ascii_std}
use bolt.Proto.Token
use bolt.Proto.Token.RoundTrip.{IsSendable, from_header-to_header_value, from_header_sound_token}
use bolt.Proto.Token.{L402Token, to_header_value}
use bolt.Tests.Fixtures.{
  base64, client, codec, codec-IsCodec, config, endpoints, fresh, path_of, random, url,
}
use bolt.Text.Decimal.{print_u64}
use bolt.Text.Equality.{Text-discrete}
use bolt.Text.Laws.{Lacks}
use bolt.Text.{Text, codes, trim}

abbrev invoice : Text
invoice = codes "lnbc2500u1pvjluez"

invoice-Reads : Reads invoice mainnet 2_500 micro
unfolding print_u64 bolt.Text.Decimal.print_digits
invoice-Reads = record {
  rest = codes "pvjluez";
  ascii = omega arith;
  shape = refl;
  clear = omega arith;
}

decode_bolt11_amount-exact_example :
    decode_bolt11_amount ascii_std invoice ≡ ok (some (record { millisatoshis = 250_000_000 }))
decode_bolt11_amount-exact_example =
    decode_bolt11_amount-exact ascii_std invoice mainnet 2_500 micro 250_000_000 (omega arith)
      invoice-Reads (omega arith) (omega arith) (omega arith)

-- More than 18 million bitcoin.
abbrev huge : Text
huge = codes "lnbc184467440737095517u1pvjluez"

huge-Reads : Reads huge mainnet 184_467_440_737_095_517 micro
unfolding print_u64 bolt.Text.Decimal.print_digits
huge-Reads = record {
  rest = codes "pvjluez";
  ascii = omega arith;
  shape = refl;
  clear = omega arith;
}

decode_bolt11_amount-wraps_example :
    decode_bolt11_amount ascii_std huge
    ≡ ok (some (record { millisatoshis = (184_467_440_737_095_517 * 100_000) % u64_mod }))
decode_bolt11_amount-wraps_example =
    decode_bolt11_amount-wraps ascii_std huge mainnet 184_467_440_737_095_517 micro 100_000
      (omega arith) huge-Reads (omega arith) (omega arith)

invoice-decoded :
    decode_bolt11_amount ascii_std invoice ≡ ok (some (record { millisatoshis = 250_000_000 }))
invoice-decoded =
    decode_bolt11_amount-exact ascii_std invoice mainnet 2_500 micro 250_000_000 (omega arith)
      invoice-Reads (omega arith) (omega arith) (omega arith)

abbrev params : List (Text × Text)
params =
    (codes "realm", codes "a, b")
    ∷ (codes "invoice", codes "lnbc1u1mock")
    ∷ (codes "macaroon", codes "YWJj")
    ∷ []

realm-IsLetters : IsLetters (codes "realm")
realm-IsLetters = omega arith

invoice-IsLetters : IsLetters (codes "invoice")
invoice-IsLetters = omega arith

macaroon-IsLetters : IsLetters (codes "macaroon")
macaroon-IsLetters = omega arith

abbrev test_challenge : L402Challenge
test_challenge = record { macaroon = codes "YWJj"; invoice = codes "lnbc1u1mock"; address = none }

params-IsParam : All IsParam params
params-IsParam = (
  IsParam-letters b'r' (codes "ealm") (codes "a, b") realm-IsLetters (omega arith),
  (
    IsParam-letters b'i' (codes "nvoice") (codes "lnbc1u1mock") invoice-IsLetters (omega arith),
    (IsParam-letters b'm' (codes "acaroon") (codes "YWJj") macaroon-IsLetters (omega arith), tt),
  ),
)

params-Holds : Holds params test_challenge
unfolding bolt.Proto.Challenge.RoundTrip.last_named bolt.Text.Equality.text_eq
params-Holds = record { macaroon = refl; invoice = refl; address = refl }

challenge-IsAccepted : IsAccepted base64 test_challenge
challenge-IsAccepted = record { macaroon = inl refl; invoice = inl refl }

from_header-join_params_example :
    Challenge.from_header ascii_std base64 (l402 ++ join_params params) ≡ ok test_challenge
from_header-join_params_example =
    from_header-join_params ascii_std base64 (codes "realm", codes "a, b")
      ((codes "invoice", codes "lnbc1u1mock") ∷ (codes "macaroon", codes "YWJj") ∷ [])
      test_challenge params-IsParam params-Holds challenge-IsAccepted

challenge_header :
    Challenge.from_header ascii_std base64 (l402 ++ join_params params) ≡ ok test_challenge
challenge_header =
    from_header-join_params ascii_std base64 (codes "realm", codes "a, b")
      ((codes "invoice", codes "lnbc1u1mock") ∷ (codes "macaroon", codes "YWJj") ∷ [])
      test_challenge params-IsParam params-Holds challenge-IsAccepted

from_header_sound_example : ComesFrom ascii_std base64 (l402 ++ join_params params) test_challenge
from_header_sound_example =
    from_header_sound ascii_std base64 (l402 ++ join_params params) {c = test_challenge}
      challenge_header

IsSafe-example : All IsSafe (codes "aabb")
IsSafe-example = (
  (omega arith, refl, omega arith, omega arith),
  (
    (omega arith, refl, omega arith, omega arith),
    (
      (omega arith, refl, omega arith, omega arith),
      ((omega arith, refl, omega arith, omega arith), tt),
    ),
  ),
)

abbrev token : L402Token
token = record { macaroon = codes "YWJj"; preimage = codes "00ff" }

token-IsSendable : IsSendable token
unfolding bolt.Text.is_whitespace
token-IsSendable = record {
  macaroon_ne = λ e. cc;
  macaroon_clear = omega arith;
  preimage_end = refl;
}

from_header-to_header_value_example : Token.from_header (to_header_value token) ≡ ok token
from_header-to_header_value_example = from_header-to_header_value token token-IsSendable

token_header : Token.from_header (to_header_value token) ≡ ok token
token_header = from_header-to_header_value token token-IsSendable

from_header_sound_token_example :
    ((trim (to_header_value token) ≡ l402 ++ (token.macaroon ++ b':' ∷ token.preimage))
      ⊎ (trim (to_header_value token) ≡ lsat ++ (token.macaroon ++ b':' ∷ token.preimage)))
    × Lacks b':' token.macaroon
    × (token.macaroon ≢ [])
    × (token.preimage ≢ [])
from_header_sound_token_example =
    from_header_sound_token (to_header_value token) {token = token} token_header

decode_bolt11_amount-invoice_for_example :
    decode_bolt11_amount ascii_std (invoice_for 150 (codes "aabb"))
    ≡ ok (some (record { millisatoshis = 150 * 1_000 }))
decode_bolt11_amount-invoice_for_example =
    decode_bolt11_amount-invoice_for ascii_std 150 (codes "aabb") IsSafe-example (omega arith)
      (omega arith)

from_header-to_www_authenticate_example :
    Challenge.from_header ascii_std base64 (to_www_authenticate (generate codec (5 ∷ 6 ∷ []) 150))
    ≡ ok (record {
      macaroon = (generate codec (5 ∷ 6 ∷ []) 150).macaroon;
      invoice = (generate codec (5 ∷ 6 ∷ []) 150).invoice;
      address = none;
    })
from_header-to_www_authenticate_example =
    from_header-to_www_authenticate ascii_std codec base64 (5 ∷ 6 ∷ []) 150 codec-IsCodec

-- The server's state after its first challenge, and the token for it.
abbrev state : MockState
state = issued codec random endpoints path_of client url config fresh

abbrev bought : L402Token
bought = next_token codec random endpoints path_of client url config fresh

endpoint_found : HashMap.get Text-discrete (codes "/api/test") endpoints ≡ some config
endpoint_found = get-insert_self Text-discrete (codes "/api/test") config []

registered :
    HashMap.get Text-discrete
      (next_challenge codec random endpoints path_of client url config fresh).invoice
      state.challenges
    ≡ some (next_challenge codec random endpoints path_of client url config fresh)
unfolding Server.issue
registered =
    get-insert_self Text-discrete
      (next_challenge codec random endpoints path_of client url config fresh).invoice
      (next_challenge codec random endpoints path_of client url config fresh) []

bought_clear : Lacks b':' bought.macaroon
unfolding generate
bought_clear = codec-IsCodec.base64-no_colon (macaroon_data codec (hash_of codec (0 ∷ 7 ∷ [])))

admitted :
    handle_request codec random endpoints
      (codes "/api/test")
      (some (some (to_header_value bought)))
      state
    ≡ (state, answer 200 config.response_body)
admitted =
    handle_request-admits codec random endpoints (codes "/api/test")
      (next_challenge codec random endpoints path_of client url config fresh).invoice bought state
      {config = config} {c = next_challenge codec random endpoints path_of client url config fresh}
      endpoint_found registered bought_clear
      (validate_auth-generate codec base64 (0 ∷ 7 ∷ []) 100 codec-IsCodec (omega arith))

handle_request_sound_example :
    Opens codec (some (some (to_header_value bought))) state
    × ((found : EndpointConfig) × (HashMap.get Text-discrete (codes "/api/test") endpoints
          ≡ some found)
        × (handle_request codec random endpoints
              (codes "/api/test")
              (some (some (to_header_value bought)))
              state
            ≡ (state, answer 200 found.response_body)))
handle_request_sound_example =
    handle_request_sound codec random endpoints (codes "/api/test")
      (some (some (to_header_value bought))) state
      (ap (λ (x : MockState × HttpResponse). x.1.status) admitted)
