-- ===== src/Mock/Server.antt =====
-- crates/bolt402-mock/src/server.rs: the handler of every request. The registry's lock is taken for
-- the validation, and again to insert a challenge; one request runs from start to end here.
pub mod Access
use bolt.Core.Client.{HttpRequest, HttpResponse}
use bolt.Core.Client.Flow.{payment_required}
use bolt.HashMap
use bolt.HashMap.{HashMap}
use bolt.Mock.Challenge.{generate, validate_auth, to_www_authenticate}
use bolt.Mock.{Codec, PendingChallenge, MockState}
use bolt.Prelude.{
  ℕ, ◌+◌, Bool, true, false, ◌||◌, Option, none, some, List, [], ◌∷◌, ◌++◌, if◌then◌else◌,
}
use bolt.Proto.Scheme.{strip_scheme}
use bolt.Text.Decimal.{print_u64}
use bolt.Text.Equality.{Text-discrete}
use bolt.Text.{Text, codes, split_once, text}

pub record EndpointConfig : Type 0 where
  pub price_sats : ℕ
  pub response_body : Text

-- `EndpointConfig::new`.
abbrev pub endpoint_config : ℕ → EndpointConfig
endpoint_config price_sats = record {
  price_sats = price_sats;
  response_body = codes "{\"ok\":true,\"price\":" ++ (print_u64 price_sats ++ codes "}");
}

abbrev pub with_body : Text → EndpointConfig → EndpointConfig
with_body body config = record config { response_body = body }

abbrev pub Endpoints : Type 0
Endpoints = HashMap Text EndpointConfig

-- `MockL402ServerBuilder::endpoint`.
abbrev pub endpoint : Text → EndpointConfig → Endpoints → Endpoints
endpoint path config endpoints = HashMap.insert Text-discrete path config endpoints

-- A server that was just built, with the backend's default balance.
abbrev pub new_state : MockState
new_state = record { challenges = []; balance = 1_000_000; drawn = 0 }

abbrev pub answer : ℕ → Text → HttpResponse
answer status body = record { status = status; www_authenticate = none; body = body }

module _ (codec : Codec) where
  -- `challenges.values()` in turn.
  unfoldable pub any_valid : Text → Text → HashMap Text PendingChallenge → Bool
  any_valid macaroon preimage [] = false
  any_valid macaroon preimage (e ∷ rest) =
      validate_auth codec e.1 macaroon preimage || any_valid macaroon preimage rest

  unfoldable pub validate_l402_auth : Text → MockState → Option Bool
  validate_l402_auth auth s = elim (strip_scheme auth) [
    | none ↦ none
    | some stripped ↦ (elim (split_once b':' stripped) [
      | none ↦ none
      | some (macaroon, preimage) ↦ some (any_valid macaroon preimage s.challenges)
    ])
  ]

  -- Lines 143 to 146: the header is absent, or not readable as text, or a text.
  unfoldable pub judge : Option (Option Text) → MockState → Option Bool
  judge none s = none
  judge (some none) s = none
  judge (some (some auth)) s = validate_l402_auth auth s

  module _ (random : ℕ → Text) where
    -- Lines 163 to 180.
    unfoldable pub issue : EndpointConfig → MockState → MockState × HttpResponse
    issue config s =
        let challenge = generate codec (random s.drawn) config.price_sats in
        (
          record s {
            challenges = HashMap.insert Text-discrete challenge.invoice challenge s.challenges;
            drawn = s.drawn + 1;
          },
          record {
            status = payment_required;
            www_authenticate = some (some (to_www_authenticate challenge));
            body = text "payment required";
          },
        )

    -- Lines 146 to 181.
    unfoldable pub serve : EndpointConfig → Option Bool → MockState → MockState × HttpResponse
    serve config (some true) s = (s, answer 200 config.response_body)
    serve config (some false) s = (s, answer 401 (text "invalid L402 token"))
    serve config none s = issue config s

    unfoldable pub handle_request :
        Endpoints → Text → Option (Option Text) → MockState → MockState × HttpResponse
    handle_request endpoints path auth s = elim (HashMap.get Text-discrete path endpoints) [
      | none ↦ (s, answer 404 (text "not found"))
      | some config ↦ serve config (judge auth s) s
    ]
