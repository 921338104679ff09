-- ===== src/Core/Client/Builder.antt =====
-- The builder of a client, and the methods that a caller uses: `L402ClientBuilder`, `get`, `post`,
-- `receipts` and `total_spent`.
use bolt.Core.Budget
use bolt.Core.Budget.{Budget}
use bolt.Core.Client.Flow.{Step, request}
use bolt.Core.Client.{
  Env, L402Client, L402ClientConfig, L402Response, Method, HttpRequest, HttpResponse, Session,
  default_config, built_budget,
}
use bolt.Core.Receipt.{Receipt}
use bolt.Prelude.{ℕ, Option, none, some, List, ◌++◌, Result, ok, ◌>>=◌, map_err}
use bolt.Proto.Challenge.{Base64}
use bolt.Proto.Errors.{ClientError, backend}
use bolt.Proto.Port.{LnBackend, TokenStore}
use bolt.Proto.Std.{Std}
use bolt.Text.{Text, text}

-- `reqwest::Client`, by what it sends.
abbrev pub HttpClient : Type 0 → Type 0
HttpClient World = HttpRequest → World → World × Result Text HttpResponse

-- A field that is not set yet has the type `Unit`.
pub record L402ClientBuilder (World L T : Type 0) : Type 0 where
  pub ln_backend : L
  pub token_store : T
  pub budget : Option Budget
  pub config : L402ClientConfig
  pub http_client : Option (HttpClient World)

-- `L402Client::builder()`.
abbrev pub builder : {World : Type 0} → Text → L402ClientBuilder World (Unit {0}) (Unit {0})
builder user_agent = record {
  ln_backend = tt;
  token_store = tt;
  budget = none;
  config = default_config user_agent;
  http_client = none;
}

module _ {World L T : Type 0} where
  abbrev pub with_ln_backend :
      {B : Type 0} → B → L402ClientBuilder World L T → L402ClientBuilder World B T
  with_ln_backend node b = record {
    ln_backend = node;
    token_store = b.token_store;
    budget = b.budget;
    config = b.config;
    http_client = b.http_client;
  }

  abbrev pub with_token_store :
      {S : Type 0} → S → L402ClientBuilder World L T → L402ClientBuilder World L S
  with_token_store store b = record {
    ln_backend = b.ln_backend;
    token_store = store;
    budget = b.budget;
    config = b.config;
    http_client = b.http_client;
  }

  abbrev pub with_budget : Budget → L402ClientBuilder World L T → L402ClientBuilder World L T
  with_budget x b = record b { budget = some x }

  abbrev pub with_config :
      L402ClientConfig → L402ClientBuilder World L T → L402ClientBuilder World L T
  with_config x b = record b { config = x }

  abbrev pub with_http_client :
      HttpClient World → L402ClientBuilder World L T → L402ClientBuilder World L T
  with_http_client x b = record b { http_client = some x }

-- What `build` puts together.
pub record ClientParts (World Store : Type 0) : Type 0 where
  pub env : Env World
  pub token_store : TokenStore Store
  pub budget : Budget
  pub config : L402ClientConfig

module _ {World Store : Type 0} where
  -- Lines 157 to 165; `make` is reqwest's builder with a user agent.
  unfoldable pub http_client_of :
      (Text → Result Text (HttpClient World))
      → L402ClientBuilder World (LnBackend World) (TokenStore Store)
      → Result ClientError (HttpClient World)
  http_client_of make b = elim b.http_client [
    | some c ↦ ok c
    | none ↦
        map_err (λ e. backend (text "failed to build HTTP client: " ++ e))
          (make b.config.user_agent)
  ]

  -- The rest of the environment, the clock and the URL parser, is `env`.
  unfoldable pub build :
      Env World
      → (Text → Result Text (HttpClient World))
      → L402ClientBuilder World (LnBackend World) (TokenStore Store)
      → Result ClientError (ClientParts World Store)
  build env make b = do
    http ← http_client_of make b
    ok (record {
      env = record env { send = http; backend = b.ln_backend };
      token_store = b.token_store;
      budget = built_budget b.budget;
      config = b.config;
    })

  -- The client that runs with these parts, over the library `std` and base64.
  abbrev pub client_of : Std → Base64 → ClientParts World Store → L402Client World Store
  client_of std base64 p = record {
    std = std;
    base64 = base64;
    env = p.env;
    token_store = p.token_store;
    budget = p.budget;
    config = p.config;
  }

module _ {World Store : Type 0} (c : L402Client World Store) where
  abbrev pub get_url : Text → Step World Store L402Response
  get_url url = request c Method.get url none

  abbrev pub post_url : Text → Option Text → Step World Store L402Response
  post_url url body = request c Method.post url body

abbrev pub receipts_of : {World Store : Type 0} → Session World Store → List Receipt
receipts_of s = s.receipts

abbrev pub client_total_spent : {World Store : Type 0} → Session World Store → ℕ
client_total_spent s = Budget.total_spent s.budget_state
