-- ===== src/Core/Client.antt =====
-- crates/bolt402-core/src/client.rs. The ports, the HTTP stack, the URL parser, the clock and
-- base64 are the fields of a client; a call of them is an event of the session's trace. Threads has
-- the requests of one client that run at the same time.
pub mod Monad
pub mod Extract
pub mod Flow
pub mod Keeps
pub mod Spending
pub mod Purchase
pub mod Report
pub mod Answers
pub mod Success
pub mod Builder
pub mod Receipts
pub mod Threads
pub mod Response
pub mod Refused
use bolt.Core.Budget.{Budget, BudgetState, unlimited, new_state}
use bolt.Core.Receipt.{Receipt}
use bolt.Prelude.{ℕ, Bool, Option, none, some, List, [], Result, unwrap_or}
use bolt.Proto.Challenge.{Base64}
use bolt.Proto.Port.{LnBackend, TokenStore}
use bolt.Proto.Std.{Std}
use bolt.Text.{Text, codes}

pub record L402ClientConfig : Type 0 where
  pub max_fee_sats : ℕ
  pub max_retries : ℕ
  pub user_agent : Text

-- `L402ClientConfig::default()`, of version `version` of the crate.
abbrev pub default_config : Text → L402ClientConfig
default_config user_agent = record { max_fee_sats = 100; max_retries = 1; user_agent = user_agent }

pub data Method : Type 0 where
  get post : Method

pub record HttpRequest : Type 0 where
  pub method : Method
  pub url : Text
  pub body : Option Text
  pub content_type : Option Text
  pub authorization : Option Text

-- The `WWW-Authenticate` header is absent, or not readable as text, or a text.
pub record HttpResponse : Type 0 where
  pub status : ℕ
  pub www_authenticate : Option (Option Text)
  pub body : Text

-- The world outside of the client: HTTP servers, the Lightning network, the clock.
pub record Env (World : Type 0) : Type 0 where
  pub send : HttpRequest → World → World × Result Text HttpResponse
  pub backend : LnBackend World
  -- Seconds since the epoch.
  pub now : World → ℕ
  -- Milliseconds between two moments, `Instant::elapsed`.
  pub elapsed_ms : World → World → ℕ
  -- `Url::parse(url).ok()` and `host_str`.
  pub host_of : Text → Option Text
  -- `HeaderValue::from_str`: the error's message, if the text is no header value.
  pub header_error : Text → Option Text

pub record L402Client (World Store : Type 0) : Type 1 where
  pub std : Std
  pub base64 : Base64
  pub env : Env World
  pub token_store : TokenStore Store
  pub budget : Budget
  pub config : L402ClientConfig

-- A call that leaves the client.
pub data Event : Type 0 where
  sent : HttpRequest → Event
  paid : Text → Event

-- What changes while a client is used. The trace has the latest event first.
pub record Session (World Store : Type 0) : Type 0 where
  pub world : World
  pub store : Store
  pub budget_state : BudgetState
  pub receipts : List Receipt
  pub trace : List Event

-- The state of a client that was just built.
abbrev pub new_session : {World Store : Type 0} → World → Store → Session World Store
new_session world store = record {
  world = world;
  store = store;
  budget_state = new_state;
  receipts = [];
  trace = [];
}

-- `build`: a budget that was not set is unlimited.
abbrev pub built_budget : Option Budget → Budget
built_budget b = unwrap_or b unlimited

pub record L402Response : Type 0 where
  pub inner : HttpResponse
  pub paid : Bool
  pub cached_token : Bool
  pub receipt : Option Receipt
