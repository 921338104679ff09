-- ===== src/Tests/Fixtures.antt =====
-- Concrete parameters for the tests: a hex codec, a digest that is good enough for a test, and a
-- client of the mock server with the in-memory store.
use bolt.Core.Budget.{Budget, Limits, budget, no_domains}
use bolt.Core.Cache
use bolt.Core.Cache.Store.{memory_store}
use bolt.Core.Cache.{CacheInner}
use bolt.Core.Client.{Env, L402Client, default_config, Session, new_session}
use bolt.Mock.Backend.{mock_backend}
use bolt.Mock.Laws.{IsCodec}
use bolt.Mock.Server
use bolt.Mock.Server.{Endpoints, EndpointConfig, endpoint_config, endpoint}
use bolt.Mock.{Codec, MockState}
use bolt.Prelude.{
  ℕ, ◌+◌, ◌-◌, ◌*◌, ◌/◌, ◌%◌, ◌<◌, ◌≤◌, ◌≡◌, ◌⊎◌, refl, true, Option, none, some, [], ◌∷◌, ltb, leb,
  if◌then◌else◌, unwrap_or, length, arith, err, ok, zero, suc, Result, ok_or, if-eq-ok, ◌==◌,
  ==_iff, ap, sym,
}
use bolt.Proto.Challenge.{Base64, quote}
use bolt.Proto.Std.{ascii_std}
use bolt.Rest.{Crypto, IsCrypto}
use bolt.Text.Hex.{IsBytes, IsHex}
use bolt.Text.Laws.{Lacks}
use bolt.Text.{Text, codes, strip_prefix}

abbrev pub hex_digit : ℕ → ℕ
hex_digit n = if ltb n 10 then b'0' + n else b'a' + (n - 10)

abbrev pub hex_value : ℕ → ℕ
hex_value c = if leb c b'9' then c - b'0' else c - b'a' + 10

unfoldable pub encode_hex : Text → Text
encode_hex [] = []
encode_hex (b ∷ t) = hex_digit (b / 16) ∷ hex_digit (b % 16) ∷ encode_hex t

unfoldable pub decode_hex : Text → Option Text
decode_hex [] = some []
decode_hex (c ∷ []) = none
decode_hex (c ∷ d ∷ t) = elim (decode_hex t) [
  | none ↦ none
  | some b ↦ some ((hex_value c * 16 + hex_value d) ∷ b)
]

hex_value-hex_digit : (n : ℕ) → n < 16 → hex_value (hex_digit n) ≡ n
hex_value-hex_digit n h = ground arith

decode_hex-encode_hex : (b : Text) → IsBytes b → decode_hex (encode_hex b) ≡ some b
unfolding encode_hex decode_hex
decode_hex-encode_hex [] h = refl
decode_hex-encode_hex (c ∷ b) h =
    rw
      (
        decode_hex-encode_hex b h.1,
        hex_value-hex_digit (c / 16) (omega (arith, h.0)),
        hex_value-hex_digit (c % 16) (omega arith),
      )
      (let e : (c / 16) * 16 + c % 16 ≡ c = omega arith in rw e refl)

hex_digit-IsHex :
    (n : ℕ)
    → n < 16
    → ((b'0' ≤ hex_digit n) × (hex_digit n ≤ b'9')) ⊎ ((b'a' ≤ hex_digit n) × (hex_digit n ≤ b'f'))
hex_digit-IsHex n h = ground arith

encode_hex-IsHex : (b : Text) → IsBytes b → IsHex (encode_hex b)
unfolding encode_hex
encode_hex-IsHex [] h = tt
encode_hex-IsHex (c ∷ b) h = (
  hex_digit-IsHex (c / 16) (omega (arith, h.0)),
  (hex_digit-IsHex (c % 16) (omega arith), encode_hex-IsHex b h.1),
)

-- Letters for bytes.
abbrev pub letters : Text → Text
letters [] = []
letters (c ∷ t) = (b'A' + c % 26) ∷ letters t

letters-Lacks : (q : ℕ) (t : Text) → q < b'A' → Lacks q (letters t)
letters-Lacks q [] h = tt
letters-Lacks q (c ∷ t) h = (λ e. omega (arith, e), letters-Lacks q t h)

abbrev pub codec : Codec
codec = record {
  hex_encode = encode_hex;
  hex_decode = decode_hex;
  sha256 = λ b. (length b % 256) ∷ [];
  base64_encode = letters;
}

-- A decoder that accepts everything.
abbrev pub base64 : Base64
base64 = record { is_standard = λ t. true; url_safe_error = λ t. none }

pub codec-IsCodec : IsCodec codec base64
codec-IsCodec = record {
  hex_decode-hex_encode = decode_hex-encode_hex;
  hex_encode-IsHex = encode_hex-IsHex;
  sha256-IsBytes = λ b. (omega arith, tt);
  base64-no_quote = λ b. letters-Lacks quote b (omega arith);
  base64-no_colon = λ b. letters-Lacks b':' b (omega arith);
  base64-is_standard = λ b. refl;
}

abbrev pub url : Text
url = codes "http://h/api/test"

abbrev pub path_of : Text → Text
path_of u = unwrap_or (strip_prefix (codes "http://h") u) []

abbrev pub random : ℕ → Text
random n = (n % 256) ∷ 7 ∷ []

abbrev pub config : EndpointConfig
config = endpoint_config 100

abbrev pub endpoints : Endpoints
endpoints = endpoint (codes "/api/test") config []

abbrev pub some_limits : Limits
some_limits = record {
  per_request_max = some 500;
  hourly_max = some 1_000;
  daily_max = none;
  total_max = some 5_000;
}

abbrev pub some_budget : Budget
some_budget = budget some_limits no_domains

-- The transport is replaced by the mock server.
abbrev pub offline : Env MockState
offline = record {
  send = λ r w. (w, err (codes "offline"));
  backend = mock_backend;
  now = λ w. 1_700_000_000;
  elapsed_ms = λ start end. 5;
  host_of = λ u. some (codes "h");
  header_error = λ t. none;
}

abbrev pub client : L402Client MockState CacheInner
client = record {
  std = ascii_std;
  base64 = base64;
  env = offline;
  token_store = memory_store;
  budget = some_budget;
  config = default_config (codes "test");
}

abbrev pub fresh : Session MockState CacheInner
fresh = new_session Server.new_state (Cache.new 4)

-- So many bytes that are 0.
abbrev pub zeros : ℕ → Text
zeros zero = []
zeros (suc n) = 0 ∷ zeros n

zeros-IsBytes : (n : ℕ) → IsBytes (zeros n)
zeros-IsBytes zero = tt
zeros-IsBytes (suc n) = (omega arith, zeros-IsBytes n)

-- Base64 with 44 letters stands for 32 bytes.
abbrev pub decode_base64 : Text → Result Text Text
decode_base64 t = if length t == 44 then ok (zeros 32) else err (codes "Invalid padding")

abbrev pub crypto : Crypto
crypto = record {
  hex_encode = encode_hex;
  hex_decode = λ t. ok_or (decode_hex t) (codes "Odd number of digits");
  sha256 = λ b. (length b % 256) ∷ zeros 31;
  base64_decode = decode_base64;
}

length-encode_hex : (b : Text) → length (encode_hex b) ≡ 2 * length b
unfolding encode_hex
length-encode_hex [] = omega arith
length-encode_hex (c ∷ b) = omega (arith, length-encode_hex b)

length-decode_base64 :
    (t : Text) {b : Text} → decode_base64 t ≡ ok b → length t ≡ 4 * ((length b + 2) / 3)
length-decode_base64 t {b} h =
    let (e, same) = if-eq-ok (length t == 44) (codes "Invalid padding") h in
    let n : length b ≡ 32 = ap length (sym same) in
    let m : length t ≡ 44 = (==_iff (length t) 44).0 e in omega (arith, n, m)

pub crypto-IsCrypto : IsCrypto crypto
crypto-IsCrypto = record {
  hex_decode-hex_encode = λ b h. rw (decode_hex-encode_hex b h) refl;
  hex_encode-IsHex = encode_hex-IsHex;
  length-hex_encode = length-encode_hex;
  sha256-IsBytes = λ b. (omega arith, zeros-IsBytes 31);
  length-sha256 = λ b. refl;
  length-base64_decode = λ t {b} h. length-decode_base64 t {b = b} h;
}
