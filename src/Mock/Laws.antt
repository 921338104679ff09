-- ===== src/Mock/Laws.antt =====
-- What the mock relies on in the hex, sha2 and base64 crates.
use bolt.Mock.{Codec}
use bolt.Prelude.{◌≡◌, true, some}
use bolt.Proto.Challenge.{Base64, quote}
use bolt.Text.Hex.{IsBytes, IsHex}
use bolt.Text.Laws.{Lacks}
use bolt.Text.{Text}

-- `hex::encode` writes lower case, which `hex::decode` reads back; a SHA-256 digest is bytes; base64
-- text has no quote and no colon, is empty only for no bytes, and is accepted by the decoder.
pub record IsCodec (codec : Codec) (base64 : Base64) : Type 0 where
  pub hex_decode-hex_encode :
      (b : Text) → IsBytes b → codec.hex_decode (codec.hex_encode b) ≡ some b
  pub hex_encode-IsHex : (b : Text) → IsBytes b → IsHex (codec.hex_encode b)
  pub sha256-IsBytes : (b : Text) → IsBytes (codec.sha256 b)
  pub base64-no_quote : (b : Text) → Lacks quote (codec.base64_encode b)
  pub base64-no_colon : (b : Text) → Lacks b':' (codec.base64_encode b)
  pub base64-is_standard : (b : Text) → base64.is_standard (codec.base64_encode b) ≡ true
