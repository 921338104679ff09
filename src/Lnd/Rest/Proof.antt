-- ===== src/Lnd/Rest/Proof.antt =====
-- What a payment over REST proves, and that an honest node's payment is accepted.
use bolt.Lnd.Rest.Paid.{read_stream_iff}
use bolt.Lnd.Rest.Stream.{LastSucceeded}
use bolt.Lnd.Rest.{
  LndJson, LndRestBackend, pay_request, pay_answer, pay_invoice, payment_lines, accept,
  verify_preimage, bytes_field_to_hex, received,
}
use bolt.Lnd.Update.{PaymentUpdate, preimage, hash, amount_sats, fee_sats}
use bolt.Lnd.{api, transport, to_client_error}
use bolt.Prelude.{
  ℕ, ◌+◌, ◌*◌, ◌/◌, ◌≡◌, ◌⊎◌, inl, inr, refl, sym, ap, ◌∙◌, true, false, some, [], ◌∷◌, Result, ok,
  >>=-eq-ok, map_err-eq-ok, length, length-map, subst, arith, map, ◌==◌, ok_or, if-eq-ok,
  ok-injective, map_err,
}
use bolt.Proto.Port.{PaymentResult}
use bolt.Proto.Std.{ascii_lower}
use bolt.Rest.{
  checked, checked-eq-ok, Crypto, IsCrypto, IsProof, RestResponse, is_success, exchange,
}
use bolt.Text.Equality.{text_eq, text_eq_iff}
use bolt.Text.Hex.{IsBytes, IsHex, all_hex, all_hex-lower}
use bolt.Text.{Text}

module _ (crypto : Crypto) where
  verify_preimage_sound :
      (x h : Text) {u : Unit {0}}
      → verify_preimage crypto x h ≡ ok u
      → (bytes : Text) × (crypto.hex_decode x ≡ ok bytes)
        × (crypto.hex_encode (crypto.sha256 bytes) ≡ h)
  unfolding verify_preimage
  verify_preimage_sound x h e =
      let (bytes, d, rest) = >>=-eq-ok (map_err _ (crypto.hex_decode x)) _ e in
      let (t, same) = if-eq-ok (text_eq (crypto.hex_encode (crypto.sha256 bytes)) h) _ rest in
      (bytes, map_err-eq-ok _ (crypto.hex_decode x) d, (text_eq_iff _ h).0 t)

  -- What is accepted of an update.
  pub accept_sound :
      (u : PaymentUpdate) {p : PaymentResult}
      → accept crypto u ≡ ok p
      → IsProof crypto p × (p.amount_sats ≡ amount_sats u) × (p.fee_sats ≡ fee_sats u)
  unfolding accept
  accept_sound u {p} h =
      let (x, e1, h1) = >>=-eq-ok (ok_or (preimage u) _) _ h in
      let (y, e2, h2) = >>=-eq-ok (ok_or (hash u) _) _ h1 in
      let (pre, e3, h3) = >>=-eq-ok (bytes_field_to_hex crypto x) _ h2 in
      let (hsh, e4, h4) = >>=-eq-ok (bytes_field_to_hex crypto y) _ h3 in
      let (done, e5, h5) = >>=-eq-ok (verify_preimage crypto pre hsh) _ h4 in
      let same = ok-injective refl h5 in
      let (bytes, d, s) = verify_preimage_sound pre hsh e5 in
      (
        record {
          bytes = bytes;
          decoded = ap (λ (q : PaymentResult). crypto.hex_decode q.preimage) (sym same) ∙ d;
          hashed = s ∙ ap (λ (q : PaymentResult). q.payment_hash) same;
        },
        ap (λ (q : PaymentResult). q.amount_sats) (sym same),
        ap (λ (q : PaymentResult). q.fee_sats) (sym same),
      )

  -- The two encodings of 32 bytes: hexadecimal in upper, lower or mixed case, and base64.
  abbrev pub Encodes : Text → Text → Type 0
  Encodes raw bytes =
      (map ascii_lower raw ≡ crypto.hex_encode bytes) ⊎ (crypto.base64_decode raw ≡ ok bytes)

  field-hex :
      (raw : Text)
      → length raw ≡ 64
      → all_hex raw ≡ true
      → bytes_field_to_hex crypto raw ≡ ok (map ascii_lower raw)
  unfolding bytes_field_to_hex
  field-hex [] n h = absurd (omega (arith, n))
  field-hex (c ∷ t) n h =
      let m : (length (c ∷ t) == 64) ≡ true = ground (arith, n) in
      rw (bytes_field_to_hex, m, h) refl

  field-base64 :
      (raw : Text) {bytes : Text}
      → length raw ≡ 44
      → crypto.base64_decode raw ≡ ok bytes
      → bytes_field_to_hex crypto raw ≡ ok (crypto.hex_encode bytes)
  unfolding bytes_field_to_hex
  field-base64 [] n h = absurd (omega (arith, n))
  field-base64 (c ∷ t) n h =
      let m : (length (c ∷ t) == 64) ≡ false = ground (arith, n) in
      rw (bytes_field_to_hex, m, h) refl

  module _ (laws : IsCrypto crypto) where
    bytes_field_to_hex-Encodes :
        (raw bytes : Text)
        → IsBytes bytes
        → length bytes ≡ 32
        → Encodes raw bytes
        → bytes_field_to_hex crypto raw ≡ ok (crypto.hex_encode bytes)
    bytes_field_to_hex-Encodes raw bytes b n (inl e) =
        let hex = subst IsHex (sym e) (laws.hex_encode-IsHex bytes b) in
        let len : length raw ≡ length (crypto.hex_encode bytes) =
          sym (length-map ascii_lower raw) ∙ ap length e in
        field-hex raw (omega (arith, n, len, laws.length-hex_encode bytes)) (all_hex-lower raw hex)
        ∙ ap ok e
    bytes_field_to_hex-Encodes raw bytes b n (inr e) =
        field-base64 raw (laws.length-base64_decode raw e ∙ ap (λ k. 4 * ((k + 2) / 3)) n) e

    verify_preimage-sha256 :
        (bytes : Text)
        → IsBytes bytes
        → verify_preimage crypto (crypto.hex_encode bytes) (crypto.hex_encode (crypto.sha256 bytes))
          ≡ ok tt
    unfolding verify_preimage
    verify_preimage-sha256 bytes b =
        rw
          (
            laws.hex_decode-hex_encode bytes b,
            (text_eq_iff (crypto.hex_encode (crypto.sha256 bytes)) _).1 refl,
          )
          refl

    -- An update whose preimage and hash fields belong together is accepted.
    pub accept-Encodes :
        (u : PaymentUpdate) (bytes raw_preimage raw_hash : Text)
        → IsBytes bytes
        → length bytes ≡ 32
        → preimage u ≡ some raw_preimage
        → hash u ≡ some raw_hash
        → Encodes raw_preimage bytes
        → Encodes raw_hash (crypto.sha256 bytes)
        → accept crypto u
          ≡ ok (record {
            preimage = crypto.hex_encode bytes;
            payment_hash = crypto.hex_encode (crypto.sha256 bytes);
            amount_sats = amount_sats u;
            fee_sats = fee_sats u;
          })
    unfolding accept
    accept-Encodes u bytes x y b n hx hy ex ey =
        rw
          (
            hx,
            hy,
            bytes_field_to_hex-Encodes x bytes b n ex,
            bytes_field_to_hex-Encodes y (crypto.sha256 bytes) (laws.sha256-IsBytes bytes)
                (laws.length-sha256 bytes) ey,
            verify_preimage-sha256 bytes b,
          )
          refl

-- What a payment that succeeded comes from.
pub record IsSettled (json : LndJson) (crypto : Crypto) (p : PaymentResult) (r : RestResponse)
    : Type 0 where
  pub body : Text
  pub update : PaymentUpdate
  pub success : is_success r.status ≡ true
  pub body_read : r.text ≡ ok body
  pub last : LastSucceeded json (payment_lines body) update
  pub amount : p.amount_sats ≡ amount_sats update
  pub fee : p.fee_sats ≡ fee_sats update
  pub proof : IsProof crypto p

module _ {Node : Type 0} (json : LndJson) (crypto : Crypto) (b : LndRestBackend Node)
    (bolt11 : Text) (max_fee_sats : ℕ) (node : Node) where
  abbrev pub reply : Result Text RestResponse
  reply = (b.client.send (pay_request json crypto b bolt11 max_fee_sats) node).1

  -- A payment that is reported as made was answered with a status of 2xx and a stream whose last
  -- SUCCEEDED update has the amount and the fee, with nothing behind it that cannot be read; and
  -- the payment hash is the SHA-256 digest of the preimage.
  pub pay_invoice-IsSettled :
      {p : PaymentResult}
      → (pay_invoice json crypto b bolt11 max_fee_sats node).1 ≡ ok p
      → (r : RestResponse) × (reply ≡ ok r) × IsSettled json crypto p r
  unfolding pay_invoice pay_answer exchange
  pay_invoice-IsSettled {p} h =
      let (r, e1, h1) = >>=-eq-ok (received reply) _ (map_err-eq-ok to_client_error _ h) in
      let (body, e2, h2) = >>=-eq-ok (map_err transport r.text) _ h1 in
      let (u, last, a) = (read_stream_iff json crypto (payment_lines body) p).0 h2 in
      let (sent, success) = checked-eq-ok transport api reply e1 in
      let (proof, amount, fee) = accept_sound crypto u a in
      (
        r,
        sent,
        record {
          body = body;
          update = u;
          success = success;
          body_read = map_err-eq-ok transport r.text e2;
          last = last;
          amount = amount;
          fee = fee;
          proof = proof;
        },
      )

  -- Under the laws of the crates, a node that answers 2xx with a stream whose last SUCCEEDED update
  -- has a preimage of 32 bytes and its digest, each in hexadecimal of any case or in base64, has its
  -- payment accepted: the result has both in lower-case hexadecimal, and the update's amount and fee.
  pub pay_invoice-Encodes :
      (r : RestResponse) (body : Text) (u : PaymentUpdate) (bytes raw_preimage raw_hash : Text)
      → IsCrypto crypto
      → reply ≡ ok r
      → is_success r.status ≡ true
      → r.text ≡ ok body
      → LastSucceeded json (payment_lines body) u
      → IsBytes bytes
      → length bytes ≡ 32
      → preimage u ≡ some raw_preimage
      → hash u ≡ some raw_hash
      → Encodes crypto raw_preimage bytes
      → Encodes crypto raw_hash (crypto.sha256 bytes)
      → (pay_invoice json crypto b bolt11 max_fee_sats node).1
        ≡ ok (record {
          preimage = crypto.hex_encode bytes;
          payment_hash = crypto.hex_encode (crypto.sha256 bytes);
          amount_sats = amount_sats u;
          fee_sats = fee_sats u;
        })
  unfolding pay_invoice pay_answer exchange checked
  pay_invoice-Encodes r body u bytes x y laws sent success read last b n hx hy ex ey =
      let paid = accept-Encodes crypto laws u bytes x y b n hx hy ex ey in
      rw
        (
          sent,
          success,
          read,
          (read_stream_iff json crypto (payment_lines body) _).1 (u, last, paid),
        )
        refl
