-- ===== src/Proto/Token/RoundTrip.antt =====
-- Writing a token and reading it back; what the reader accepts.
use bolt.Prelude.{◌≡◌, ◌≢◌, refl, ◌⊎◌, [], ◌∷◌, ◌++◌, ok, ok_or, >>=-eq-ok, ok_or-eq-ok, arith}
use bolt.Proto.Scheme.{l402, lsat, strip_scheme, strip_scheme-l402, strip_scheme_sound}
use bolt.Proto.Token.{L402Token, to_header_value, check_parts, from_header}
use bolt.Text.Laws.{
  Lacks, EndsClear, EndsClear-append, EndsClear-cons, EndsClear-ne, trim_by-IsTrimmed,
  split_once-append, split_once_sound,
}
use bolt.Text.{Text, is_whitespace, trim, split_once}

-- A credential that a header can carry.
pub record IsSendable (token : L402Token) : Type 0 where
  pub macaroon_ne : token.macaroon ≢ []
  pub macaroon_clear : Lacks b':' token.macaroon
  pub preimage_end : EndsClear is_whitespace token.preimage

check_parts-ok :
    (m p : Text) → m ≢ [] → p ≢ [] → check_parts m p ≡ ok (record { macaroon = m; preimage = p })
unfolding check_parts
check_parts-ok [] p h k = absurd (h refl)
check_parts-ok (c ∷ m) [] h k = absurd (k refl)
check_parts-ok (c ∷ m) (d ∷ p) h k = refl

-- A token whose macaroon is not empty and has no colon, and whose preimage ends in a character that
-- is no white space, is read back from the header that it is written to.
pub from_header-to_header_value :
    (token : L402Token) → IsSendable token → from_header (to_header_value token) ≡ ok token
unfolding from_header to_header_value
from_header-to_header_value token s =
    let body = token.macaroon ++ b':' ∷ token.preimage in
    let trimmed = trim_by-IsTrimmed is_whitespace (l402 ++ body) (
      unfold is_whitespace in refl,
      EndsClear-append is_whitespace (l402 ++ token.macaroon) (b':' ∷ token.preimage)
          (EndsClear-cons is_whitespace b':' token.preimage s.preimage_end),
    ) in
    rw
      (
        trimmed,
        strip_scheme-l402 body,
        split_once-append b':' token.macaroon token.preimage s.macaroon_clear,
      )
      (check_parts-ok token.macaroon token.preimage s.macaroon_ne
        (EndsClear-ne is_whitespace token.preimage s.preimage_end))

check_parts-inv :
    (m p : Text) (token : L402Token)
    → check_parts m p ≡ ok token
    → (token.macaroon ≡ m) × (token.preimage ≡ p) × (m ≢ []) × (p ≢ [])
unfolding check_parts
check_parts-inv [] p token h = absurd (ground arith)
check_parts-inv (c ∷ m) [] token h = absurd (ground arith)
check_parts-inv (c ∷ m) (d ∷ p) token h = (ground arith, ground arith, ground arith, ground arith)

-- A header that is accepted is, but for white space at its ends, a scheme, the macaroon, a colon and
-- the preimage. The macaroon has no colon, and neither part is empty.
pub from_header_sound_token :
    (header : Text) {token : L402Token}
    → from_header header ≡ ok token
    → ((trim header ≡ l402 ++ (token.macaroon ++ b':' ∷ token.preimage))
        ⊎ (trim header ≡ lsat ++ (token.macaroon ++ b':' ∷ token.preimage)))
      × Lacks b':' token.macaroon
      × (token.macaroon ≢ [])
      × (token.preimage ≢ [])
unfolding from_header
from_header_sound_token header {token} h =
    let (cred, p, q) = >>=-eq-ok (ok_or (strip_scheme (trim header)) _) _ h in
    let (parts, r, s) = >>=-eq-ok (ok_or (split_once b':' cred) _) _ q in
    let (em, ep, nm, np) = check_parts-inv parts.0 parts.1 token s in
    let (e, clear) = split_once_sound b':' cred (ok_or-eq-ok (split_once b':' cred) _ r) in
    rw (em, ep, ← e)
      (
        strip_scheme_sound (trim header) (ok_or-eq-ok (strip_scheme (trim header)) _ p),
        clear,
        nm,
        np,
      )
