-- ===== src/Mock/Server/Access.antt =====
-- Who the mock server lets in.
use bolt.HashMap
use bolt.HashMap.{HashMap}
use bolt.Mock.Challenge.{generate, hash_of, validate_preimage, validate_auth}
use bolt.Mock.Laws.{IsCodec}
use bolt.Text.Hex.{IsBytes}
use bolt.Mock.Server.{
  EndpointConfig, Endpoints, answer, any_valid, validate_l402_auth, judge, issue, serve,
  handle_request,
}
use bolt.Mock.{Codec, PendingChallenge, MockState}
use bolt.Prelude.{
  ℕ, ◌≡◌, ◌⊎◌, inl, inr, refl, ◌∙◌, ap, Bool, true, false, Option, none, some, [], ◌∷◌, ◌++◌, arith,
  Bool-cases, Option-cases,
}
use bolt.Proto.Challenge.{Base64}
use bolt.Proto.Scheme.{l402, lsat, strip_scheme, strip_scheme-l402, strip_scheme_sound}
use bolt.Proto.Token.{L402Token, to_header_value}
use bolt.Text.Equality.{Text-discrete, text_eq_iff}
use bolt.Text.Laws.{Lacks, split_once-append, split_once_sound}
use bolt.Text.{Text, split_once}

-- The token proves that the challenge's invoice was paid: its preimage is hex of bytes with the
-- challenge's hash, and the macaroon is the challenge's.
pub record Proves (codec : Codec) (macaroon preimage : Text) (c : PendingChallenge) : Type 0 where
  pub macaroon_same : macaroon ≡ c.macaroon
  pub bytes : Text
  pub decoded : codec.hex_decode preimage ≡ some bytes
  pub hash : hash_of codec bytes ≡ c.payment_hash

-- The registry has an entry with this challenge.
abbrev pub Lists : HashMap Text PendingChallenge → PendingChallenge → Type 0
Lists [] c = ⊥
Lists (e ∷ m) c = (e.1 ≡ c) ⊎ Lists m c

module _ (codec : Codec) where
  validate_auth_sound :
      (c : PendingChallenge) (m p : Text) → validate_auth codec c m p ≡ true → Proves codec m p c
  unfolding validate_auth validate_preimage
  validate_auth_sound c m p h = elim (Option-cases (codec.hex_decode p)) [
    | inl e ↦ absurd (ground arith)
    | inr (bytes, e) ↦ record {
      macaroon_same = ground (arith, text_eq_iff m c.macaroon);
      bytes = bytes;
      decoded = e;
      hash = ground (arith, text_eq_iff (hash_of codec bytes) c.payment_hash);
    }
  ]

  any_valid_sound :
      (m p : Text) (reg : HashMap Text PendingChallenge)
      → any_valid codec m p reg ≡ true
      → (c : PendingChallenge) × Lists reg c × Proves codec m p c
  unfolding any_valid
  any_valid_sound m p [] h = absurd (ground arith)
  any_valid_sound m p (e ∷ reg) h = elim (Bool-cases (validate_auth codec e.1 m p)) [
    | inl v ↦ (e.1, inl refl, validate_auth_sound e.1 m p v)
    | inr v ↦ let (c, l, q) = any_valid_sound m p reg (ground arith) in (c, inr l, q)
  ]

  any_valid-get :
      (k m p : Text) (reg : HashMap Text PendingChallenge) {c : PendingChallenge}
      → HashMap.get Text-discrete k reg ≡ some c
      → validate_auth codec c m p ≡ true
      → any_valid codec m p reg ≡ true
  unfolding any_valid HashMap.get
  any_valid-get k m p [] g h = absurd (ground arith)
  any_valid-get k m p (e ∷ reg) {c} g h = ground (arith, any_valid-get k m p reg {c = c})

  -- A header that the server accepts.
  pub record Opens (auth : Option (Option Text)) (s : MockState) : Type 0 where
    pub macaroon : Text
    pub preimage : Text
    pub header :
        (auth ≡ some (some (l402 ++ (macaroon ++ b':' ∷ preimage))))
        ⊎ (auth ≡ some (some (lsat ++ (macaroon ++ b':' ∷ preimage))))
    pub challenge : PendingChallenge
    pub listed : Lists s.challenges challenge
    pub proves : Proves codec macaroon preimage challenge

  validate_l402_auth_sound :
      (auth : Text) (s : MockState)
      → validate_l402_auth codec auth s ≡ some true
      → Opens (some (some auth)) s
  unfolding validate_l402_auth
  validate_l402_auth_sound auth s h = elim (Option-cases (strip_scheme auth)) [
    | inl e ↦ absurd (ground arith)
    | inr (stripped, e) ↦ (elim (Option-cases (split_once b':' stripped)) [
      | inl f ↦ absurd (ground arith)
      | inr ((m, p), f) ↦
          let (c, l, q) = any_valid_sound m p s.challenges (ground arith) in
          let (shape, clear) = split_once_sound b':' stripped f in
          record {
            macaroon = m;
            preimage = p;
            header = elim (strip_scheme_sound auth (e ∙ ap some shape)) [
              | inl d ↦ inl (ap (λ (t : Text). some (some t)) d)
              | inr d ↦ inr (ap (λ (t : Text). some (some t)) d)
            ];
            challenge = c;
            listed = l;
            proves = q;
          }
    ])
  ]

  judge_sound :
      (auth : Option (Option Text)) (s : MockState) → judge codec auth s ≡ some true → Opens auth s
  unfolding judge
  judge_sound none s h = absurd (ground arith)
  judge_sound (some none) s h = absurd (ground arith)
  judge_sound (some (some auth)) s h = validate_l402_auth_sound auth s h

  module _ (random : ℕ → Text) where
    serve-200 :
        (config : EndpointConfig) (b : Option Bool) (s : MockState)
        → (serve codec random config b s).1.status ≡ 200
        → (b ≡ some true) × (serve codec random config b s ≡ (s, answer 200 config.response_body))
    unfolding serve issue
    serve-200 config none s h = absurd (omega (arith, h))
    serve-200 config (some true) s h = (refl, refl)
    serve-200 config (some false) s h = absurd (omega (arith, h))

    -- The server answers 200 only on a path that it protects, with that endpoint's body and without
    -- changing its state, and only to a header `L402 <macaroon>:<preimage>` (or `LSAT`) where a
    -- challenge of the registry has this macaroon, and has the hash of the bytes that the preimage
    -- decodes to.
    pub handle_request_sound :
        (endpoints : Endpoints) (path : Text) (auth : Option (Option Text)) (s : MockState)
        → (handle_request codec random endpoints path auth s).1.status ≡ 200
        → Opens auth s
          × ((config : EndpointConfig) × (HashMap.get Text-discrete path endpoints ≡ some config)
              × (handle_request codec random endpoints path auth s
                  ≡ (s, answer 200 config.response_body)))
    unfolding handle_request
    handle_request_sound endpoints path auth s h =
        elim (Option-cases (HashMap.get Text-discrete path endpoints)) [
          | inl e ↦ absurd (ground arith)
          | inr (config, e) ↦
              let (j, eq) = serve-200 config (judge codec auth s) s (ground arith) in
              (judge_sound auth s j, (config, e, rw (handle_request, e) eq))
        ]

    -- A token for a listed challenge, with no colon in its macaroon, opens every protected path.
    pub handle_request-admits :
        (endpoints : Endpoints) (path k : Text) (token : L402Token) (s : MockState)
        {config : EndpointConfig} {c : PendingChallenge}
        → HashMap.get Text-discrete path endpoints ≡ some config
        → HashMap.get Text-discrete k s.challenges ≡ some c
        → Lacks b':' token.macaroon
        → validate_auth codec c token.macaroon token.preimage ≡ true
        → handle_request codec random endpoints path (some (some (to_header_value token))) s
          ≡ (s, answer 200 config.response_body)
    unfolding handle_request judge validate_l402_auth to_header_value serve
    handle_request-admits endpoints path k token s {c = c} e g clear v =
        rw
          (
            handle_request,
            e,
            judge,
            validate_l402_auth,
            to_header_value,
            strip_scheme-l402 (token.macaroon ++ b':' ∷ token.preimage),
            split_once-append b':' token.macaroon token.preimage clear,
            any_valid-get k token.macaroon token.preimage s.challenges {c = c} g v,
          )
          refl

    pub handle_request-issues :
        (endpoints : Endpoints) (path : Text) (s : MockState) {config : EndpointConfig}
        → HashMap.get Text-discrete path endpoints ≡ some config
        → handle_request codec random endpoints path none s ≡ issue codec random config s
    unfolding handle_request judge serve
    handle_request-issues endpoints path s e = rw (handle_request, e) refl

  -- What is generated is validated by its own preimage.
  pub validate_auth-generate :
      (base64 : Base64) (bytes : Text) (amount : ℕ)
      → IsCodec codec base64
      → IsBytes bytes
      → validate_auth codec
          (generate codec bytes amount)
          (generate codec bytes amount).macaroon
          (generate codec bytes amount).preimage
        ≡ true
  unfolding validate_auth validate_preimage generate
  validate_auth-generate base64 bytes amount k h =
      rw
        (
          validate_auth,
          validate_preimage,
          generate,
          k.hex_decode-hex_encode bytes h,
          (text_eq_iff (generate codec bytes amount).macaroon
                (generate codec bytes amount).macaroon).1
              refl,
        )
        ((text_eq_iff (hash_of codec bytes) (hash_of codec bytes)).1 refl)
