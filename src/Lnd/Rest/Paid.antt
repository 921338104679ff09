-- ===== src/Lnd/Rest/Paid.antt =====
-- The theorems on a payment over REST.
use bolt.Lnd.Rest.Stream.{
  LastSucceeded, Found-LastSucceeded, scan_sound, scan_complete, reverse-split, All-reverse,
}
use mathlib.Core.List.{reverse}
use bolt.Lnd.Rest.{LndJson, scan, read_stream, accept, chosen}
use bolt.Lnd.Update.{PaymentUpdate}
use bolt.Prelude.{
  ◌≡◌, refl, sym, ap, ◌∙◌, ◌↔◌, Option, none, some, List, [], ◌∷◌, ok, ◌>>=◌, >>=-eq-ok,
  append-cons-ne-nil, ◌≢◌,
}
use bolt.Proto.Port.{PaymentResult}
use bolt.Rest.{Crypto}
use bolt.Text.{Text}

module _ (json : LndJson) (crypto : Crypto) where
  chosen-eq-ok :
      (x : Option PaymentUpdate × Option PaymentUpdate) {u : PaymentUpdate}
      → chosen x ≡ ok u
      → x.0 ≡ some u
  chosen-eq-ok (some v, last) h = cc
  chosen-eq-ok (none, last) h = cc

  read_stream_sound :
      (lines : List Text) {p : PaymentResult}
      → read_stream json crypto lines ≡ ok p
      → (u : PaymentUpdate) × LastSucceeded json lines u × (accept crypto u ≡ ok p)
  unfolding read_stream
  read_stream_sound [] h = cc
  read_stream_sound (l ∷ ls) {p} h =
      let (x, e, rest) = >>=-eq-ok (scan json (reverse (l ∷ ls)) none) _ h in
      let (u, c, a) = >>=-eq-ok (chosen x) _ rest in
      (
        u,
        Found-LastSucceeded json (l ∷ ls) (
            scan_sound json (reverse (l ∷ ls)) none (e ∙ ap (λ o. ok (o, x.1)) (chosen-eq-ok x c))),
        a,
      )

  read_stream-scan :
      (lines : List Text) {x : Option PaymentUpdate × Option PaymentUpdate}
      → lines ≢ []
      → scan json (reverse lines) none ≡ ok x
      → read_stream json crypto lines ≡ (chosen x >>= accept crypto)
  unfolding read_stream
  read_stream-scan [] n h = absurd (n refl)
  read_stream-scan (l ∷ ls) n h = rw h refl

  read_stream-LastSucceeded :
      (lines : List Text) {u : PaymentUpdate}
      → LastSucceeded json lines u
      → read_stream json crypto lines ≡ accept crypto u
  read_stream-LastSucceeded lines {u} h =
      let (end, e) =
        scan_complete json (reverse h.later) h.line (reverse h.earlier) none
          (All-reverse json h.later h.open_after) h.reads h.succeeded in
      read_stream-scan lines (λ z. append-cons-ne-nil h.earlier h.line h.later (sym h.split ∙ z))
        (ap (λ t. scan json t none)
            (ap reverse h.split ∙ reverse-split json h.earlier h.line h.later)
          ∙ e)

  -- A payment is read of a stream exactly where it is what the stream's last SUCCEEDED update is
  -- accepted as, and every line behind that update can be read.
  pub read_stream_iff :
      (lines : List Text) (p : PaymentResult)
      → (read_stream json crypto lines ≡ ok p)
        ↔ ((u : PaymentUpdate) × LastSucceeded json lines u × (accept crypto u ≡ ok p))
  read_stream_iff lines p =
      (read_stream_sound lines, λ h. read_stream-LastSucceeded lines h.1 ∙ h.2)
