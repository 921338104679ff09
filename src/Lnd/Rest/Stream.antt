-- ===== src/Lnd/Rest/Stream.antt =====
-- The stream of updates of `/v2/router/send`: which one is taken.
use mathlib.Core.List.{reverse, reverse-append, reverse-reverse, reverse-cons}
use bolt.Lnd.Rest.{LndJson, scan}
use bolt.Lnd.Update.{PaymentUpdate, SendPaymentResponse, update_of, is_succeeded, or}
use bolt.Lnd.{LndError, deserialize}
use bolt.Prelude.{
  ◌≡◌, refl, sym, ap, ◌∙◌, true, false, Option, none, some, List, [], ◌∷◌, ◌++◌, Result, ok, err,
  err-ne-ok, Result-cases, All-append, append_assoc, subst, All, Bool-cases, inl, inr,
}
use bolt.Text.{Text, text}

module _ (json : LndJson) where
  -- What a line says.
  abbrev pub Reads : Text → PaymentUpdate → Type 0
  Reads line u = (r : SendPaymentResponse) × (json.parse_payment line ≡ ok r) × (update_of r ≡ u)

  -- A line that can be read, and is not the end of a payment that succeeded.
  abbrev pub IsOpen : Text → Type 0
  IsOpen line = (u : PaymentUpdate) × Reads line u × (is_succeeded u ≡ false)

  -- The last update that has succeeded, with nothing unreadable behind it.
  pub record LastSucceeded (lines : List Text) (u : PaymentUpdate) : Type 0 where
    pub earlier : List Text
    pub line : Text
    pub later : List Text
    pub split : lines ≡ earlier ++ line ∷ later
    pub reads : Reads line u
    pub succeeded : is_succeeded u ≡ true
    pub open_after : All IsOpen later

  -- The same of the lines from the last one back.
  pub record Found (lines : List Text) (u : PaymentUpdate) : Type 0 where
    later : List Text
    line : Text
    earlier : List Text
    split : lines ≡ later ++ line ∷ earlier
    reads : Reads line u
    succeeded : is_succeeded u ≡ true
    open_after : All IsOpen later

  scan-unreadable :
      (l : Text) (ls : List Text) (last : Option PaymentUpdate) {e : Text}
      → json.parse_payment l ≡ err e
      → scan json (l ∷ ls) last ≡ err (deserialize (text "failed to parse payment response: " ++ e))
  unfolding scan
  scan-unreadable l ls last h = rw h refl

  scan-succeeded :
      (l : Text) (ls : List Text) (last : Option PaymentUpdate) {r : SendPaymentResponse}
      → json.parse_payment l ≡ ok r
      → is_succeeded (update_of r) ≡ true
      → scan json (l ∷ ls) last ≡ ok (some (update_of r), or last (some (update_of r)))
  unfolding scan
  scan-succeeded l ls last h t = rw (h, t) refl

  pub scan-open :
      (l : Text) (ls : List Text) (last : Option PaymentUpdate) {r : SendPaymentResponse}
      → json.parse_payment l ≡ ok r
      → is_succeeded (update_of r) ≡ false
      → scan json (l ∷ ls) last ≡ scan json ls (or last (some (update_of r)))
  unfolding scan
  scan-open l ls last h f = rw (h, f) refl

  ok-some :
      {u v : PaymentUpdate} {x y : Option PaymentUpdate}
      {r : Result LndError (Option PaymentUpdate × Option PaymentUpdate)}
      → r ≡ ok (some u, x)
      → r ≡ ok (some v, y)
      → u ≡ v
  ok-some h k = cc

  Found-here :
      (l : Text) (ls : List Text) {r : SendPaymentResponse} {u : PaymentUpdate}
      → json.parse_payment l ≡ ok r
      → is_succeeded (update_of r) ≡ true
      → update_of r ≡ u
      → Found (l ∷ ls) u
  Found-here l ls {r} eq t same = record {
    later = [];
    line = l;
    earlier = ls;
    split = refl;
    reads = (r, eq, same);
    succeeded = sym (ap is_succeeded same) ∙ t;
    open_after = tt;
  }

  Found-before :
      (l : Text) (ls : List Text) {u : PaymentUpdate} → IsOpen l → Found ls u → Found (l ∷ ls) u
  Found-before l ls o rest = record {
    later = l ∷ rest.later;
    line = rest.line;
    earlier = rest.earlier;
    split = ap (λ (t : List Text). l ∷ t) rest.split;
    reads = rest.reads;
    succeeded = rest.succeeded;
    open_after = (o, rest.open_after);
  }

  pub scan_sound :
      (lines : List Text) (last : Option PaymentUpdate) {u : PaymentUpdate}
      {end : Option PaymentUpdate}
      → scan json lines last ≡ ok (some u, end)
      → Found lines u
  unfolding scan
  scan_sound [] last h = cc
  scan_sound (l ∷ ls) last {u} {end} h = elim (Result-cases (json.parse_payment l)) [
    | inl (e, eq) ↦ absurd (err-ne-ok (sym (scan-unreadable l ls last eq) ∙ h))
    | inr (r, eq) ↦ elim (Bool-cases (is_succeeded (update_of r))) [
      | inl t ↦ Found-here l ls eq t (ok-some (scan-succeeded l ls last eq t) h)
      | inr f ↦
          Found-before l ls (update_of r, (r, eq, refl), f)
            (scan_sound ls (or last (some (update_of r))) (sym (scan-open l ls last eq f) ∙ h))
    ]
  ]

  pub scan_complete :
      (later : List Text) (line : Text) (earlier : List Text) (last : Option PaymentUpdate)
      {u : PaymentUpdate}
      → All IsOpen later
      → Reads line u
      → is_succeeded u ≡ true
      → (end : Option PaymentUpdate) × (scan json (later ++ line ∷ earlier) last ≡ ok (some u, end))
  scan_complete [] line earlier last o (r, eq, same) t = (
    _,
    scan-succeeded line earlier last eq (ap is_succeeded same ∙ t)
        ∙ ap (λ v. ok (some v, or last (some (update_of r)))) same,
  )
  scan_complete (l ∷ ls) line earlier last o rd t =
      let (v, (r, eq, same), f) = o.0 in
      let (end, rest) = scan_complete ls line earlier (or last (some (update_of r))) o.1 rd t in
      (end, scan-open l (ls ++ line ∷ earlier) last eq (ap is_succeeded same ∙ f) ∙ rest)

  -- A stream that is all open ends with the update of its last line.
  pub scan_open :
      (lines : List Text) (last : PaymentUpdate)
      → All IsOpen lines
      → scan json lines (some last) ≡ ok (none, some last)
  unfolding scan
  scan_open [] last o = refl
  scan_open (l ∷ ls) last o =
      let (v, (r, eq, same), f) = o.0 in
      scan-open l ls (some last) eq (ap is_succeeded same ∙ f) ∙ scan_open ls last o.1

  pub reverse-split :
      (a : List Text) (x : Text) (b : List Text) → reverse (a ++ x ∷ b) ≡ reverse b ++ x ∷ reverse a
  reverse-split a x b =
      reverse-append a (x ∷ b)
      ∙ ap (λ (t : List Text). t ++ reverse a) (reverse-cons x b)
      ∙ append_assoc (reverse b) (x ∷ []) (reverse a)

  pub All-reverse : (ls : List Text) → All IsOpen ls → All IsOpen (reverse ls)
  All-reverse [] o = tt
  All-reverse (l ∷ ls) o =
      subst (All IsOpen) (sym (reverse-cons l ls))
        (All-append IsOpen (reverse ls) (l ∷ []) (All-reverse ls o.1) (o.0, tt))

  pub Found-LastSucceeded :
      (lines : List Text) {u : PaymentUpdate} → Found (reverse lines) u → LastSucceeded lines u
  Found-LastSucceeded lines h = record {
    earlier = reverse h.earlier;
    line = h.line;
    later = reverse h.later;
    split =
        sym (reverse-reverse lines) ∙ ap reverse h.split ∙ reverse-split h.later h.line h.earlier;
    reads = h.reads;
    succeeded = h.succeeded;
    open_after = All-reverse h.later h.open_after;
  }
