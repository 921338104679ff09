-- ===== src/Proto/Bolt11/Networks.antt =====
-- The network prefixes, and how the decoder splits an invoice.
use bolt.Prelude.{◌≡◌, ◌≢◌, ◌∙◌, ap, some, [], ◌∷◌, ◌++◌, map, arith, take-length-append}
use bolt.Proto.Bolt11.{strip_network, decode_amount, decode_bolt11_amount}
use bolt.Proto.Std.{Std, IsAscii, ascii_lower}
use bolt.Text.Laws.{Lacks, rfind-append}
use bolt.Text.{Text, codes}

pub data Network : Type 0 where
  mainnet regtest testnet signet : Network

abbrev pub prefix : Network → Text
prefix mainnet = codes "lnbc"
prefix regtest = codes "lnbcrt"
prefix testnet = codes "lntb"
prefix signet = codes "lntbs"

-- A text that does not go on with the `r` of `lnbcrt` or the `s` of `lntbs`.
abbrev pub StartsPlain : Text → Type 0
StartsPlain [] = ⊥
StartsPlain (c ∷ t) = (c ≢ b'r') × (c ≢ b's')

pub strip_network-prefix :
    (n : Network) (t : Text) → StartsPlain t → strip_network (prefix n ++ t) ≡ some t
unfolding strip_network
strip_network-prefix n [] h = absurd h
strip_network-prefix mainnet (c ∷ t) h = ground arith
strip_network-prefix regtest (c ∷ t) h = ground arith
strip_network-prefix testnet (c ∷ t) h = ground arith
strip_network-prefix signet (c ∷ t) h = ground arith

-- The amount of an invoice is what stands between the network's prefix and the last `1`.
pub decode_bolt11_amount-split :
    (std : Std) (invoice : Text) (n : Network) (amount rest : Text)
    → IsAscii invoice
    → map ascii_lower invoice ≡ prefix n ++ (amount ++ b'1' ∷ rest)
    → StartsPlain (amount ++ b'1' ∷ rest)
    → Lacks b'1' rest
    → decode_bolt11_amount std invoice ≡ decode_amount std amount
unfolding decode_bolt11_amount
decode_bolt11_amount-split std invoice n amount rest ascii e plain clear =
    let low = std.lowercase_ascii invoice ascii ∙ e in
    rw
      (
        low,
        strip_network-prefix n (amount ++ b'1' ∷ rest) plain,
        rfind-append b'1' amount rest clear,
      )
      (ap (decode_amount std) (take-length-append amount (b'1' ∷ rest)))
