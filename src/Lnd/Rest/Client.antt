-- ===== src/Lnd/Rest/Client.antt =====
-- A client that pays with an LND node over REST.
use bolt.Core.Client.Receipts.{AllGood, run-AllGood}
use bolt.Core.Client.Spending.{Call, run}
use bolt.Core.Client.{L402Client, new_session}
use bolt.Lnd.Rest.Proof.{pay_invoice-IsSettled}
use bolt.Lnd.Rest.{LndJson, LndRestBackend, lnd_rest_backend}
use bolt.Prelude.{List}
use bolt.Rest.{Crypto, IsProof}

-- `builder.ln_backend(backend)`.
abbrev pub with_lnd :
    {World Store : Type 0}
    → LndJson
    → Crypto
    → LndRestBackend World
    → L402Client World Store
    → L402Client World Store
with_lnd json crypto b c = record c {
  env = record c.env { backend = lnd_rest_backend json crypto b };
}

-- After any requests of a new client that pays with an LND node over REST, whatever the servers, the
-- node and the token store answer: every receipt of the client is a proof of payment, that is, its
-- payment hash is the SHA-256 digest of its preimage, both in hexadecimal.
pub run-IsProof :
    {World Store : Type 0} (json : LndJson) (crypto : Crypto) (b : LndRestBackend World)
    (c : L402Client World Store) (world : World) (store : Store) (calls : List Call)
    → AllGood
        (with_lnd json crypto b c)
        (IsProof crypto)
        (run (with_lnd json crypto b c) calls (new_session world store))
run-IsProof json crypto b c world store calls =
    run-AllGood (with_lnd json crypto b c) (IsProof crypto) world store calls
      (λ invoice fee w p h. (pay_invoice-IsSettled json crypto b invoice fee w h).2.proof)
