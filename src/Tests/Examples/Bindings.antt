-- ===== src/Tests/Examples/Bindings.antt =====
-- The theorems on the bindings.
use bolt.Core.Cache
use bolt.Core.Cache.{CacheInner}
use bolt.Core.Client.Builder.{ClientParts, client_of}
use bolt.Core.Client.Receipts.{AllGood}
use bolt.Core.Client.Response.{BodyReader}
use bolt.Core.Client.Spending.{IsCovered, run}
use bolt.Core.Client.{Env, default_config, new_session}
use bolt.Core.Budget.{budget, no_domains}
use bolt.Core.Cache.Store.{memory_store}
use bolt.Ffi.Errors.{IsReported, client_get-IsReported}
use bolt.Ffi.{CLib, Ffi, client_get, client_post}
use bolt.Core.Client.{Session}
use bolt.Lnd.Rest.{with_client, lnd_rest_backend}
use bolt.Mock.Server
use bolt.Mock.{MockState}
use bolt.Prelude.{◌≡◌, refl, true, none, some, [], ok, arith}
use bolt.Proto.Std.{ascii_std}
use bolt.Python
use bolt.Python.Backends
use bolt.Python.Refused.{IsRefunded, get-IsRefunded}
use bolt.Python.{new_budget}
use bolt.Rest.{IsProof}
use bolt.Tests.Examples.Client.{mock}
use bolt.Tests.Examples.Lnd.{buyer, calls, json, node}
use bolt.Tests.Fixtures.{base64, crypto, fresh, url}
use bolt.Text.{codes}
use bolt.Wasm.Limits.{with_lnd_rest-IsCovered}
use bolt.Wasm.{WasmBudgetConfig, with_lnd_rest}

abbrev config : WasmBudgetConfig
config = record { per_request_max = 0; hourly_max = 0; daily_max = 0; total_max = 5_000 }

abbrev parts : ClientParts MockState CacheInner
parts = record {
  env = record buyer.env {
    backend =
        lnd_rest_backend json crypto
          (with_client (codes "https://localhost:8080/") (codes "00") node);
  };
  token_store = memory_store;
  budget =
      budget
        (record {
          per_request_max = none;
          hourly_max = none;
          daily_max = none;
          total_max = some 5_000;
        })
        no_domains;
  config = record (default_config (codes "bolt402")) { max_fee_sats = 10 };
}

made :
    with_lnd_rest buyer.env
      (λ agent. ok buyer.env.send)
      (codes "bolt402")
      json
      crypto
      (ok node)
      (codes "https://localhost:8080/")
      (codes "00")
      config
      10
    ≡ ok parts
unfolding with_lnd_rest bolt.Wasm.with_backend bolt.Wasm.to_budget bolt.Lnd.Rest.new
    bolt.Core.Client.Builder.build bolt.Core.Client.Builder.http_client_of
made = refl

with_lnd_rest-IsCovered_example :
    IsCovered
      (client_of ascii_std base64 parts)
      5_000
      (run (client_of ascii_std base64 parts) calls (new_session Server.new_state (Cache.new 4)))
    × AllGood
        (client_of ascii_std base64 parts)
        (IsProof crypto)
        (run (client_of ascii_std base64 parts) calls (new_session Server.new_state (Cache.new 4)))
with_lnd_rest-IsCovered_example =
    with_lnd_rest-IsCovered buyer.env (λ agent. ok buyer.env.send) (codes "bolt402") ascii_std
      base64 json crypto (ok node) (codes "https://localhost:8080/") (codes "00") config 10 parts
      Server.new_state (Cache.new 4) calls made (omega arith) (omega arith)

abbrev lib : CLib
lib = record { new_c_string = λ t. ok t; receipts_to_string = λ rs. ok (codes "[]") }

abbrev reader : BodyReader
reader = record { text = λ r. ok r.body; bytes = λ r. ok r.body }

-- The state after a call that failed.
abbrev handle : Ffi (Session MockState CacheInner)
handle = record { last_error = some (codes "null pointer argument"); inner = fresh }

client_get-IsReported_example :
    IsReported fresh (client_get lib reader mock true (some (ok url)) handle)
    × IsReported fresh (client_post lib reader mock true (some (ok url)) none handle)
client_get-IsReported_example =
    client_get-IsReported lib reader mock true (some (ok url)) none handle

-- A client for Python that pays 50 satoshis at most for one request.
abbrev python_parts : ClientParts MockState CacheInner
python_parts = record parts {
  budget = new_budget (some 50) none none none none;
  config = record (default_config (codes "bolt402-python/0.1.0")) { max_fee_sats = 10 };
}

python_made :
    Python.Backends.with_lnd_rest buyer.env
      (λ agent. ok buyer.env.send)
      (codes "bolt402-python/0.1.0")
      json
      crypto
      (ok node)
      (codes "https://localhost:8080/")
      (codes "00")
      (some (new_budget (some 50) none none none none))
      10
    ≡ ok python_parts
unfolding Python.Backends.with_lnd_rest Python.Backends.lnd_new Python.build_client
    bolt.Lnd.Rest.new bolt.Core.Client.Builder.build bolt.Core.Client.Builder.http_client_of
python_made = refl

-- The invoice asks for 100 satoshis.
get-IsRefunded_example :
    IsRefunded fresh
      (Python.get reader (λ r. []) (client_of ascii_std base64 python_parts) url fresh)
    × IsRefunded fresh (
        Python.post reader
          (λ r. [])
          (client_of ascii_std base64 python_parts)
          url
          (some (codes "{}"))
          fresh)
get-IsRefunded_example =
    get-IsRefunded buyer.env (λ agent. ok buyer.env.send) (codes "bolt402-python/0.1.0") reader
      (λ r. []) ascii_std base64 json crypto (ok node) (codes "https://localhost:8080/")
      (codes "00") (some (new_budget (some 50) none none none none)) 10 python_parts url
      (some (codes "{}")) fresh python_made
