-- ===== src/Tests/Runs.antt =====
-- Runs on the inputs of the repository's unit tests.
use bolt.Core.Cache
use bolt.Mock.Challenge.{invoice_for}
use bolt.Prelude.{◌≡◌, refl, none, [], ◌∷◌}
use bolt.Proto.Bolt11.{satoshis, satoshis_floor}
use bolt.Proto.Challenge.{parse_params}
use bolt.Text.Decimal.{parse_u64, print_u64}
use bolt.Text.{Text, codes}

-- `subsatoshi_ceil_rounding`.
subsatoshi :
    (satoshis (record { millisatoshis = 1_500 }) ≡ 2)
    × (satoshis_floor (record { millisatoshis = 1_500 }) ≡ 1)
unfolding satoshis satoshis_floor
subsatoshi = (refl, refl)

-- A number that does not fit in a `u64` is refused.
too_large : parse_u64 (codes "18446744073709551616") ≡ none
unfolding parse_u64 bolt.Text.Decimal.parse_digits bolt.Text.Decimal.push_digit
too_large = refl

printed : print_u64 1_024 ≡ codes "1024"
unfolding print_u64 bolt.Text.Decimal.print_digits
printed = refl

-- The invoices of the mock server for 100 and for 150 satoshis.
hundred : invoice_for 100 (codes "aabb") ≡ codes "lnbc1u1mockaabb"
unfolding invoice_for print_u64 bolt.Text.Decimal.print_digits
hundred = refl

-- `eviction_at_capacity`: with room for two, the third key drops the first.
evicted :
    (Cache.get (codes "a") (
      Cache.put
        (codes "c")
        (codes "m3", codes "p3")
        (Cache.put
          (codes "b")
          (codes "m2", codes "p2")
          (Cache.put (codes "a") (codes "m1", codes "p1") (Cache.new 2)))))
    ≡ none
unfolding Cache.get Cache.put Cache.make_room Cache.evict Cache.forget_order Cache.retain_ne
    bolt.HashMap.get bolt.HashMap.insert bolt.HashMap.remove bolt.Text.Equality.Text-discrete
    bolt.Text.Equality.decide_text bolt.Text.Equality.text_eq
evicted = refl

-- A quoted comma does not separate.
split : parse_params (codes "a=\"x,y\", b=\"z\"") ≡ codes "a=\"x,y\"" ∷ codes "b=\"z\"" ∷ []
unfolding bolt.Proto.Challenge.scan_params bolt.Proto.Challenge.push_trimmed bolt.Text.trim_by
    bolt.Text.trim_end_by bolt.Text.trim_start_by bolt.Text.is_whitespace
split = refl
