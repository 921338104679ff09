-- ===== src/Proto/Bolt11/Amount.antt =====
-- Satoshis and millisatoshis.
use bolt.Prelude.{ℕ, ◌*◌, ◌≤◌, ◌<◌, ◌≡◌, u64_mod, mul64-exact, arith, ◌↔◌}
use bolt.Proto.Bolt11.{InvoiceAmount, from_satoshis, satoshis, satoshis_floor}

-- `satoshis` is the least whole number of satoshis that covers the amount, and `satoshis_floor` the
-- greatest that the amount covers.
pub satoshis_iff :
    (a : InvoiceAmount) (n : ℕ)
    → ((satoshis a ≤ n) ↔ (a.millisatoshis ≤ n * 1000))
      × ((n ≤ satoshis_floor a) ↔ (n * 1000 ≤ a.millisatoshis))
unfolding satoshis satoshis_floor
satoshis_iff a n = ((λ h. ground arith, λ h. ground arith), (λ h. ground arith, λ h. ground arith))

-- An amount made from satoshis is read back, rounded either way, if it fits in a `u64`.
pub satoshis-from_satoshis :
    (n : ℕ)
    → n * 1000 < u64_mod
    → (satoshis (from_satoshis n) ≡ n) × (satoshis_floor (from_satoshis n) ≡ n)
unfolding satoshis satoshis_floor from_satoshis
satoshis-from_satoshis n h =
    (ground (arith, mul64-exact n 1000 h), ground (arith, mul64-exact n 1000 h))

-- The satoshis of a `u64` of millisatoshis.
abbrev pub max_satoshis : ℕ
max_satoshis = 18_446_744_073_709_552

pub satoshis_bound : (a : InvoiceAmount) → a.millisatoshis < u64_mod → satoshis a ≤ max_satoshis
unfolding satoshis
satoshis_bound a h = ground arith
