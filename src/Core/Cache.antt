-- ===== src/Core/Cache.antt =====
-- crates/bolt402-core/src/cache.rs. Each method holds the lock from its first read to its last
-- write, so it is one step on `CacheInner`. The methods return `Ok` on every path; what they return
-- in it is the result here.
pub mod Refinement
pub mod Runs
pub mod Reads
pub mod Queue
pub mod Store
use bolt.HashMap
use bolt.HashMap.{HashMap}
use bolt.Prelude.{
  ℕ, ◌+◌, Bool, true, false, not, ◌&&◌, Option, none, some, List, [], ◌∷◌, ◌++◌, leb, if◌then◌else◌,
}
use bolt.Text.Equality.{text_eq, Text-discrete}
use bolt.Text.{Text}

-- A macaroon and a preimage.
abbrev pub Credential : Type 0
Credential = Text × Text

pub record CacheInner : Type 0 where
  pub tokens : HashMap Text Credential
  pub insertion_order : List Text
  pub capacity : ℕ

abbrev pub new : ℕ → CacheInner
new capacity = record { tokens = []; insertion_order = []; capacity = capacity }

-- `InMemoryTokenStore::default()`.
abbrev pub default : CacheInner
default = new 1024

-- `retain(|k| k != endpoint)`.
unfoldable pub retain_ne : Text → List Text → List Text
retain_ne k [] = []
retain_ne k (x ∷ xs) = if text_eq x k then retain_ne k xs else x ∷ retain_ne k xs

abbrev pub contains_key : Text → CacheInner → Bool
contains_key k c = HashMap.contains_key Text-discrete k c.tokens

-- Lines 52 to 55: drop the first of the insertion order, if there is one.
unfoldable pub evict : List Text → CacheInner → CacheInner
evict [] c = c
evict (oldest ∷ rest) c = record c {
  tokens = HashMap.remove Text-discrete oldest c.tokens;
  insertion_order = rest;
}

-- Lines 50 to 56.
unfoldable pub make_room : Text → CacheInner → CacheInner
make_room endpoint c =
    if leb c.capacity (HashMap.len c.tokens) && not (contains_key endpoint c)
    then evict c.insertion_order c
    else c

-- Lines 58 to 61.
unfoldable pub forget_order : Text → CacheInner → CacheInner
forget_order endpoint c =
    if contains_key endpoint c
    then record c { insertion_order = retain_ne endpoint c.insertion_order }
    else c

unfoldable pub put : Text → Credential → CacheInner → CacheInner
put endpoint token c =
    let c' = forget_order endpoint (make_room endpoint c) in
    record c' {
      tokens = HashMap.insert Text-discrete endpoint token c'.tokens;
      insertion_order = c'.insertion_order ++ endpoint ∷ [];
    }

unfoldable pub get : Text → CacheInner → Option Credential
get endpoint c = HashMap.get Text-discrete endpoint c.tokens

unfoldable pub remove : Text → CacheInner → CacheInner
remove endpoint c = record c {
  tokens = HashMap.remove Text-discrete endpoint c.tokens;
  insertion_order = retain_ne endpoint c.insertion_order;
}

unfoldable pub clear : CacheInner → CacheInner
clear c = record c { tokens = []; insertion_order = [] }
