-- ===== src/Core/Cache/Reads.antt =====
-- What `get` returns after each method.
use bolt.Core.Cache.{
  Credential, CacheInner, contains_key, evict, make_room, forget_order, put, get, remove, clear,
}
use bolt.HashMap
use bolt.HashMap.Laws.{get-insert, get-remove}
use bolt.HashMap.{HashMap, len}
use bolt.Prelude.{
  ◌≡◌, refl, Bool, true, false, not, ◌&&◌, Option, none, some, List, [], ◌∷◌, leb, if◌then◌else◌,
  arith, ite,
}
use bolt.Text.Equality.{Text-discrete}
use bolt.Text.{Text}

-- The key that goes when `endpoint` is put: the first of the insertion order, if the cache is full
-- and the endpoint is new.
abbrev pub first? : List Text → Option Text
first? [] = none
first? (x ∷ xs) = some x

unfoldable pub victim : Text → CacheInner → Option Text
victim endpoint c =
    if leb c.capacity (len c.tokens) && not (contains_key endpoint c)
    then first? c.insertion_order
    else none

abbrev pub drops : Option Text → Text → Bool
drops none j = false
drops (some x) j = ite (Text-discrete x j) true false

get-evict :
    (o : List Text) (c : CacheInner) (j : Text)
    → HashMap.get Text-discrete j (evict o c).tokens
      ≡ (if drops (first? o) j then none else HashMap.get Text-discrete j c.tokens)
unfolding evict
get-evict [] c j = refl
get-evict (x ∷ o) c j = ground (arith, get-remove Text-discrete x j c.tokens)

get-make_room :
    (k : Text) (c : CacheInner) (j : Text)
    → HashMap.get Text-discrete j (make_room k c).tokens
      ≡ (if drops (victim k c) j then none else HashMap.get Text-discrete j c.tokens)
unfolding make_room victim
get-make_room k c j = ground (arith, get-evict c.insertion_order c j)

tokens-forget_order : (k : Text) (c : CacheInner) → (forget_order k c).tokens ≡ c.tokens
unfolding forget_order
tokens-forget_order k c = ground arith

-- After `put`, the endpoint reads as the new credential, the evicted key, if there is one, reads as
-- nothing, and every other key reads as before.
pub get-put :
    (k j : Text) (v : Credential) (c : CacheInner)
    → get j (put k v c)
      ≡ ite (Text-discrete k j) (some v) (if drops (victim k c) j then none else get j c)
unfolding get put
get-put k j v c = rw (get-insert, tokens-forget_order, get-make_room)

-- After `remove`, the endpoint reads as nothing, and every other key as before.
pub get-remove_lem :
    (k j : Text) (c : CacheInner) → get j (remove k c) ≡ ite (Text-discrete k j) none (get j c)
unfolding get remove
get-remove_lem k j c = get-remove Text-discrete k j c.tokens

pub get-clear : (j : Text) (c : CacheInner) → get j (clear c) ≡ none
unfolding get clear HashMap.get
get-clear j c = refl
