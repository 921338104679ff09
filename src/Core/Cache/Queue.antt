-- ===== src/Core/Cache/Queue.antt =====
-- What the token cache promises: a queue of entries, the oldest first, with no key twice. A new key
-- in a full queue drops the oldest entry; a key that is there already goes to the back.
use bolt.Core.Cache.{Credential}
use bolt.HashMap
use bolt.HashMap.Laws.{get-remove}
use bolt.HashMap.Size.{IsDistinct, remove-IsDistinct, append-IsDistinct, len-remove}
use bolt.HashMap.{HashMap, len}
use bolt.Prelude.{
  ℕ, ◌+◌, ◌≤◌, ◌≡◌, none, [], ◌∷◌, ◌++◌, leb, max, if◌then◌else◌, arith, length-append, ◌⊎◌, inl,
  inr,
}
use bolt.Text.Equality.{Text-discrete}
use bolt.Text.{Text}

abbrev pub Queue : Type 0
Queue = HashMap Text Credential

abbrev pub tail : Queue → Queue
tail [] = []
tail (e ∷ q) = q

-- What is kept before the new entry goes to the back.
unfoldable pub keep : ℕ → Text → Queue → Queue
keep capacity k q =
    if HashMap.contains_key Text-discrete k q
    then HashMap.remove Text-discrete k q
    else if leb capacity (len q)
    then tail q
    else q

unfoldable pub put : ℕ → Text → Credential → Queue → Queue
put capacity k v q = keep capacity k q ++ (k, v) ∷ []

tail-IsDistinct : (q : Queue) → IsDistinct Text-discrete q → IsDistinct Text-discrete (tail q)
tail-IsDistinct [] d = tt
tail-IsDistinct (e ∷ q) d = d.1

pub get-tail-none :
    (k : Text) (q : Queue)
    → HashMap.get Text-discrete k q ≡ none
    → HashMap.get Text-discrete k (tail q) ≡ none
unfolding HashMap.get
get-tail-none k [] h = h
get-tail-none k (e ∷ q) h = ground arith

pub get-keep :
    (capacity : ℕ) (k : Text) (q : Queue) → HashMap.get Text-discrete k (keep capacity k q) ≡ none
unfolding keep
get-keep capacity k q = ground (arith, get-remove Text-discrete k k q, get-tail-none k q)

-- The three things that happen to the old entries.
pub keep_cases :
    (capacity : ℕ) (k : Text) (q : Queue)
    → (keep capacity k q ≡ HashMap.remove Text-discrete k q)
      ⊎ ((HashMap.get Text-discrete k q ≡ none) × (keep capacity k q ≡ tail q))
      ⊎ (keep capacity k q ≡ q)
unfolding keep
keep_cases capacity k q = ground arith

pub keep-IsDistinct :
    (capacity : ℕ) (k : Text) (q : Queue)
    → IsDistinct Text-discrete q
    → IsDistinct Text-discrete (keep capacity k q)
keep-IsDistinct capacity k q d = elim (keep_cases capacity k q) [
  | inl e ↦ rw e (remove-IsDistinct Text-discrete k q d)
  | inr (inl (n, e)) ↦ rw e (tail-IsDistinct q d)
  | inr (inr e) ↦ rw e d
]

pub put-IsDistinct :
    (capacity : ℕ) (k : Text) (v : Credential) (q : Queue)
    → IsDistinct Text-discrete q
    → IsDistinct Text-discrete (put capacity k v q)
unfolding put
put-IsDistinct capacity k v q d =
    append-IsDistinct Text-discrete (keep capacity k q) k v (keep-IsDistinct capacity k q d)
      (get-keep capacity k q)

len-tail : (q : Queue) → len (tail q) + 1 ≤ max 1 (len q)
len-tail [] = omega arith
len-tail (e ∷ q) = omega arith

-- The queue never grows beyond its capacity, or one entry where the capacity is 0.
pub len-put :
    (capacity : ℕ) (k : Text) (v : Credential) (q : Queue)
    → IsDistinct Text-discrete q
    → len q ≤ max 1 capacity
    → len (put capacity k v q) ≤ max 1 capacity
unfolding put keep
len-put capacity k v q d h =
    rw length-append (ground (arith, len-remove Text-discrete k q d, len-tail q))
