-- ===== src/Core/Cache/Refinement.antt =====
-- The cache refines the queue: a hash map and a list of keys stand for one list of entries.
use bolt.Core.Cache.Queue
use bolt.Core.Cache.Queue.{
  Queue, keep, get-keep, keep-IsDistinct, put-IsDistinct, len-put, tail, get-tail-none,
}
use bolt.Core.Cache.{
  Credential, CacheInner, new, retain_ne, contains_key, evict, make_room, forget_order, put, remove,
}
use bolt.HashMap
use bolt.HashMap.Laws.{get-insert, get-remove}
use bolt.HashMap.Size.{
  IsDistinct, insert-IsDistinct, remove-IsDistinct, get-append, len-insert, len-remove,
}
use bolt.HashMap.{HashMap, len}
use bolt.Prelude.{
  ℕ, ◌+◌, ◌≡◌, ◌≢◌, refl, sym, subst, ◌∙◌, true, false, none, some, List, [], ◌∷◌, ◌++◌, leb,
  if◌then◌else◌, arith, length-append, Option-cases, Bool-cases, inl, inr, ite, ap,
}
use bolt.Text.Equality.{Text-discrete, text_eq_iff}
use bolt.Text.{Text}

abbrev pub keys : Queue → List Text
keys [] = []
keys (e ∷ q) = e.0 ∷ keys q

pub record Refines (c : CacheInner) (q : Queue) : Type 0 where
  pub order : c.insertion_order ≡ keys q
  pub same : (k : Text) → HashMap.get Text-discrete k c.tokens ≡ HashMap.get Text-discrete k q
  pub size : len c.tokens ≡ len q
  pub distinct : IsDistinct Text-discrete c.tokens
  pub queue_distinct : IsDistinct Text-discrete q

keys-append : (q : Queue) (k : Text) (v : Credential) → keys (q ++ (k, v) ∷ []) ≡ keys q ++ k ∷ []
keys-append [] k v = refl
keys-append (e ∷ q) k v = ap (◌∷◌ e.0) (keys-append q k v)

keys-remove :
    (k : Text) (q : Queue) → keys (HashMap.remove Text-discrete k q) ≡ retain_ne k (keys q)
unfolding retain_ne HashMap.remove
keys-remove k [] = refl
keys-remove k (e ∷ q) = ground (arith, keys-remove k q, text_eq_iff e.0 k)

pub new-Refines : (capacity : ℕ) → Refines (new capacity) []
new-Refines capacity = record {
  order = refl;
  same = λ k. refl;
  size = refl;
  distinct = tt;
  queue_distinct = tt;
}

-- Removing a key on both sides.
pub remove-Refines :
    (k : Text) {c : CacheInner} {q : Queue}
    → Refines c q
    → Refines (remove k c) (HashMap.remove Text-discrete k q)
unfolding remove
remove-Refines k {c} {q} r = record {
  order = rw r.order (sym (keys-remove k q));
  same = λ j.
      ground
        (arith, get-remove Text-discrete k j c.tokens, get-remove Text-discrete k j q, r.same j);
  size = ground (
    arith,
    r.same k,
    r.size,
    len-remove Text-discrete k c.tokens r.distinct,
    len-remove Text-discrete k q r.queue_distinct,
  );
  distinct = remove-IsDistinct Text-discrete k c.tokens r.distinct;
  queue_distinct = remove-IsDistinct Text-discrete k q r.queue_distinct;
}

-- The cache before the new entry is written, against the entries that the queue keeps.
record Ready (k : Text) (c : CacheInner) (q : Queue) : Type 0 where
  order : c.insertion_order ≡ keys q
  same : (j : Text) → k ≢ j → HashMap.get Text-discrete j c.tokens ≡ HashMap.get Text-discrete j q
  absent : HashMap.get Text-discrete k q ≡ none
  size : (if contains_key k c then len c.tokens else len c.tokens + 1) ≡ len q + 1
  distinct : IsDistinct Text-discrete c.tokens
  queue_distinct : IsDistinct Text-discrete q

ready : Text → CacheInner → CacheInner
ready k c = forget_order k (make_room k c)

ready_hit :
    (k : Text) (c : CacheInner) {v : Credential}
    → HashMap.get Text-discrete k c.tokens ≡ some v
    → ready k c ≡ record c { insertion_order = retain_ne k c.insertion_order }
unfolding ready make_room forget_order
ready_hit k c e = ground arith

keep_hit :
    (capacity : ℕ) (k : Text) (q : Queue) {v : Credential}
    → HashMap.get Text-discrete k q ≡ some v
    → keep capacity k q ≡ HashMap.remove Text-discrete k q
unfolding keep
keep_hit capacity k q e = ground arith

-- The key is there already.
update-Ready :
    (k : Text) {c : CacheInner} {q : Queue} {v : Credential}
    → Refines c q
    → HashMap.get Text-discrete k q ≡ some v
    → Ready k (ready k c) (keep c.capacity k q)
update-Ready k {c} {q} r e =
    rw (ready_hit k c (r.same k ∙ e), keep_hit c.capacity k q e)
      (record {
        order = rw r.order (sym (keys-remove k q));
        same = λ j ne. ground (arith, get-remove Text-discrete k j q, r.same j);
        absent = ground (arith, get-remove Text-discrete k k q);
        size = ground (arith, r.same k, r.size, len-remove Text-discrete k q r.queue_distinct);
        distinct = r.distinct;
        queue_distinct = remove-IsDistinct Text-discrete k q r.queue_distinct;
      })

-- A new key, and room for it.
ready_room :
    (k : Text) (c : CacheInner)
    → HashMap.get Text-discrete k c.tokens ≡ none
    → leb c.capacity (len c.tokens) ≡ false
    → ready k c ≡ c
unfolding ready make_room forget_order
ready_room k c e room = ground arith

keep_room :
    (capacity : ℕ) (k : Text) (q : Queue)
    → HashMap.get Text-discrete k q ≡ none
    → leb capacity (len q) ≡ false
    → keep capacity k q ≡ q
unfolding keep
keep_room capacity k q e room = ground arith

-- A new key in a full cache.
ready_full :
    (k : Text) (c : CacheInner)
    → HashMap.get Text-discrete k c.tokens ≡ none
    → leb c.capacity (len c.tokens) ≡ true
    → ready k c ≡ forget_order k (evict c.insertion_order c)
unfolding ready make_room
ready_full k c e full = ground arith

keep_full :
    (capacity : ℕ) (k : Text) (q : Queue)
    → HashMap.get Text-discrete k q ≡ none
    → leb capacity (len q) ≡ true
    → keep capacity k q ≡ tail q
unfolding keep
keep_full capacity k q e full = ground arith

forget_order_absent :
    (k : Text) (c : CacheInner) → HashMap.get Text-discrete k c.tokens ≡ none → forget_order k c ≡ c
unfolding forget_order
forget_order_absent k c e = ground arith

-- What is left of the cache and of the queue after the oldest entry went.
evict-Refines :
    (c : CacheInner) (q : Queue) → Refines c q → Refines (evict c.insertion_order c) (tail q)
unfolding evict
evict-Refines c [] r = subst (λ o. Refines (evict o c) []) (sym r.order) r
evict-Refines c (e ∷ q) r =
    subst (λ o. Refines (evict o c) q) (sym r.order)
      (record {
        order = refl;
        same = λ j. ground (arith, get-remove Text-discrete e.0 j c.tokens, unfold_get j, r.same j);
        size = ground (
          arith,
          r.same e.0,
          unfold_get e.0,
          r.size,
          len-remove Text-discrete e.0 c.tokens r.distinct,
        );
        distinct = remove-IsDistinct Text-discrete e.0 c.tokens r.distinct;
        queue_distinct = r.queue_distinct.1;
      })
  where
    unfold_get :
        (j : Text)
        → HashMap.get Text-discrete j (e ∷ q)
          ≡ ite (Text-discrete e.0 j) (some e.1) (HashMap.get Text-discrete j q)
    unfold_get j = unfold HashMap.get in refl

absent-Ready :
    (k : Text) {c : CacheInner} {q : Queue}
    → Refines c q
    → HashMap.get Text-discrete k q ≡ none
    → Ready k c q
absent-Ready k {c} {q} r e = record {
  order = r.order;
  same = λ j ne. r.same j;
  absent = e;
  size = ground (arith, r.same k, r.size);
  distinct = r.distinct;
  queue_distinct = r.queue_distinct;
}

ready-Ready :
    (k : Text) (c : CacheInner) (q : Queue)
    → Refines c q
    → Ready k (ready k c) (keep c.capacity k q)
ready-Ready k c q r = elim (Option-cases (HashMap.get Text-discrete k q)) [
  | inr (v, e) ↦ update-Ready k r e
  | inl e ↦ elim (Bool-cases (leb c.capacity (len q))) [
    | inl full ↦
        let r' = evict-Refines c q r in
        let gone = get-tail-none k q e in
        rw
          (
            ready_full k c (r.same k ∙ e) (ap (leb c.capacity) r.size ∙ full),
            keep_full c.capacity k q e full,
            forget_order_absent k (evict c.insertion_order c) (r'.same k ∙ gone),
          )
          (absent-Ready k r' gone)
    | inr room ↦
        rw
          (
            ready_room k c (r.same k ∙ e) (ap (leb c.capacity) r.size ∙ room),
            keep_room c.capacity k q e room,
          )
          (absent-Ready k r e)
  ]
]

put_lem :
    (k : Text) (v : Credential) (c : CacheInner)
    → put k v c ≡ record (ready k c) {
      tokens = HashMap.insert Text-discrete k v (ready k c).tokens;
      insertion_order = (ready k c).insertion_order ++ k ∷ [];
    }
unfolding put ready
put_lem k v c = refl

pub put-Refines :
    (k : Text) (v : Credential) {c : CacheInner} {q : Queue}
    → Refines c q
    → Refines (put k v c) (Queue.put c.capacity k v q)
unfolding Queue.put
put-Refines k v {c} {q} r =
    let c' = ready k c in
    let q' = keep c.capacity k q in
    let y = ready-Ready k c q r in
    rw (put_lem k v c) (record {
      order = rw (keys-append q' k v, y.order);
      same = λ j. ground (
        arith,
        get-insert Text-discrete k j v c'.tokens,
        get-append Text-discrete j q' ((k, v) ∷ []),
        one j,
        y.same j,
        y.absent,
      );
      size = len-insert Text-discrete k v c'.tokens ∙ y.size ∙ sym (length-append q' ((k, v) ∷ []));
      distinct = insert-IsDistinct Text-discrete k v c'.tokens y.distinct;
      queue_distinct = put-IsDistinct c.capacity k v q r.queue_distinct;
    })
  where
    one :
        (j : Text)
        → HashMap.get Text-discrete j ((k, v) ∷ []) ≡ ite (Text-discrete k j) (some v) none
    one j = unfold HashMap.get in refl
