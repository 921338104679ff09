-- ===== src/Core/Cache/Runs.antt =====
-- Any sequence of calls on one cache.
use bolt.Core.Cache.Queue
use bolt.Core.Cache.Queue.{Queue, len-put}
use bolt.Core.Cache.Refinement.{Refines, new-Refines, remove-Refines, put-Refines}
use bolt.Core.Cache
use bolt.Core.Cache.{Credential, CacheInner, new, evict, make_room, forget_order, get}
use bolt.HashMap
use bolt.HashMap.Size.{len-remove, IsDistinct}
use bolt.HashMap.{HashMap, len}
use bolt.Prelude.{ℕ, ◌≤◌, ◌≡◌, refl, ◌∙◌, List, [], ◌∷◌, max, arith, subst}
use bolt.Text.Equality.{Text-discrete}
use bolt.Text.{Text}

-- The calls that change the cache.
pub data Call : Type 0 where
  put : Text → Credential → Call
  remove : Text → Call
  clear : Call

unfoldable pub step : CacheInner → Call → CacheInner
step c (Call.put k v) = Cache.put k v c
step c (Call.remove k) = Cache.remove k c
step c Call.clear = Cache.clear c

unfoldable pub run : CacheInner → List Call → CacheInner
run c [] = c
run c (x ∷ calls) = run (step c x) calls

-- The same calls on the queue.
unfoldable pub queue_step : ℕ → Queue → Call → Queue
queue_step capacity q (Call.put k v) = Queue.put capacity k v q
queue_step capacity q (Call.remove k) = HashMap.remove Text-discrete k q
queue_step capacity q Call.clear = []

unfoldable pub queue_run : ℕ → Queue → List Call → Queue
queue_run capacity q [] = q
queue_run capacity q (x ∷ calls) = queue_run capacity (queue_step capacity q x) calls

capacity-evict : (o : List Text) (c : CacheInner) → (evict o c).capacity ≡ c.capacity
unfolding evict
capacity-evict [] c = refl
capacity-evict (x ∷ o) c = refl

capacity-step : (c : CacheInner) (x : Call) → (step c x).capacity ≡ c.capacity
unfolding step Cache.put Cache.remove Cache.clear forget_order make_room
capacity-step c (Call.put k v) = ground (arith, capacity-evict c.insertion_order c)
capacity-step c (Call.remove k) = refl
capacity-step c Call.clear = refl

step-Refines :
    (c : CacheInner) (q : Queue) (x : Call)
    → Refines c q
    → Refines (step c x) (queue_step c.capacity q x)
unfolding step queue_step
step-Refines c q (Call.put k v) r = put-Refines k v r
step-Refines c q (Call.remove k) r = remove-Refines k r
step-Refines c q Call.clear r =
    unfold Cache.clear in
    record { order = refl; same = λ k. refl; size = refl; distinct = tt; queue_distinct = tt }

queue_step_bound :
    (capacity : ℕ) (q : Queue) (x : Call)
    → IsDistinct Text-discrete q
    → len q ≤ max 1 capacity
    → len (queue_step capacity q x) ≤ max 1 capacity
unfolding queue_step
queue_step_bound capacity q (Call.put k v) d h = len-put capacity k v q d h
queue_step_bound capacity q (Call.remove k) d h = ground (arith, len-remove Text-discrete k q d)
queue_step_bound capacity q Call.clear d h = omega arith

-- What a sequence of calls ends in.
pub record Agrees (c : CacheInner) (capacity : ℕ) (q : Queue) : Type 0 where
  pub refines : Refines c q
  pub reads : (k : Text) → get k c ≡ HashMap.get Text-discrete k q
  pub bounded : len c.tokens ≤ max 1 capacity

run-Agrees_from :
    (calls : List Call) (capacity : ℕ) (c : CacheInner) (q : Queue)
    → Refines c q
    → c.capacity ≡ capacity
    → len q ≤ max 1 capacity
    → Agrees (run c calls) capacity (queue_run capacity q calls)
unfolding run queue_run
run-Agrees_from [] capacity c q r e h = record {
  refines = r;
  reads = unfold get in r.same;
  bounded = omega (arith, r.size);
}
run-Agrees_from (x ∷ calls) capacity c q r e h =
    run-Agrees_from calls capacity (step c x) (queue_step capacity q x)
      (subst (λ n. Refines (step c x) (queue_step n q x)) e (step-Refines c q x r))
      (capacity-step c x ∙ e) (queue_step_bound capacity q x r.queue_distinct h)

-- Whatever the calls, a cache that was created with a capacity reads as the queue of that capacity
-- does: the same keys in the same order, the same credential for every key. It holds at most as many
-- entries as its capacity, or one entry where the capacity is 0.
pub run-Agrees :
    (capacity : ℕ) (calls : List Call)
    → Agrees (run (new capacity) calls) capacity (queue_run capacity [] calls)
run-Agrees capacity calls =
    run-Agrees_from calls capacity (new capacity) [] (new-Refines capacity) refl (omega arith)
