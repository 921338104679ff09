-- ===== src/Tests/Examples/Threads.antt =====
-- The theorems on requests that run at the same time, at two requests of one client.
use bolt.Core.Cache
use bolt.Core.Cache.{CacheInner}
use bolt.Core.Client.Flow.{on_store}
use bolt.Core.Client.Spending.{IsCovered}
use bolt.Core.Client.Threads.Covered.{Schedule-IsCovered}
use bolt.Core.Client.Threads.{
  Thread, Schedule, stop, arrive, turn, resume, and_then, request_thread, token_thread,
}
use bolt.Core.Client.{get, post, Session}
use bolt.Mock.Server
use bolt.Mock.{MockState}
use bolt.Prelude.{none, some, List, [], ◌∷◌, arith}
use bolt.Tests.Examples.Client.{mock, some_budget-capped}
use bolt.Tests.Fixtures.{url, fresh}
use bolt.Text.{codes}

-- The first request has looked for its token, and the second has begun.
abbrev looked : Session MockState CacheInner
looked = (on_store mock (mock.token_store.get url) fresh).0

abbrev left : List (Thread MockState CacheInner)
left =
    resume (on_store mock (mock.token_store.get url) fresh).1
      (token_thread mock fresh.world get url none)
    ∷ and_then (on_store mock (mock.token_store.get url))
        (token_thread mock fresh.world post url (some (codes "{}")))
    ∷ []

schedule : Schedule mock looked left fresh []
unfolding request_thread and_then resume
schedule =
    arrive post url (some (codes "{}"))
      (arrive get url none (turn [] _ _ _ (turn (_ ∷ []) [] _ _ (turn [] _ _ _ stop))))

Schedule-IsCovered_example : IsCovered mock 5_000 looked
Schedule-IsCovered_example =
    Schedule-IsCovered mock 5_000 Server.new_state (Cache.new 4) looked left some_budget-capped
      (omega arith) schedule
