-- ===== src/Core/Cache/Store.antt =====
-- `InMemoryTokenStore` as the client's token store.
use bolt.Core.Cache
use bolt.Core.Cache.{CacheInner}
use bolt.Prelude.{ok}
use bolt.Proto.Port.{TokenStore}

-- `impl TokenStore for InMemoryTokenStore`: every method returns `Ok`.
abbrev pub memory_store : TokenStore CacheInner
memory_store = record {
  put = λ k m p c. (Cache.put k (m, p) c, ok tt);
  get = λ k c. (c, ok (Cache.get k c));
  remove = λ k c. (Cache.remove k c, ok tt);
  clear = λ c. (Cache.clear c, ok tt);
}
