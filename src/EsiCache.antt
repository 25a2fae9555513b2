-- ===== src/EsiCache.antt =====
-- esicache/cache.go: the registry of the caches of each path. `NewCacher` is a stub, which returns nil for every URL,
-- and so are the operations `Set` and `Get`. The lock makes each operation one step; the map is an association list.
use caddy_esi.Prelude.{ℕ, List, [], ◌∷◌, ◌++◌, Option, none, some, length}
use caddy_esi.Prelude.Result.{Result, ok, ◌>>=◌, wrap}
use caddy_esi.Prelude.Text.{Bytes}
use caddy_esi.EsiTag.Registry.{lookup, put}

-- A value of the interface Cacher: nil, as there are no implementations.
pub data Cacher : Type 0 where
  nil_cacher : Cacher

-- The error of `NewCacher`, which it never returns, and that of `Register`.
pub data CacheError : Type 0 where
  cacher_failed : CacheError
  register_failed : CacheError → CacheError

abbrev pub Caches : Type 0
Caches = List Cacher

abbrev pub new_cacher : Bytes → Result CacheError Cacher
new_cacher url = ok nil_cacher

-- A path that is not in the map has no caches.
abbrev or_empty : Option Caches → Caches
or_empty none = []
or_empty (some cs) = cs

abbrev pub caches_of : List (Bytes × Caches) → Bytes → Caches
caches_of caches scope = or_empty (lookup caches scope)

unfoldable pub register :
    List (Bytes × Caches) → Bytes → Bytes → Result CacheError (List (Bytes × Caches))
register caches scope url = do
  c ← wrap register_failed (new_cacher url)
  ok (put caches scope (caches_of caches scope ++ c ∷ []))

abbrev pub caches_len : List (Bytes × Caches) → Bytes → ℕ
caches_len caches scope = length (caches_of caches scope)

abbrev pub clear : List (Bytes × Caches) → List (Bytes × Caches)
clear caches = []
