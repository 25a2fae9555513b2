-- ===== src/Middleware/Cached.antt =====
-- `ServeHTTP` (middleware.go) for a page whose tags are cached: the goroutines that ask the resources, and the
-- next handler, which writes to an `injectingWriter`. The tags to be coalesced are queried by the first of
-- several requests for them, and its result is shared (golang.org/x/sync/singleflight, a library: `Duplicate` is
-- what it documents). `Flight` stands for what a call of another request may return.
pub mod Runs
pub mod Answers
pub mod Arrived
pub mod Writes
pub mod Heads
pub mod Serves
mod Tests
use caddy_esi.Prelude.{ℕ, ◌≡◌, Bool, true, false, List, [], ◌∷◌, ◌++◌, if◌then◌else◌}
use caddy_esi.Prelude.Text.{Bytes}
use caddy_esi.Http.{header_put}
use caddy_esi.EsiTag.DataTags.{DataTag}
use caddy_esi.EsiTag.Entity.{Entity}
use caddy_esi.EsiTag.Entity.Coalesce.{split_coalesce, has_coalesce, unique_id}
use caddy_esi.EsiTag.Fanout.{Task, Group, start, Step, Reach, AllEnd}
use caddy_esi.Response.{ResponseWriter, Decimals}
use caddy_esi.Response.Injecting.{InjectingWriter, response_wrap_injector}
use caddy_esi.Response.Injecting as Injecting
use caddy_esi.Middleware.Spots.{entities_asked}
use caddy_esi.Middleware.{Action, put_header, send_code, send, Next, Reply}

-- The goroutine of the tags to be coalesced: there is none; it is about to call `coalesce.Do`; the function that
-- it passes runs; it sends what that has collected; or it sends what another request has collected.
pub data Shared (Handler : Type 0) : Type 0 where
  no_part : Shared Handler
  calling : List (Task Handler) → Shared Handler
  asking : Group Handler → Shared Handler
  passing : Group Handler → List DataTag → Shared Handler
  joined : List DataTag → Shared Handler

-- `taken` is what the `injectingWriter` has received from `chanTag`.
pub record Queries (Handler : Type 0) : Type 0 where
  pub shared : Shared Handler
  pub direct : Group Handler
  pub taken : List DataTag

-- `if entities.HasCoalesce()`, for the tasks of the two slices.
abbrev pub shared_of : {Handler : Type 0} → Bool → List (Task Handler) → Shared Handler
shared_of has coalesced = if has then calling coalesced else no_part

abbrev pub begin_queries :
    {Handler : Type 0} → Bool → List (Task Handler) → List (Task Handler) → Queries Handler
begin_queries has coalesced others = record {
  shared = shared_of has coalesced;
  direct = start others;
  taken = [];
}

-- The hash of `UniqueID`.
pub record Hash : Type 1 where
  pub State : Type 0
  pub write : State → Bytes → State
  pub new : State
  pub sum64 : State → ℕ

abbrev pub coalesce_id : {Handler : Type 0} → Hash → List (Entity Handler) → ℕ
coalesce_id h es = unique_id h.State h.write h.new h.sum64 es

-- What singleflight documents of a call that waits: it gets what the call in flight for the same key has returned.
-- `Call` are the calls of the other requests: their placeholders, the tasks of their tags, and their goroutines when
-- the channel of the tags is closed.
pub record Duplicate {Handler : Type 0} (hash : Hash)
    (Call : (Bytes → Bytes) → List (Task Handler) → Group Handler → Type 0)
    (coalesced : List (Task Handler)) (tags : List DataTag) : Type 0 where
  pub other : Bytes → Bytes
  pub tasks : List (Task Handler)
  pub group : Group Handler
  pub called : Call other tasks group
  pub same_key :
      coalesce_id hash (entities_asked tasks) ≡ coalesce_id hash (entities_asked coalesced)
  pub run : Reach other (start tasks) group
  pub returned_all : AllEnd group.goroutines
  pub tags_eq : tags ≡ group.received

module _ {Handler : Type 0} (replace : Bytes → Bytes) (Flight : List DataTag → Type 0) where
  pub data Move : Queries Handler → Queries Handler → Type 0 where
    -- `entities.QueryResources(chanTag, r)`.
    queries :
        (sh : Shared Handler) (taken news : List DataTag) {g h : Group Handler}
        → Step replace g h
        → h.received ≡ g.received ++ news
        → Move
            (record { shared = sh; direct = g; taken = taken })
            (record { shared = sh; direct = h; taken = taken ++ news })
    calls :
        (ts : List (Task Handler)) (g : Group Handler) (taken : List DataTag)
        → Move
            (record { shared = calling ts; direct = g; taken = taken })
            (record { shared = asking (start ts); direct = g; taken = taken })
    joins :
        (ts : List (Task Handler)) (g : Group Handler) (taken tags : List DataTag)
        → Flight tags
        → Move
            (record { shared = calling ts; direct = g; taken = taken })
            (record { shared = joined tags; direct = g; taken = taken })
    -- `coaEnt.QueryResources(coaChanTag, r)`.
    coalesces :
        {c c' : Group Handler} (g : Group Handler) (taken : List DataTag)
        → Step replace c c'
        → Move
            (record { shared = asking c; direct = g; taken = taken })
            (record { shared = asking c'; direct = g; taken = taken })
    collects :
        (c g : Group Handler) (taken : List DataTag)
        → AllEnd c.goroutines
        → Move
            (record { shared = asking c; direct = g; taken = taken })
            (record { shared = passing c c.received; direct = g; taken = taken })
    -- `chanTag <- tag`.
    passes :
        (c g : Group Handler) (t : DataTag) (rest taken : List DataTag)
        → Move
            (record { shared = passing c (t ∷ rest); direct = g; taken = taken })
            (record { shared = passing c rest; direct = g; taken = taken ++ t ∷ [] })
    passes_joined :
        (g : Group Handler) (t : DataTag) (rest taken : List DataTag)
        → Move
            (record { shared = joined (t ∷ rest); direct = g; taken = taken })
            (record { shared = joined rest; direct = g; taken = taken ++ t ∷ [] })

  pub data Moves (q : Queries Handler) : Queries Handler → Type 0 where
    at_start : Moves q q
    and_then : {r s : Queries Handler} → Moves q r → Move r s → Moves q s

-- `wg.Wait()`.
abbrev pub Waited : {Handler : Type 0} → Shared Handler → Type 0
Waited no_part = Unit
Waited (calling ts) = ⊥
Waited (asking g) = ⊥
Waited (passing g []) = Unit
Waited (passing g (t ∷ rest)) = ⊥
Waited (joined []) = Unit
Waited (joined (t ∷ rest)) = ⊥

-- The channel is closed.
abbrev pub Closed : {Handler : Type 0} → Queries Handler → Type 0
Closed q = AllEnd q.direct.goroutines × Waited q.shared

module _ (sort : List DataTag → List DataTag) (w : ResponseWriter) (d : Decimals)
    (detect : Bytes → Bytes) where
  -- A call of the next handler at the `injectingWriter`.
  abbrev pub act_injecting : Action → InjectingWriter w.State → InjectingWriter w.State
  act_injecting (put_header k vs) b = record b { header = header_put b.header k vs }
  act_injecting (send_code code) b = Injecting.write_header sort w d detect b code
  act_injecting (send p) b = (Injecting.write sort w d detect b p).writer

  unfoldable pub act_each : List Action → InjectingWriter w.State → InjectingWriter w.State
  act_each [] b = b
  act_each (a ∷ more) b = act_each more (act_injecting a b)

  -- `mw.Next.ServeHTTP(responseWrapInjector(chanTag, w), r)`.
  unfoldable pub serve_cached : List DataTag → Next → w.State → Reply w.State
  serve_cached tags next client =
      let b = act_each next.actions (response_wrap_injector tags client) in
      record { client = b.rw; code = next.code; failed = next.failed }
