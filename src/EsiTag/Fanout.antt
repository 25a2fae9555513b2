-- ===== src/EsiTag/Fanout.antt =====
-- esitag/esi_tag.go, `Entities.QueryResources`: a goroutine for each tag asks the resources of the tag and
-- sends what is put in its place on a channel without a buffer. The goroutines are the steps of a relation,
-- in any order; the receiver takes each tag, as the loops of middleware.go and response_proxy_inject.go do.
-- The errors of `Entity.QueryResources` are all Temporary, so that a goroutine fails only when the context
-- of the request is done. The clock and the texts of errors are inputs.
pub mod Runs
pub mod Ends
pub mod Page
use caddy_esi.Prelude.{
  ℕ, Bool, true, false, List, [], ◌∷◌, ◌++◌, Option, none, some, map, if◌then◌else◌, ltb, length,
  take,
}
use caddy_esi.Prelude.Text.{Bytes, codes}
use caddy_esi.EsiTag.DataTags.{DataTag}
use caddy_esi.EsiTag.Query.{Resource, Moment, query_resources}
use caddy_esi.EsiTag.Entity.{Entity}

-- The tag of a goroutine: the entity with its resources, and what the surroundings do meanwhile.
pub record Task (Handler : Type 0) : Type 0 where
  pub entity : Entity Handler
  pub asked : List Resource
  pub moments : ℕ → Moment
  pub duration : Bytes
  pub error_text : Bytes
  -- The memory behind the end of `OnError`, up to the capacity of the slice, as it is when the tag is written into
  -- the page. The slice is shared: other goroutines append to it too.
  pub room : Bytes

module _ {Handler : Type 0} (replace : Bytes → Bytes) where
  abbrev pub content_of : Task Handler → Option Bytes
  content_of t = (query_resources replace t.moments t.entity.config.key t.asked).content

  -- `t.Data = data`, or `e.OnError` behind a Temporary error.
  abbrev or_on_error : Task Handler → Option Bytes → Bytes
  or_on_error t (some d) = d
  or_on_error t none = t.entity.on_error

  -- `err.Error()`, where `nilErr` stands for no error.
  abbrev shown_error : Task Handler → Option Bytes → Bytes
  shown_error t (some d) = codes "none"
  shown_error t none = t.error_text

  abbrev debug_comment : Task Handler → Bytes
  debug_comment t =
      codes "\n<!-- Duration:"
      ++ (t.duration
          ++ (codes " Error:"
              ++ (shown_error t (content_of t)
                  ++ (codes " Tag:" ++ (t.entity.raw_tag ++ codes " -->\n")))))

  -- `append(t.Data, …)`: behind `OnError` the comment goes into the room of the slice if it fits, and then whatever
  -- stands there is shown. What a backend returned has its own memory.
  abbrev appended : Task Handler → Option Bytes → Bytes
  appended t (some d) = d ++ debug_comment t
  appended t none =
      let n = length (debug_comment t) in
      t.entity.on_error ++ (if ltb (length t.room) n then debug_comment t else take n t.room)

  -- The tag that the goroutine sends.
  unfoldable pub tag_for : Task Handler → DataTag
  tag_for t = record t.entity.data_tag {
    bytes =
        if t.entity.config.print_debug
        then appended t (content_of t)
        else or_on_error t (content_of t);
  }

-- `cTag <- t` or `ctx.Done()`.
pub data Phase : Type 0 where
  querying sending returned gave_up : Phase

abbrev pub Goroutines : Type 0 → Type 0
Goroutines Handler = List (Task Handler × Phase)

pub record Group (Handler : Type 0) : Type 0 where
  pub goroutines : Goroutines Handler
  pub received : List DataTag
  pub is_done : Bool

abbrev start_all : {Handler : Type 0} → List (Task Handler) → Goroutines Handler
start_all [] = []
start_all (t ∷ ts) = (t, querying) ∷ start_all ts

-- The loop that starts the goroutines.
abbrev pub start : {Handler : Type 0} → List (Task Handler) → Group Handler
start ts = record { goroutines = start_all ts; received = []; is_done = false }

module _ {Handler : Type 0} (replace : Bytes → Bytes) where
  -- A step of one goroutine, or the end of the context of the request.
  pub data Step : Group Handler → Group Handler → Type 0 where
    answers :
        (before after : Goroutines Handler) (t : Task Handler) (got : List DataTag) (over : Bool)
        → Step
            (record {
              goroutines = before ++ (t, querying) ∷ after;
              received = got;
              is_done = over;
            })
            (record { goroutines = before ++ (t, sending) ∷ after; received = got; is_done = over })
    sends :
        (before after : Goroutines Handler) (t : Task Handler) (got : List DataTag) (over : Bool)
        → Step
            (record { goroutines = before ++ (t, sending) ∷ after; received = got; is_done = over })
            (record {
              goroutines = before ++ (t, returned) ∷ after;
              received = got ++ tag_for replace t ∷ [];
              is_done = over;
            })
    gives_up :
        (before after : Goroutines Handler) (t : Task Handler) (got : List DataTag)
        → Step
            (record { goroutines = before ++ (t, sending) ∷ after; received = got; is_done = true })
            (record { goroutines = before ++ (t, gave_up) ∷ after; received = got; is_done = true })
    cancels :
        (gs : Goroutines Handler) (got : List DataTag)
        → Step
            (record { goroutines = gs; received = got; is_done = false })
            (record { goroutines = gs; received = got; is_done = true })

  pub data Reach (g : Group Handler) : Group Handler → Type 0 where
    here : Reach g g
    next : {h k : Group Handler} → Reach g h → Step h k → Reach g k

-- `g.Wait()` returns.
abbrev pub AllEnd : {Handler : Type 0} → Goroutines Handler → Type 0
AllEnd [] = Unit
AllEnd ((t, querying) ∷ gs) = ⊥
AllEnd ((t, sending) ∷ gs) = ⊥
AllEnd ((t, _) ∷ gs) = AllEnd gs

-- Whether the error of `g.Wait()` is nil.
abbrev pub wait_ok : {Handler : Type 0} → Goroutines Handler → Bool
wait_ok [] = true
wait_ok ((t, gave_up) ∷ gs) = false
wait_ok ((t, _) ∷ gs) = wait_ok gs
