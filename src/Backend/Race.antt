-- ===== src/Backend/Race.antt =====
-- esitag/backend/redis.go and memcache.go: `doRequestCancel`. A goroutine asks the store and sends what it gets on
-- one of two channels without a buffer, while the handler waits for it or for the end of the context. The steps of
-- the two are a relation.
pub mod Ends
use caddy_esi.Prelude.{◌≡◌, ◌≢◌, ◌⊎◌, inl, inr, refl, sym, ap, ◌∙◌, Bool, true, false, none, some}
use caddy_esi.Prelude.Result.{err}
use caddy_esi.Prelude.Text.{Bytes}
use caddy_esi.EsiTag.Args.{ResourceArgs, Missing, validate_with_key}
use caddy_esi.Backend.{args_invalid, context_done, Answer}
use caddy_esi.Backend.Keyed.{StoreReply, from_store, do_request, if_valid}

-- The goroutine asks, offers its answer, or has ended.
pub data Worker : Type 0 where
  asking : Worker
  offering : Answer → Worker
  ended : Worker

-- The handler: `select`, or what it returned.
pub data Waiter : Type 0 where
  selecting : Waiter
  returned : Answer → Waiter

pub record Race : Type 0 where
  pub worker : Worker
  pub waiter : Waiter
  pub is_done : Bool

module _ (get : Bytes → StoreReply) (args : ResourceArgs) where
  -- What the store gives, as one of the two channels carries it.
  abbrev pub asked : Answer
  asked = from_store args (get args.tag.key)

  pub data Turn : Race → Race → Type 0 where
    asks :
        (m : Waiter) (over : Bool)
        → Turn
            (record { worker = asking; waiter = m; is_done = over })
            (record { worker = offering asked; waiter = m; is_done = over })
    receives :
        (a : Answer) (over : Bool)
        → Turn
            (record { worker = offering a; waiter = selecting; is_done = over })
            (record { worker = ended; waiter = returned a; is_done = over })
    gives_up :
        (k : Worker)
        → Turn
            (record { worker = k; waiter = selecting; is_done = true })
            (record { worker = k; waiter = returned (err context_done); is_done = true })
    runs_out :
        (k : Worker) (m : Waiter)
        → Turn
            (record { worker = k; waiter = m; is_done = false })
            (record { worker = k; waiter = m; is_done = true })

  pub data Turns (r : Race) : Race → Type 0 where
    none_yet : Turns r r
    then_turn : {s t : Race} → Turns r s → Turn s t → Turns r t

-- The goroutine is started; the context may be done from the beginning.
abbrev pub race : Bool → Race
race over = record { worker = asking; waiter = selecting; is_done = over }

-- `doRequestCancel` returns an answer.
pub data Cancellable (get : Bytes → StoreReply) (args : ResourceArgs) : Answer → Type 0 where
  refused :
      (e : Missing) → validate_with_key args ≡ some e → Cancellable get args (err (args_invalid e))
  races :
      (over : Bool) {r : Race}
      → validate_with_key args ≡ none
      → Turns get args (race over) r
      → (a : Answer) → r.waiter ≡ returned a
      → Cancellable get args a

-- `DoRequest` of a store: it returns an answer.
pub data StoreReturns (is_cancellable : Bool) (get : Bytes → StoreReply) (args : ResourceArgs)
    : Answer → Type 0 where
  directly : is_cancellable ≡ false → StoreReturns is_cancellable get args (do_request get args)
  cancellably :
      is_cancellable ≡ true
      → {a : Answer} → Cancellable get args a
      → StoreReturns is_cancellable get args a
