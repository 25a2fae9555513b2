-- ===== src/Backend/Race/Ends.antt =====
-- The ends of the race of `doRequestCancel`.
use caddy_esi.Prelude.{◌≡◌, ◌≢◌, ◌⊎◌, inl, inr, refl, sym, ap, ◌∙◌, Bool, true, false, none}
use caddy_esi.Prelude.Result.{err}
use caddy_esi.Prelude.Text.{Bytes}
use caddy_esi.EsiTag.Args.{ResourceArgs, validate_with_key}
use caddy_esi.Backend.{context_done, Answer}
use caddy_esi.Backend.Keyed.{StoreReply, do_request, if_valid}
use caddy_esi.Backend.Race.{
  Worker, asking, offering, ended, Waiter, selecting, returned, Race, asked, Turn, asks, receives,
  gives_up, runs_out, Turns, none_yet, then_turn, race, Cancellable, refused, races,
}

module _ (get : Bytes → StoreReply) (args : ResourceArgs) where
  abbrev WorkerHas : Worker → Type 0
  WorkerHas asking = Unit
  WorkerHas (offering a) = a ≡ asked get args
  WorkerHas ended = Unit

  -- The handler has the answer of the goroutine, which has ended, or it has given up on it.
  abbrev WaiterHas : Worker → Waiter → Bool → Type 0
  WaiterHas k selecting over = Unit
  WaiterHas k (returned a) over =
      ((a ≡ asked get args) × (k ≡ ended)) ⊎ ((a ≡ err context_done) × (over ≡ true) × (k ≢ ended))

  record Keeps (r : Race) : Type 0 where
    worker_has : WorkerHas r.worker
    waiter_has : WaiterHas r.worker r.waiter r.is_done
    still_there : r.waiter ≡ selecting → r.worker ≢ ended

  WaiterHas-asks :
      (m : Waiter) (over : Bool)
      → WaiterHas asking m over
      → WaiterHas (offering (asked get args)) m over
  WaiterHas-asks selecting over h = tt
  WaiterHas-asks (returned a) over (inl (e, k)) = absurd (cc)
  WaiterHas-asks (returned a) over (inr (e, o, k)) = inr (e, o, λ x. cc)

  WaiterHas-over : (k : Worker) (m : Waiter) → WaiterHas k m false → WaiterHas k m true
  WaiterHas-over k selecting h = tt
  WaiterHas-over k (returned a) (inl e) = inl e
  WaiterHas-over k (returned a) (inr (e, o, n)) = inr (e, refl, n)

  Turn-Keeps : {r s : Race} → Turn get args r s → Keeps r → Keeps s
  Turn-Keeps (asks m over) k = record {
    worker_has = refl;
    waiter_has = WaiterHas-asks m over k.waiter_has;
    still_there = λ e x. cc;
  }
  Turn-Keeps (receives a over) k = record {
    worker_has = tt;
    waiter_has = inl (k.worker_has, refl);
    still_there = λ e. absurd (cc);
  }
  Turn-Keeps (gives_up w) k = record {
    worker_has = k.worker_has;
    waiter_has = inr (refl, refl, k.still_there refl);
    still_there = λ e. absurd (cc);
  }
  Turn-Keeps (runs_out w m) k = record {
    worker_has = k.worker_has;
    waiter_has = WaiterHas-over w m k.waiter_has;
    still_there = k.still_there;
  }

  Turns-Keeps : (over : Bool) {r : Race} → Turns get args (race over) r → Keeps r
  Turns-Keeps over none_yet = record { worker_has = tt; waiter_has = tt; still_there = λ e x. cc }
  Turns-Keeps over (then_turn rs t) = Turn-Keeps t (Turns-Keeps over rs)

  -- A goroutine that nobody waits for does not end.
  record Stuck (a : Answer) (r : Race) : Type 0 where
    waiter_same : r.waiter ≡ returned a
    not_ended : r.worker ≢ ended

  Turn-Stuck : (a : Answer) {r s : Race} → Turn get args r s → Stuck a r → Stuck a s
  Turn-Stuck a (asks m over) h = record { waiter_same = h.waiter_same; not_ended = λ x. cc }
  Turn-Stuck a (receives b over) h = absurd (let e = h.waiter_same in cc)
  Turn-Stuck a (gives_up k) h = absurd (let e = h.waiter_same in cc)
  Turn-Stuck a (runs_out k m) h = record { waiter_same = h.waiter_same; not_ended = h.not_ended }

  Turns-Stuck : (a : Answer) {r s : Race} → Turns get args r s → Stuck a r → Stuck a s
  Turns-Stuck a none_yet h = h
  Turns-Stuck a (then_turn rs t) h = Turn-Stuck a t (Turns-Stuck a rs h)

  -- How `doRequestCancel` ends, with the answer `a` in the state `r`.
  pub data Ends (a : Answer) (r : Race) : Type 0 where
    answered : a ≡ do_request get args → r.worker ≡ ended → Ends a r
    abandoned :
        a ≡ err context_done
        → r.is_done ≡ true
        → ((s : Race) → Turns get args r s → s.worker ≢ ended)
        → Ends a r

  returned-Ends :
      (m : Waiter) (r : Race) (a : Answer)
      → validate_with_key args ≡ none
      → r.waiter ≡ m
      → m ≡ returned a
      → WaiterHas r.worker m r.is_done
      → Ends a r
  returned-Ends selecting r a v w e h = absurd (cc)
  returned-Ends (returned b) r a v w e (inl (same, k)) =
      let back : a ≡ asked get args = cc in
      answered (back ∙ sym (ap (λ o. if_valid o (asked get args)) v)) k
  returned-Ends (returned b) r a v w e (inr (same, over, k)) =
      abandoned (cc) over
        (λ s ts. (Turns-Stuck a ts (record { waiter_same = cc; not_ended = k })).not_ended)

  -- When `doRequestCancel` of redis.go or memcache.go returns, in whatever order the goroutine and the end of the
  -- context came, then either it returns what `doRequest` returns and the goroutine has ended, or it returns the
  -- error of the context, which is done; and then the goroutine never ends, whatever happens later.
  pub do_request_cancel-Ends :
      (over : Bool) (r : Race) (a : Answer)
      → validate_with_key args ≡ none
      → Turns get args (race over) r
      → r.waiter ≡ returned a
      → Ends a r
  do_request_cancel-Ends over r a v ts e =
      returned-Ends r.waiter r a v refl e (Turns-Keeps over ts).waiter_has

  -- What it returns, with the check of the arguments.
  pub Cancellable-do_request :
      {a : Answer} → Cancellable get args a → (a ≡ do_request get args) ⊎ (a ≡ err context_done)
  Cancellable-do_request (refused e h) = inl (rw h refl)
  Cancellable-do_request (races over {r} valid turns a back) =
      elim (do_request_cancel-Ends over r a valid turns back) [
        | answered e k ↦ inl e
        | abandoned e o k ↦ inr e
      ]
