-- ===== src/EsiTag/Fanout/Ends.antt =====
-- The goroutines always come to an end.
use mathlib.Core.Path.{subst}
use caddy_esi.Prelude.{
  ℕ, zero, suc, ◌+◌, ◌*◌, ◌≤◌, ◌<◌, ◌≡◌, inl, inr, refl, sym, Bool, List, [], ◌∷◌, ◌++◌, arith,
  length, if◌then◌else◌,
}
use caddy_esi.Prelude.Text.{Bytes}
use caddy_esi.EsiTag.DataTags.{DataTag}
use caddy_esi.EsiTag.Fanout.{
  Task, querying, sending, returned, gave_up, Group, Goroutines, start, Step, answers, sends,
  gives_up, cancels, Reach, here, next, AllEnd, tag_for,
}
use caddy_esi.EsiTag.Fanout.Runs.{
  steps_left, steps_left-append, steps_left-start_all, Open, at_query, at_send, AllEnd-or_Open,
  Delivers, query_resources-Delivers,
}

module _ {Handler : Type 0} (replace : Bytes → Bytes) where
  -- The steps that the goroutines and the context have left.
  abbrev left : Group Handler → ℕ
  left g = steps_left g.goroutines + (if g.is_done then 0 else 1)

  Step-left : {g h : Group Handler} → Step replace g h → left h < left g
  Step-left (answers xs ys t got over) =
      omega
        (arith, steps_left-append xs ((t, querying) ∷ ys), steps_left-append xs ((t, sending) ∷ ys))
  Step-left (sends xs ys t got over) =
      omega
        (arith, steps_left-append xs ((t, sending) ∷ ys), steps_left-append xs ((t, returned) ∷ ys))
  Step-left (gives_up xs ys t got) =
      omega
        (arith, steps_left-append xs ((t, sending) ∷ ys), steps_left-append xs ((t, gave_up) ∷ ys))
  Step-left (cancels gs got) = omega arith

  -- The number of steps of a run.
  abbrev pub steps : {g h : Group Handler} → Reach replace g h → ℕ
  steps here = 0
  steps (next r s) = suc (steps r)

  Reach-left : {g h : Group Handler} (r : Reach replace g h) → steps r + left h ≤ left g
  Reach-left here = omega arith
  Reach-left (next r s) = omega (arith, Reach-left r, Step-left s)

  Reach-trans : {g h k : Group Handler} → Reach replace g h → Reach replace h k → Reach replace g k
  Reach-trans r here = r
  Reach-trans r (next q s) = next (Reach-trans r q) s

  -- A run to the end in which the context stays as it is.
  record Ended (gs : Goroutines Handler) (got : List DataTag) (over : Bool) : Type 0 where
    last : Goroutines Handler
    taken : List DataTag
    run :
        Reach replace
          (record { goroutines = gs; received = got; is_done = over })
          (record { goroutines = last; received = taken; is_done = over })
    ends : AllEnd last

  Ended-step :
      (gs hs : Goroutines Handler) (got more : List DataTag) (over : Bool)
      → Step replace
          (record { goroutines = gs; received = got; is_done = over })
          (record { goroutines = hs; received = more; is_done = over })
      → Ended hs more over
      → Ended gs got over
  Ended-step gs hs got more over s e = record {
    last = e.last;
    taken = e.taken;
    run = Reach-trans (next here s) e.run;
    ends = e.ends;
  }

  -- A goroutine that has not ended makes a step.
  record Advances (gs : Goroutines Handler) (got : List DataTag) (over : Bool) : Type 0 where
    then_gs : Goroutines Handler
    then_got : List DataTag
    step :
        Step replace
          (record { goroutines = gs; received = got; is_done = over })
          (record { goroutines = then_gs; received = then_got; is_done = over })
    fewer : steps_left then_gs < steps_left gs

  Open-Advances :
      (gs : Goroutines Handler) (got : List DataTag) (over : Bool) → Open gs → Advances gs got over
  Open-Advances gs got over (at_query xs ys t e) =
      subst (λ l. Advances l got over) (sym e)
        (record {
          then_gs = xs ++ (t, sending) ∷ ys;
          then_got = got;
          step = answers xs ys t got over;
          fewer = omega (
            arith,
            steps_left-append xs ((t, querying) ∷ ys),
            steps_left-append xs ((t, sending) ∷ ys),
          );
        })
  Open-Advances gs got over (at_send xs ys t e) =
      subst (λ l. Advances l got over) (sym e)
        (record {
          then_gs = xs ++ (t, returned) ∷ ys;
          then_got = got ++ tag_for replace t ∷ [];
          step = sends xs ys t got over;
          fewer = omega (
            arith,
            steps_left-append xs ((t, sending) ∷ ys),
            steps_left-append xs ((t, returned) ∷ ys),
          );
        })

  run_on :
      (n : ℕ) (gs : Goroutines Handler) (got : List DataTag) (over : Bool)
      → steps_left gs ≤ n
      → Ended gs got over
  run_on zero gs got over h = elim (AllEnd-or_Open gs) [
    | inl e ↦ record { last = gs; taken = got; run = here; ends = e }
    | inr o ↦ absurd (let f = (Open-Advances gs got over o).fewer in omega arith)
  ]
  run_on (suc n) gs got over h = elim (AllEnd-or_Open gs) [
    | inl e ↦ record { last = gs; taken = got; run = here; ends = e }
    | inr o ↦
        let a = Open-Advances gs got over o in
        Ended-step gs a.then_gs got a.then_got over a.step
          (run_on n a.then_gs a.then_got over (let f = a.fewer in omega arith))
  ]

  -- What holds of a run `r` from the start.
  pub record Ends (ts : List (Task Handler)) {g : Group Handler} (r : Reach replace (start ts) g)
      : Type 0 where
    pub short : steps r ≤ 2 * length ts + 1
    pub last : Group Handler
    pub run : Reach replace g last
    pub ends : AllEnd last.goroutines
    pub same_context : last.is_done ≡ g.is_done
    pub delivers : Delivers replace ts last

  -- Every run makes at most two steps for each tag, and one for the context. From every point of a run the
  -- goroutines can go on to the end without the context being cancelled, and then the receiver has got
  -- what it should have.
  pub query_resources-Ends :
      (ts : List (Task Handler)) (g : Group Handler) (r : Reach replace (start ts) g) → Ends ts r
  query_resources-Ends ts g r =
      let e = run_on (steps_left g.goroutines) g.goroutines g.received g.is_done (omega arith) in
      let last : Group Handler = record {
        goroutines = e.last;
        received = e.taken;
        is_done = g.is_done;
      } in
      record {
        short = omega (arith, Reach-left r, steps_left-start_all ts);
        last = last;
        run = e.run;
        ends = e.ends;
        same_context = refl;
        delivers = query_resources-Delivers replace ts last (Reach-trans r e.run) e.ends;
      }
