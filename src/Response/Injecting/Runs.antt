-- ===== src/Response/Injecting/Runs.antt =====
-- A page that is written in pieces to an `injectingWriter`.
use mathlib.Core.List.{flatten}
use mathlib.Core.Path.{subst}
use caddy_esi.Prelude.{
  ◌+◌, ◌≡◌, ◌≢◌, refl, sym, ap, ◌∙◌, true, List, [], ◌∷◌, ◌++◌, Option, none, some, arith, length,
  length-append,
}
use caddy_esi.Prelude.Text.{Bytes}
use caddy_esi.EsiTag.DataTags.{DataTag}
use caddy_esi.EsiTag.DataTags.Inject.{Failure}
use caddy_esi.EsiTag.DataTags.Splice.{splice}
use caddy_esi.EsiTag.DataTags.Stream.{Delivered, inject_pieces, inject_pieces-splice}
use caddy_esi.Response.{ResponseWriter, Observed, body_writer, Decimals}
use caddy_esi.Response.Injecting.{
  InjectingWriter, yes, not_tested, Wrote, loaded, response_wrap_injector, is_response_allowed,
  write, pass_or_inject, tested,
}

module _ (sort : List DataTag → List DataTag) (w : ResponseWriter) (d : Decimals)
    (detect : Bytes → Bytes) where
  -- Writes one after the other, up to the first that fails.
  unfoldable pub write_all : List Bytes → InjectingWriter w.State → Wrote w.State
  write_all [] b = record { writer = b; count = 0; failure = none }
  write_all (p ∷ ps) b =
      let r = write sort w d detect b p in
      elim r.failure [
        | some e ↦ r
        | none ↦ let more = write_all ps r.writer in record more { count = r.count + more.count }
      ]

  -- A run of writes and the calls of `InjectContent` that it makes.
  pub record Injects (b : InjectingWriter w.State) (ps : List Bytes) (r : Wrote w.State)
      : Type 0 where
    pub sink_eq : r.writer.rw ≡ (inject_pieces (body_writer w) ps (loaded sort b) b.rw).sink
    pub failure_eq : r.failure ≡ (inject_pieces (body_writer w) ps (loaded sort b) b.rw).failure
    pub count_eq : r.failure ≡ none → r.count ≡ length (flatten ps)

  -- The first write of a run: `f` is its failure.
  Injects-first :
      (b : InjectingWriter w.State) (p : Bytes) (ps : List Bytes) (f : Option Failure)
      → let r = pass_or_inject sort w d detect yes b p in
        let more = write_all ps r.writer in
        r.failure ≡ f
        → Injects r.writer ps more
        → Injects b
            (p ∷ ps)
            (elim f [ some e ↦ r | none ↦ record more { count = length p + more.count } ])
  unfolding inject_pieces flatten
  Injects-first b p ps (some x) e ih = record {
    sink_eq = rw (e, inject_pieces) refl;
    failure_eq = rw (e, inject_pieces) (sym e);
    count_eq = λ h. cc;
  }
  Injects-first b p ps none e ih = record {
    sink_eq = rw (e, inject_pieces) ih.sink_eq;
    failure_eq = rw (e, inject_pieces) ih.failure_eq;
    count_eq = λ h. omega (arith, ih.count_eq h, length-append p (flatten ps));
  }

  abbrev pub then_all : List Bytes → Wrote w.State → Wrote w.State
  then_all ps r =
      let more = write_all ps r.writer in
      elim r.failure [ some e ↦ r | none ↦ record more { count = r.count + more.count } ]

  pub write_all-cons :
      (p : Bytes) (ps : List Bytes) (b : InjectingWriter w.State)
      → write_all (p ∷ ps) b ≡ then_all ps (write sort w d detect b p)
  unfolding write_all
  write_all-cons p ps b = refl

  write_all-Injects :
      (ps : List Bytes) (b : InjectingWriter w.State)
      → b.response_allowed ≡ yes
      → Injects b ps (write_all ps b)
  unfolding write_all inject_pieces flatten
  write_all-Injects [] b h = record { sink_eq = refl; failure_eq = refl; count_eq = λ e. refl }
  write_all-Injects (p ∷ ps) b h =
      let r = pass_or_inject sort w d detect yes b p in
      let step : write sort w d detect b p ≡ r =
        unfold write in
        ap (λ a. pass_or_inject sort w d detect (tested sort w d detect a p) b p) h in
      subst (Injects b (p ∷ ps)) (sym (write_all-cons p ps b ∙ ap (then_all ps) step))
        (Injects-first b p ps r.failure refl (write_all-Injects ps r.writer refl))

  write_first :
      (p : Bytes) (b : InjectingWriter w.State)
      → b.response_allowed ≡ not_tested
      → is_response_allowed sort w d detect p ≡ true
      → write sort w d detect b p ≡ pass_or_inject sort w d detect yes b p
  unfolding write
  write_first p b h t =
      let passes : tested sort w d detect not_tested p ≡ yes = rw t refl in
      ap (λ a. pass_or_inject sort w d detect (tested sort w d detect a p) b p) h
      ∙ ap (λ a. pass_or_inject sort w d detect a b p) passes

  -- A writer that nothing was written to, whose first piece is text.
  pub write_all-first :
      (p : Bytes) (ps : List Bytes) (b : InjectingWriter w.State)
      → b.response_allowed ≡ not_tested
      → is_response_allowed sort w d detect p ≡ true
      → Injects b (p ∷ ps) (write_all (p ∷ ps) b)
  write_all-first p ps b h t =
      let r = pass_or_inject sort w d detect yes b p in
      subst (Injects b (p ∷ ps))
        (sym (write_all-cons p ps b ∙ ap (then_all ps) (write_first p b h t)))
        (Injects-first b p ps r.failure refl (write_all-Injects ps r.writer refl))

  -- What has become of a page after all its pieces are written.
  pub record Served (v : Observed w) (s : w.State) (ps : List Bytes) (tags : List DataTag)
      (r : Wrote w.State) : Type 0 where
    pub no_failure : r.failure ≡ none
    pub body_eq : v.body.content r.writer.rw ≡ v.body.content s ++ splice 0 tags (flatten ps)
    pub count_eq : r.count ≡ length (flatten ps)

  -- For a client that takes all writes, tags that the channel delivers in any order, and a page whose
  -- first piece is text and whose pieces hold the sorted tags as `Delivered` says: writing the pieces to
  -- an `injectingWriter` sends the page with each tag replaced by its content, no write fails, and the
  -- numbers that the writes report add up to the length of the page as it came.
  pub write_all-Served :
      (v : Observed w) (s : w.State) (received : List DataTag) (p : Bytes) (ps : List Bytes)
      → is_response_allowed sort w d detect p ≡ true
      → sort received ≢ []
      → Delivered 0 (sort received) (p ∷ ps)
      → Served v s (p ∷ ps) (sort received) (write_all (p ∷ ps) (response_wrap_injector received s))
  write_all-Served v s received p ps t ne h =
      let b = response_wrap_injector received s in
      let i = write_all-first p ps b refl t in
      let tags = loaded sort b in
      let k =
        inject_pieces-splice (body_writer w) v.body (p ∷ ps) tags s
          (record { prev_zero = refl; cur_zero = refl; no_states = refl }) ne h in
      record {
        no_failure = i.failure_eq ∙ k.no_failure;
        body_eq = ap (λ x. v.body.content x) i.sink_eq ∙ k.content_eq;
        count_eq = i.count_eq (i.failure_eq ∙ k.no_failure);
      }
