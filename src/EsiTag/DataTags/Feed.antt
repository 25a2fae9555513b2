-- ===== src/EsiTag/DataTags/Feed.antt =====
-- One call of `InjectContent` in the middle of a stream, from what its loop does.
use mathlib.Core.Path.{subst}
use caddy_esi.Prelude.{
  ℕ, ◌+◌, ◌≡◌, ◌≢◌, refl, sym, ap, ◌∙◌, true, false, List, [], ◌∷◌, ◌++◌, some, none, arith, length,
  replicate, length-replicate, ◌==◌, ◌||◌, length_pos,
}
use caddy_esi.Prelude.Text.{Bytes}
use caddy_esi.Writer.{Writer, Appends}
use caddy_esi.EsiTag.DataTags.{DataTag, WriteState, waiting, done, DataTags, Chunk}
use caddy_esi.EsiTag.DataTags.Inject.{
  Progress, next, ◌>>=◌, visit_all, states_of, chunk_of, progress_of, inject_content, copy_rest,
  returns, inject_nothing,
}
use caddy_esi.EsiTag.DataTags.Splice.{Wrote, wrote, wrote-Wrote}
use caddy_esi.EsiTag.DataTags.Fits.{Completes}
use caddy_esi.EsiTag.DataTags.Passes.{Beyond, visit_all-append, skip_done, skip-Beyond}

-- The states of a page whose first `m` tags are done and whose other `n` tags wait.
abbrev pub progress_states : ℕ → ℕ → List WriteState
progress_states m n = replicate m done ++ replicate n waiting

-- The stream is at position `q`: the tags `pre` are done, the tags `ts` wait.
pub record At (dts : DataTags) (pre ts : List DataTag) (q : ℕ) : Type 0 where
  pub slice_eq : dts.slice ≡ pre ++ ts
  pub prev_eq : dts.stream_prev ≡ q
  pub cur_eq : dts.stream_cur ≡ q
  pub states_eq : states_of dts dts.write_states ≡ progress_states (length pre) (length ts)

module _ (w : Writer) (a : Appends w) where
  open w use {Sink}
  open a use {content}

  -- A call that succeeds, writes `out`, and leaves the stream behind the data.
  pub record Feeds (dts : DataTags) (bytes : Bytes) (s : Sink) (out : Bytes)
      (states : List WriteState) : Type 0 where
    pub no_failure : (inject_content w dts bytes s).failure ≡ none
    pub content_eq : content (inject_content w dts bytes s).sink ≡ content s ++ out
    pub count_eq : (inject_content w dts bytes s).n_written ≡ length out
    pub slice_same : (inject_content w dts bytes s).tags.slice ≡ dts.slice
    pub prev_next : (inject_content w dts bytes s).tags.stream_prev ≡ dts.stream_prev + length bytes
    pub cur_next : (inject_content w dts bytes s).tags.stream_cur ≡ dts.stream_cur + length bytes
    pub states_next : (inject_content w dts bytes s).tags.write_states ≡ some states

  -- The loop passes over the tags that are done.
  start_loop :
      (dts : DataTags) (pre ts : List DataTag) (q : ℕ) (c : Chunk) (s : Sink)
      → At dts pre ts q
      → visit_all w c 0 dts.slice (progress_of dts s)
        ≡ visit_all w c (length pre) ts (progress_of dts s)
  start_loop dts pre ts q c s h =
      let p = progress_of dts s in
      let skip = skip_done w c pre 0 p [] (replicate (length ts) waiting) refl h.states_eq in
      let n : 0 + length pre ≡ length pre = omega arith in
      ap (λ l. visit_all w c 0 l p) h.slice_eq ∙ visit_all-append w c pre ts 0 p ∙ rw (skip, n)

  copy_written :
      (bytes : Bytes) (p : Progress Sink) → p.tag_written ≡ true → copy_rest w bytes p ≡ next p
  copy_written bytes p h = simp h

  pub copy_unwritten :
      (bytes : Bytes) (p : Progress Sink)
      → p.tag_written ≡ false
      → copy_rest w bytes p ≡ next (wrote w a p bytes)
  unfolding wrote
  copy_unwritten bytes p h = simp (h, a.write_failed)

  pub inject_tags :
      (dts : DataTags) (bytes : Bytes) (s : Sink)
      → dts.slice ≢ []
      → bytes ≢ []
      → inject_content w dts bytes s
        ≡ returns w dts
            (length bytes)
            (visit_all w (chunk_of dts bytes) 0 dts.slice (progress_of dts s) >>= copy_rest w bytes)
  unfolding inject_content
  inject_tags dts bytes s ne nb =
      let n : (length dts.slice == 0 || length bytes == 0) ≡ false =
        ground (arith, length_pos dts.slice ne, length_pos bytes nb) in
      rw n

  pub inject_empty :
      (dts : DataTags) (s : Sink) → inject_content w dts [] s ≡ inject_nothing w dts [] s
  unfolding inject_content
  inject_empty dts s =
      let n : (length dts.slice == 0 || length {A = ℕ} [] == 0) ≡ true = ground arith in rw n

  -- Without tags the data are copied.
  pub inject_untagged :
      (dts : DataTags) (bytes : Bytes) (s : Sink)
      → dts.slice ≡ []
      → inject_content w dts bytes s ≡ inject_nothing w dts bytes s
  unfolding inject_content
  inject_untagged dts bytes s h =
      let n : (length dts.slice == 0 || length bytes == 0) ≡ true =
        ap (λ l. length l == 0 || length bytes == 0) h in
      rw n

  -- A run of the loop that ends normally, with the copy behind it, fixes the whole call.
  pub feed :
      (dts : DataTags) (bytes out : Bytes) (s : Sink) (states : List WriteState) (p : Progress Sink)
      → inject_content w dts bytes s ≡ returns w dts (length bytes) (next p)
      → Wrote w a (progress_of dts s) p out
      → p.states ≡ states
      → Feeds dts bytes s out states
  feed dts bytes out s states p e h k = record {
    no_failure = ap (λ r. r.failure) e;
    content_eq = ap (λ r. content r.sink) e ∙ h.wrote_content;
    count_eq = ap (λ r. r.n_written) e ∙ omega (arith, h.wrote_count);
    slice_same = ap (λ r. r.tags.slice) e;
    prev_next = ap (λ r. r.tags.stream_prev) e;
    cur_next = ap (λ r. r.tags.stream_cur) e;
    states_next = ap (λ r. r.tags.write_states) e ∙ ap some k;
  }

  pub feed_some :
      (dts : DataTags) (pre ts : List DataTag) (q : ℕ) (bytes out : Bytes) (s : Sink)
      (states : List WriteState)
      → At dts pre ts q
      → dts.slice ≢ []
      → bytes ≢ []
      → Completes w a (chunk_of dts bytes) (length pre) ts (progress_of dts s) out states
      → Feeds dts bytes s out states
  feed_some dts pre ts q bytes out s states h ne nb r =
      let c = chunk_of dts bytes in
      let p = progress_of dts s in
      let run : (visit_all w c 0 dts.slice p >>= copy_rest w bytes) ≡ next r.after =
        ap (λ m. m >>= copy_rest w bytes) (start_loop dts pre ts q c s h ∙ r.runs)
        ∙ copy_written bytes r.after r.is_written in
      feed dts bytes out s states r.after
        (inject_tags dts bytes s ne nb ∙ ap (returns w dts (length bytes)) run) r.wrote_bytes
        r.states_eq

  pub feed_none :
      (dts : DataTags) (pre ts : List DataTag) (q : ℕ) (bytes : Bytes) (s : Sink)
      → At dts pre ts q
      → dts.slice ≢ []
      → Beyond (q + length bytes) ts
      → Feeds dts bytes s bytes (progress_states (length pre) (length ts))
  unfolding inject_nothing wrote
  feed_none dts pre ts q [] s h ne b =
      let e = inject_empty dts s in
      record {
        no_failure = ap (λ r. r.failure) e ∙ rw (a.write_failed s []);
        content_eq = ap (λ r. content r.sink) e ∙ a.write_content s [];
        count_eq = ap (λ r. r.n_written) e ∙ a.write_count s [];
        slice_same = ap (λ r. r.tags.slice) e;
        prev_next = ap (λ r. r.tags.stream_prev) e ∙ omega arith;
        cur_next = ap (λ r. r.tags.stream_cur) e ∙ omega arith;
        states_next = ap (λ r. r.tags.write_states) e ∙ ap some h.states_eq;
      }
  feed_none dts pre ts q (x ∷ xs) s h ne b =
      let bytes = x ∷ xs in
      let c = chunk_of dts bytes in
      let p = progress_of dts s in
      let idle =
        skip-Beyond w c ts (length pre) p (replicate (length pre) done)
          (omega (arith, h.cur_eq, h.prev_eq))
          (subst (λ n. Beyond (n + length bytes) ts) (sym h.cur_eq) b)
          (sym (length-replicate (length pre) done)) h.states_eq in
      let run : (visit_all w c 0 dts.slice p >>= copy_rest w bytes) ≡ next (wrote w a p bytes) =
        ap (λ m. m >>= copy_rest w bytes) (start_loop dts pre ts q c s h ∙ idle)
        ∙ copy_unwritten bytes p refl in
      feed dts bytes bytes s _ (wrote w a p bytes)
        (inject_tags dts bytes s ne (cc) ∙ ap (returns w dts (length bytes)) run)
        (wrote-Wrote w a p bytes) h.states_eq
