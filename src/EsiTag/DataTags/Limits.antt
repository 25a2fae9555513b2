-- ===== src/EsiTag/DataTags/Limits.antt =====
-- Cuts of the stream that `InjectContent` does not handle: a tag at the first byte of a page, and a
-- piece that ends where a tag ends.
use mathlib.Core.Path.{subst}
use caddy_esi.Prelude.{
  ℕ, ◌+◌, ◌-◌, ◌≤◌, ◌<◌, ◌≡◌, refl, sym, ap, ◌∙◌, true, List, [], ◌∷◌, ◌++◌, some, arith, length,
  take, append-nil, set, ◌⊎◌, inl, inr,
}
use caddy_esi.Prelude.Int.{pos}
use caddy_esi.Prelude.Text.{Bytes}
use caddy_esi.Writer.{Writer, Appends}
use caddy_esi.EsiTag.DataTags.{DataTag, waiting, in_progress, DataTags, slice_of, rel_pos_start}
use caddy_esi.EsiTag.DataTags.Flags.{
  IsChunk, has_full_tag_beyond, rel_pos_start_lem, slice_of_range,
}
use caddy_esi.EsiTag.DataTags.Inject.{
  Progress, next, ◌>>=◌, states_of, visit_waiting, visit_in_progress, chunk_of, progress_of,
  inject_content, inject_nothing, copy_rest,
}
use caddy_esi.EsiTag.DataTags.Splice.{wrote, wrote-Wrote, as_Wrote, wrote_two}
use caddy_esi.EsiTag.DataTags.Feed.{Feeds, copy_unwritten, inject_empty}
use caddy_esi.EsiTag.DataTags.Stream.{IsFresh, Delivers, inject_pieces, deliver_more}
use caddy_esi.EsiTag.DataTags.Single.{
  has_full_tag_first, has_pos_start_within, has_pos_end_past, has_pos_start_across, fresh_states,
  IsOpen, feed_single,
}

module _ (w : Writer) (a : Appends w) where
  open w use {Sink}
  open a use {content}

  -- A page that begins with its tag is sent as it is, with the tag in it.
  pub inject_content_first :
      (dts : DataTags) (t : DataTag) (bytes : Bytes) (s : Sink)
      → IsFresh dts
      → dts.slice ≡ t ∷ []
      → t.start ≡ 0
      → t.start < t.end
      → t.end ≤ length bytes
      → Delivers w a (inject_content w dts bytes s) s bytes
  inject_content_first dts t bytes s f e z l k =
      let c = chunk_of dts bytes in
      let p = progress_of dts s in
      let is_chunk : IsChunk c = omega (arith, f.prev_zero, f.cur_zero) in
      let full = has_full_tag_first c t (omega (arith, f.prev_zero)) in
      let starts = has_pos_start_within c t is_chunk (omega (arith, f.cur_zero)) in
      let idle : visit_waiting w c 0 t p ≡ next p = unfold visit_waiting in rw (full, starts) in
      let r =
        feed_single w a dts t bytes bytes s waiting (wrote w a p bytes) e
          (λ x. absurd (omega (arith, ap length x))) (fresh_states dts t f e)
          (ap (λ m. m >>= copy_rest w bytes) idle ∙ copy_unwritten w a bytes p refl)
          (wrote-Wrote w a p bytes) in
      record { no_failure = r.no_failure; content_eq = r.content_eq; count_eq = r.count_eq }

  -- A tag in progress that ended already, or ends with the data, swallows the data.
  feed_open :
      (bytes : Bytes) (dts : DataTags) (t : DataTag) (q : ℕ) (s : Sink)
      → IsOpen dts t q
      → (t.end ≤ q) ⊎ (t.end ≡ q + length bytes)
      → Feeds w a dts bytes s [] (in_progress ∷ [])
  unfolding inject_nothing
  feed_open [] dts t q s o h =
      let e = inject_empty w a dts s in
      record {
        no_failure = ap (λ r. r.failure) e ∙ rw (a.write_failed s []);
        content_eq = ap (λ r. content r.sink) e ∙ a.write_content s [];
        count_eq = ap (λ r. r.n_written) e ∙ a.write_count s [];
        slice_same = ap (λ r. r.tags.slice) e;
        prev_next = ap (λ r. r.tags.stream_prev) e ∙ omega arith;
        cur_next = ap (λ r. r.tags.stream_cur) e ∙ omega arith;
        states_next =
            ap (λ r. r.tags.write_states) e ∙ ap (λ o. some (states_of dts o)) o.states_eq;
      }
  feed_open (x ∷ xs) dts t q s o h =
      let bytes = x ∷ xs in
      let c = chunk_of dts bytes in
      let p = progress_of dts s in
      let past = has_pos_end_past c t (omega (arith, o.prev_eq, o.cur_eq)) (elim h [
        | inl l ↦ inl (omega (arith, o.prev_eq))
        | inr r ↦ inr (omega (arith, o.cur_eq))
      ]) in
      let marked : Progress Sink = record p { tag_written = true } in
      let idle : visit_in_progress w c 0 t p ≡ next marked = unfold visit_in_progress in rw past in
      let r =
        feed_single w a dts t bytes [] s in_progress marked o.slice_eq (cc)
          (ap (states_of dts) o.states_eq) (ap (λ m. m >>= copy_rest w bytes) idle)
          (record { wrote_content = sym (append-nil (content s)); wrote_count = omega arith }) in
      subst (Feeds w a dts bytes s []) (ap (states_of dts) o.states_eq) r

  next-IsOpen :
      (dts : DataTags) (t : DataTag) (q : ℕ) (bytes : Bytes) (s : Sink) (out : Bytes)
      → dts.slice ≡ t ∷ []
      → dts.stream_prev ≡ q
      → dts.stream_cur ≡ q
      → Feeds w a dts bytes s out (in_progress ∷ [])
      → IsOpen (inject_content w dts bytes s).tags t (q + length bytes)
  next-IsOpen dts t q bytes s out e p c f = record {
    slice_eq = f.slice_same ∙ e;
    prev_eq = omega (arith, f.prev_next);
    cur_eq = omega (arith, f.cur_next);
    states_eq = f.states_next;
  }

  pieces_lost :
      (cs : List Bytes) (dts : DataTags) (t : DataTag) (q : ℕ) (s : Sink)
      → IsOpen dts t q
      → t.end ≤ q
      → Delivers w a (inject_pieces w cs dts s) s []
  unfolding inject_pieces
  pieces_lost [] dts t q s o h = record {
    no_failure = refl;
    content_eq = sym (append-nil (content s));
    count_eq = refl;
  }
  pieces_lost (c ∷ cs) dts t q s o h =
      let r = inject_content w dts c s in
      let f = feed_open c dts t q s o (inl h) in
      deliver_more w a dts c cs s [] [] f (
        pieces_lost cs r.tags t (q + length c) r.sink
          (next-IsOpen dts t q c s [] o.slice_eq o.prev_eq o.cur_eq f) (omega arith))

  -- The data hold the beginning of the only tag, and not its end.
  feed_start :
      (bytes : Bytes) (dts : DataTags) (t : DataTag) (s : Sink)
      → IsFresh dts
      → dts.slice ≡ t ∷ []
      → t.start < length bytes
      → length bytes < t.end
      → Feeds w a dts bytes s (take t.start bytes ++ t.bytes) (in_progress ∷ [])
  feed_start bytes dts t s f e l k =
      let c = chunk_of dts bytes in
      let p = progress_of dts s in
      let b = take t.start bytes in
      let is_chunk : IsChunk c = omega (arith, f.prev_zero, f.cur_zero) in
      let full = has_full_tag_beyond c t is_chunk (omega (arith, f.cur_zero)) in
      let starts =
        has_pos_start_across c t is_chunk (omega (arith, f.prev_zero)) (omega (arith, f.cur_zero))
          (omega (arith, f.cur_zero)) in
      let n : t.start - c.prev - 0 ≡ t.start = omega (arith, f.prev_zero) in
      let cut : slice_of bytes (pos 0) (rel_pos_start c t) ≡ some b = rw (
        rel_pos_start_lem c t (omega (arith, f.prev_zero)),
        slice_of_range bytes 0 (t.start - c.prev) (omega arith) (omega arith),
        n,
      ) in
      let marked : Progress Sink = record (wrote w a (wrote w a p b) t.bytes) {
        states = set p.states 0 in_progress;
        tag_written = true;
      } in
      let run : visit_waiting w c 0 t p ≡ next marked =
        unfold visit_waiting wrote in simp (full, starts, cut, a.write_failed) in
      let states = fresh_states dts t f e in
      let r =
        feed_single w a dts t bytes (b ++ t.bytes) s waiting marked e
          (λ x. absurd (omega (arith, ap length x))) states (ap (λ m. m >>= copy_rest w bytes) run)
          (as_Wrote w a marked (wrote_two w a p b t.bytes) refl refl) in
      subst (Feeds w a dts bytes s (b ++ t.bytes)) (ap (λ l. set l 0 in_progress) states) r

  -- If a page has one tag only, which is cut in two, the second piece ending where the tag ends, then everything
  -- behind the tag is lost, however many pieces follow, and no call reports an error.
  pub inject_pieces_lost :
      (dts : DataTags) (t : DataTag) (c₀ c₁ : Bytes) (cs : List Bytes) (s : Sink)
      → IsFresh dts
      → dts.slice ≡ t ∷ []
      → t.start < length c₀
      → length c₀ < t.end
      → t.end ≡ length c₀ + length c₁
      → Delivers w a (inject_pieces w (c₀ ∷ c₁ ∷ cs) dts s) s (take t.start c₀ ++ t.bytes)
  inject_pieces_lost dts t c₀ c₁ cs s f e l k h =
      let r₀ = inject_content w dts c₀ s in
      let r₁ = inject_content w r₀.tags c₁ r₀.sink in
      let f₀ = feed_start c₀ dts t s f e l k in
      let out = take t.start c₀ ++ t.bytes in
      let o₀ = next-IsOpen dts t 0 c₀ s out e f.prev_zero f.cur_zero f₀ in
      let f₁ = feed_open c₁ r₀.tags t (0 + length c₀) r₀.sink o₀ (inr (omega arith)) in
      let o₁ =
        next-IsOpen r₀.tags t (0 + length c₀) c₁ r₀.sink [] o₀.slice_eq o₀.prev_eq o₀.cur_eq f₁ in
      let rest = pieces_lost cs r₁.tags t (0 + length c₀ + length c₁) r₁.sink o₁ (omega arith) in
      subst (Delivers w a (inject_pieces w (c₀ ∷ c₁ ∷ cs) dts s) s) (append-nil out) (
        deliver_more w a dts c₀ (c₁ ∷ cs) s out [] f₀
          (deliver_more w a r₀.tags c₁ cs r₀.sink [] [] f₁ rest))
