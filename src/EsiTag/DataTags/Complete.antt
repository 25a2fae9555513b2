-- ===== src/EsiTag/DataTags/Complete.antt =====
-- The loop of `InjectContent` in the middle of a stream: one tag in the data, or all that wait.
use mathlib.Core.Path.{subst}
use caddy_esi.Prelude.{
  ℕ, suc, ◌+◌, ◌-◌, ◌≡◌, refl, sym, ap, ◌∙◌, List, [], ◌∷◌, ◌++◌, arith, length, drop, replicate,
  append_assoc, length-append, length-replicate, append-nil, get_elem?-append_length,
}
use caddy_esi.Prelude.Int.{pos}
use caddy_esi.Prelude.Text.{Bytes}
use caddy_esi.Writer.{Writer, Appends}
use caddy_esi.EsiTag.DataTags.{DataTag, waiting, done, DataTags, next_tag_at}
use caddy_esi.EsiTag.DataTags.Flags.{has_full_tag_beyond}
use caddy_esi.EsiTag.DataTags.Inject.{chunk_of, progress_of}
use caddy_esi.EsiTag.DataTags.Splice.{
  splice, Inside, Replaces, between, behind, Wrote, visit_full_alone, visit_full_last,
}
use caddy_esi.EsiTag.DataTags.Fits.{
  Fits, full_next_tag_at, get_waiting, set_waiting, Completes, visit_all-Fits, visit_one, ends_here,
  behind_again,
}
use caddy_esi.EsiTag.DataTags.Passes.{Beyond, replicate-append, skip-Beyond}
use caddy_esi.EsiTag.DataTags.Feed.{At, progress_states}

module _ (w : Writer) (a : Appends w) where
  open w use {Sink}

  -- The stream position of the call is `q`, so nothing stands before `q` in the data.
  from_start :
      (dts : DataTags) (pre ts : List DataTag) (q : ℕ) (bytes : Bytes)
      → At dts pre ts q
      → drop (q - dts.stream_prev) bytes ≡ bytes
  from_start dts pre ts q bytes h =
      let n : q - dts.stream_prev ≡ 0 = omega (arith, h.prev_eq) in rw n

  -- Nothing behind the data is a reason to look further: the tag is written with all the data.
  replace_one :
      (dts : DataTags) (pre : List DataTag) (t : DataTag) (ts : List DataTag) (q : ℕ)
      (bytes : Bytes) (s : Sink)
      → At dts pre (t ∷ ts) q
      → Inside (chunk_of dts bytes) q t
      → Beyond (q + length bytes) ts
      → Replaces w a
          (chunk_of dts bytes)
          (length pre)
          t
          (progress_of dts s)
          (between (chunk_of dts bytes) q t ++ (t.bytes ++ behind (chunk_of dts bytes) t))
  replace_one dts pre t [] q bytes s h i b =
      let c = chunk_of dts bytes in
      let last = full_next_tag_at c pre t [] (length pre + 1) h.slice_eq refl ∙ ends_here c pre t in
      visit_full_last w a c (length pre) t (progress_of dts s) q i
        (ap pos (omega (arith, h.prev_eq))) last
  replace_one dts pre t (t' ∷ ts) q bytes s h i b =
      let c = chunk_of dts bytes in
      let next_at =
        full_next_tag_at c pre t (t' ∷ ts) (length pre + 1) h.slice_eq refl
        ∙ ap (next_tag_at c) (get_elem?-append_length (pre ++ t ∷ []) t' ts) in
      visit_full_alone w a c (length pre) t (progress_of dts s) q i (sym h.prev_eq) (
        ap (λ n. n.has_next) next_at
        ∙ has_full_tag_beyond c t' i.is_chunk (omega (arith, h.cur_eq)))

  -- One tag in the data, and the next one behind them.
  pub complete_one :
      (dts : DataTags) (pre : List DataTag) (t : DataTag) (ts : List DataTag) (q : ℕ)
      (bytes : Bytes) (s : Sink)
      → At dts pre (t ∷ ts) q
      → Inside (chunk_of dts bytes) q t
      → Beyond (q + length bytes) ts
      → Completes w a
          (chunk_of dts bytes)
          (length pre)
          (t ∷ ts)
          (progress_of dts s)
          (splice q (t ∷ []) bytes)
          (progress_states (length pre + 1) (length ts))
  unfolding splice
  complete_one dts pre t ts q bytes s h i b =
      let c = chunk_of dts bytes in
      let p = progress_of dts s in
      let m = length pre in
      let dones = replicate m done in
      let m_eq = sym (length-replicate m done) in
      let r = replace_one dts pre t ts q bytes s h i b in
      let states = r.states_eq ∙ set_waiting p.states dones (length ts) m h.states_eq m_eq in
      let skip =
        skip-Beyond w c ts (m + 1) r.after (dones ++ done ∷ []) i.is_chunk
          (subst (λ n. Beyond (n + length bytes) ts) (sym h.cur_eq) b)
          (omega (arith, m_eq, length-append dones (done ∷ [])))
          (states ∙ sym (append_assoc dones (done ∷ []) (replicate (length ts) waiting))) in
      record {
        after = r.after;
        runs =
            visit_one w a c m t ts p r.after
              (get_waiting p.states dones (length ts) m h.states_eq m_eq) r.runs
            ∙ skip;
        wrote_bytes =
            subst (Wrote w a p r.after)
              (ap (λ x. between c q t ++ (t.bytes ++ x)) (sym (behind_again c q t i))
                ∙ ap (splice q (t ∷ [])) (from_start dts pre (t ∷ ts) q bytes h))
              r.wrote_bytes;
        states_eq =
            states
            ∙ sym (append_assoc dones (done ∷ []) (replicate (length ts) waiting))
            ∙ ap (λ l. l ++ replicate (length ts) waiting) (replicate-append m 1 done);
        is_written = r.is_written;
      }

  -- All tags that wait are in the data.
  pub complete_all :
      (dts : DataTags) (pre : List DataTag) (t : DataTag) (ts : List DataTag) (q : ℕ)
      (bytes : Bytes) (s : Sink)
      → At dts pre (t ∷ ts) q
      → Fits (chunk_of dts bytes) q (t ∷ ts)
      → Completes w a
          (chunk_of dts bytes)
          (length pre)
          (t ∷ ts)
          (progress_of dts s)
          (splice q (t ∷ ts) bytes)
          (progress_states (length pre + suc (length ts)) 0)
  complete_all dts pre t ts q bytes s h fits =
      let m = length pre in
      let dones = replicate m done in
      let r =
        visit_all-Fits w a ts t pre dones (chunk_of dts bytes) m q (progress_of dts s) h.slice_eq
          refl (sym (length-replicate m done)) h.states_eq (ap pos (omega (arith, h.prev_eq)))
          fits in
      record {
        after = r.after;
        runs = r.runs;
        wrote_bytes =
            subst (Wrote w a (progress_of dts s) r.after)
              (ap (splice q (t ∷ ts)) (from_start dts pre (t ∷ ts) q bytes h)) r.wrote_bytes;
        states_eq = r.states_eq ∙ replicate-append m (suc (length ts)) done ∙ sym (append-nil _);
        is_written = r.is_written;
      }
