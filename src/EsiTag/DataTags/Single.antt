-- ===== src/EsiTag/DataTags/Single.antt =====
-- One call of `InjectContent` for a single tag, on the branches on which the tag is not wholly inside the
-- data.
use mathlib.Core.List.{cons-ne-nil}
use caddy_esi.Prelude.{
  ℕ, ◌≤◌, ◌<◌, ◌≡◌, ◌≢◌, refl, sym, ap, ◌∙◌, true, false, [], ◌∷◌, some, arith, length, replicate,
  ◌⊎◌, get_elem?,
}
use caddy_esi.Prelude.Text.{Bytes}
use caddy_esi.Writer.{Writer, Appends}
use caddy_esi.EsiTag.DataTags.{
  DataTag, WriteState, waiting, in_progress, DataTags, Chunk, has_full_tag, has_pos_start,
  has_pos_end,
}
use caddy_esi.EsiTag.DataTags.Flags.{IsChunk}
use caddy_esi.EsiTag.DataTags.Inject.{
  Progress, Step, next, ◌>>=◌, stop, visit, states_of, visit_all, chunk_of, progress_of, copy_rest,
  returns,
}
use caddy_esi.EsiTag.DataTags.Splice.{Wrote}
use caddy_esi.EsiTag.DataTags.Feed.{Feeds, feed, inject_tags}
use caddy_esi.EsiTag.DataTags.Stream.{IsFresh}

-- A tag that begins where the data begin is not seen.
pub has_full_tag_first : (c : Chunk) (t : DataTag) → t.start ≡ c.prev → has_full_tag c t ≡ false
unfolding has_full_tag
has_full_tag_first c t h = ground arith

pub has_pos_start_within :
    (c : Chunk) (t : DataTag) → IsChunk c → t.end ≤ c.cur → has_pos_start c t ≡ false
unfolding has_pos_start
has_pos_start_within c t k h = ground arith

pub has_pos_end_past :
    (c : Chunk) (t : DataTag)
    → IsChunk c
    → (t.end ≤ c.prev) ⊎ (t.end ≡ c.cur)
    → has_pos_end c t ≡ false
unfolding has_pos_end
has_pos_end_past c t k h = ground arith

pub has_pos_start_across :
    (c : Chunk) (t : DataTag)
    → IsChunk c
    → c.prev ≤ t.start
    → t.start < c.cur
    → c.cur < t.end
    → has_pos_start c t ≡ true
unfolding has_pos_start
has_pos_start_across c t k a b d = ground arith

pub bind_next : {S : Type 0} (m : Step S) (f : Progress S → Step S) → (m >>= next >>= f) ≡ (m >>= f)
bind_next (next p) f = refl
bind_next (stop p x) f = refl

pub fresh_states :
    (dts : DataTags) (t : DataTag)
    → IsFresh dts
    → dts.slice ≡ t ∷ []
    → states_of dts dts.write_states ≡ waiting ∷ []
fresh_states dts t f e = ap (states_of dts) f.no_states ∙ ap (λ l. replicate (length l) waiting) e

-- The only tag of the page is in progress, and the stream is at `q`.
pub record IsOpen (dts : DataTags) (t : DataTag) (q : ℕ) : Type 0 where
  pub slice_eq : dts.slice ≡ t ∷ []
  pub prev_eq : dts.stream_prev ≡ q
  pub cur_eq : dts.stream_cur ≡ q
  pub states_eq : dts.write_states ≡ some (in_progress ∷ [])

module _ (w : Writer) (a : Appends w) where
  open w use {Sink}
  open a use {content}

  -- The round of the only tag of a page.
  pub visit_single :
      (dts : DataTags) (t : DataTag) (bytes : Bytes) (s : Sink) (state : WriteState) (m : Step Sink)
      → dts.slice ≡ t ∷ []
      → states_of dts dts.write_states ≡ state ∷ []
      → visit w (some state) (chunk_of dts bytes) 0 t (progress_of dts s) ≡ m
      → visit_all w (chunk_of dts bytes) 0 dts.slice (progress_of dts s) ≡ (m >>= next)
  unfolding visit_all
  visit_single dts t bytes s state m e g h =
      let c = chunk_of dts bytes in
      let p = progress_of dts s in
      ap (λ l. visit_all w c 0 l p) e
      ∙ ap (λ o. visit w o c 0 t p >>= next) (ap (λ l. get_elem? l 0) g)
      ∙ ap (λ x. x >>= next) h

  -- The whole call on the only tag of a page.
  pub feed_single :
      (dts : DataTags) (t : DataTag) (bytes out : Bytes) (s : Sink) (state : WriteState)
      (p : Progress Sink)
      → dts.slice ≡ t ∷ []
      → bytes ≢ []
      → states_of dts dts.write_states ≡ state ∷ []
      → (visit w (some state) (chunk_of dts bytes) 0 t (progress_of dts s) >>= copy_rest w bytes)
        ≡ next p
      → Wrote w a (progress_of dts s) p out
      → Feeds w a dts bytes s out p.states
  feed_single dts t bytes out s state p e nb g run wr =
      let v = visit_single dts t bytes s state _ e g refl in
      feed w a dts bytes out s p.states p
        (inject_tags w a dts bytes s (λ x. cons-ne-nil t [] (sym e ∙ x)) nb
          ∙ ap (returns w dts (length bytes)) (
              ap (λ m. m >>= copy_rest w bytes) v
              ∙ bind_next (visit w (some state) (chunk_of dts bytes) 0 t (progress_of dts s))
                  (copy_rest w bytes)
              ∙ run))
        wr refl
