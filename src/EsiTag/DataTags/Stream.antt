-- ===== src/EsiTag/DataTags/Stream.antt =====
-- `InjectContent` called once for each piece of a stream, as the response writer calls it.
use mathlib.Core.Path.{subst}
use mathlib.Core.List.{flatten, cons-ne-nil}
use caddy_esi.Prelude.{
  ℕ, ◌+◌, ◌≤◌, ◌≡◌, ◌≢◌, refl, sym, ap, ◌∙◌, ◌⊎◌, List, [], ◌∷◌, ◌++◌, some, none, arith, length,
  append_assoc, append-nil, length-append,
}
use caddy_esi.Prelude.Text.{Bytes}
use caddy_esi.Writer.{Writer, Appends}
use caddy_esi.EsiTag.DataTags.{DataTag, DataTags, WriteState}
use caddy_esi.EsiTag.DataTags.Inject.{inject_content, inject_nothing, Injected, states_of}
use caddy_esi.EsiTag.DataTags.Splice.{splice}
use caddy_esi.EsiTag.DataTags.Passes.{Beyond}
use caddy_esi.EsiTag.DataTags.Feed.{At, Feeds, inject_untagged}
use caddy_esi.EsiTag.DataTags.Pieces.{Within, splice-append, feed_rest, feed_piece, next_At}

-- How the pieces may cut a page whose tags are `ts`, from position `q` on: each piece holds some
-- tags whole, and the other tags begin behind it. It holds one tag at most, unless it holds all
-- that are left, and no tag begins at the first byte of a piece.
pub data Delivered : ℕ → List DataTag → List Bytes → Type 0 where
  finished : {q : ℕ} → Delivered q [] []
  piece :
      {q : ℕ} {ts : List DataTag} {c : Bytes} {cs : List Bytes} (xs ys : List DataTag)
      → ts ≡ xs ++ ys
      → Within q q (q + length c) xs
      → Beyond (q + length c) ys
      → (length xs ≤ 1) ⊎ (ys ≡ [])
      → Delivered (q + length c) ys cs
      → Delivered q ts (c ∷ cs)

-- Tags that no call has seen yet.
pub record IsFresh (dts : DataTags) : Type 0 where
  pub prev_zero : dts.stream_prev ≡ 0
  pub cur_zero : dts.stream_cur ≡ 0
  pub no_states : dts.write_states ≡ none

-- A run of calls, one for each piece, up to the first that fails.
module _ (w : Writer) where
  open w use {Sink}

  abbrev pub then_more : Injected Sink → Injected Sink → Injected Sink
  then_more r more = record more { n_written = r.n_written + more.n_written }

  unfoldable pub inject_pieces : List Bytes → DataTags → Sink → Injected Sink
  inject_pieces [] dts s = record { tags = dts; sink = s; n_written = 0; failure = none }
  inject_pieces (c ∷ cs) dts s =
      let r = inject_content w dts c s in
      elim r.failure [ some e ↦ r | none ↦ then_more r (inject_pieces cs r.tags r.sink) ]

module _ (w : Writer) (a : Appends w) where
  open w use {Sink}
  open a use {content}

  inject_more :
      (dts : DataTags) (c : Bytes) (cs : List Bytes) (s : Sink)
      → (inject_content w dts c s).failure ≡ none
      → let r = inject_content w dts c s in
        inject_pieces w (c ∷ cs) dts s ≡ then_more w r (inject_pieces w cs r.tags r.sink)
  unfolding inject_pieces
  inject_more dts c cs s h = rw (h, inject_pieces)

  -- All calls succeed, and together they have written `out`.
  pub record Delivers (r : Injected Sink) (s : Sink) (out : Bytes) : Type 0 where
    pub no_failure : r.failure ≡ none
    pub content_eq : content r.sink ≡ content s ++ out
    pub count_eq : r.n_written ≡ length out

  -- A call that succeeds, and those behind it.
  pub deliver_more :
      (dts : DataTags) (c : Bytes) (cs : List Bytes) (s : Sink) (out more : Bytes)
      {states : List WriteState}
      → Feeds w a dts c s out states
      → let r = inject_content w dts c s in
        Delivers (inject_pieces w cs r.tags r.sink) r.sink more
        → Delivers (inject_pieces w (c ∷ cs) dts s) s (out ++ more)
  deliver_more dts c cs s out more f d =
      let run = inject_more dts c cs s f.no_failure in
      record {
        no_failure = ap (λ x. x.failure) run ∙ d.no_failure;
        content_eq =
            ap (λ x. content x.sink) run
            ∙ d.content_eq
            ∙ ap (λ x. x ++ more) f.content_eq
            ∙ append_assoc (content s) out more;
        count_eq =
            ap (λ x. x.n_written) run
            ∙ omega (arith, f.count_eq, d.count_eq, length-append out more);
      }

  inject_pieces-At :
      (cs : List Bytes) (dts : DataTags) (pre ts : List DataTag) (q : ℕ) (s : Sink)
      → At dts pre ts q
      → dts.slice ≢ []
      → Delivered q ts cs
      → Delivers (inject_pieces w cs dts s) s (splice q ts (flatten cs))
  unfolding splice inject_pieces flatten
  inject_pieces-At [] dts pre ts q s h ne finished = record {
    no_failure = refl;
    content_eq = sym (append-nil (content s));
    count_eq = refl;
  }
  inject_pieces-At (c ∷ cs) dts pre ts q s h ne (piece xs ys e i b one d) =
      let r = inject_content w dts c s in
      let h' = subst (λ l. At dts pre l q) e h in
      let f = feed_piece w a xs dts pre ys q c s h' ne i b one in
      let ih =
        inject_pieces-At cs r.tags (pre ++ xs) ys (q + length c) r.sink
          (next_At w a dts pre xs ys q c s (splice q xs c) h' f) (λ n. ne (sym f.slice_same ∙ n))
          d in
      let spliced : splice q xs c ++ splice (q + length c) ys (flatten cs)
          ≡ splice q ts (c ++ flatten cs) =
        sym (splice-append xs ys q q c (flatten cs) i b)
        ∙ ap (λ l. splice q l (c ++ flatten cs)) (sym e) in
      subst (Delivers (inject_pieces w (c ∷ cs) dts s) s) spliced
        (deliver_more dts c cs s (splice q xs c) (splice (q + length c) ys (flatten cs)) f ih)

  pub fresh-At : (dts : DataTags) → IsFresh dts → At dts [] dts.slice 0
  fresh-At dts f = record {
    slice_eq = refl;
    prev_eq = f.prev_zero;
    cur_eq = f.cur_zero;
    states_eq = ap (states_of dts) f.no_states;
  }

  -- If the pieces of the stream hold the tags as `Delivered` says and the writer takes all writes,
  -- then no call fails, the bytes written are the whole stream with the range of each tag replaced
  -- by the tag's content, and the reported numbers add up to their length.
  pub inject_pieces-splice :
      (cs : List Bytes) (dts : DataTags) (s : Sink)
      → IsFresh dts
      → dts.slice ≢ []
      → Delivered 0 dts.slice cs
      → Delivers (inject_pieces w cs dts s) s (splice 0 dts.slice (flatten cs))
  inject_pieces-splice cs dts s f ne d =
      inject_pieces-At cs dts [] dts.slice 0 s (fresh-At dts f) ne d

  inject_whole :
      (ts : List DataTag) (dts : DataTags) (bytes : Bytes) (s : Sink)
      → dts.slice ≡ ts
      → IsFresh dts
      → Within 0 0 (length bytes) ts
      → Delivers (inject_content w dts bytes s) s (splice 0 ts bytes)
  unfolding inject_nothing splice
  inject_whole [] dts bytes s e f i =
      let r = inject_untagged w a dts bytes s e in
      record {
        no_failure = ap (λ x. x.failure) r ∙ rw (a.write_failed s bytes);
        content_eq = ap (λ x. content x.sink) r ∙ a.write_content s bytes;
        count_eq = ap (λ x. x.n_written) r ∙ a.write_count s bytes;
      }
  inject_whole (t ∷ ts) dts bytes s e f i =
      let h : At dts [] (t ∷ ts) 0 = subst (λ l. At dts [] l 0) e (fresh-At dts f) in
      let n : length bytes ≡ 0 + length bytes = omega arith in
      let r =
        feed_rest w a dts [] ts t 0 bytes s h (λ x. cons-ne-nil t ts (sym e ∙ x))
          (subst (λ m. Within 0 0 m (t ∷ ts)) n i) in
      record { no_failure = r.no_failure; content_eq = r.content_eq; count_eq = r.count_eq }

  -- For a first call with the whole page, as `serveBuffered` makes it, whose tags lie in the page in order and none at
  -- its first byte, and a writer that takes all writes: the call does not fail, the page is written with the range
  -- of each tag replaced by the tag's content, and the number of its bytes is reported.
  pub inject_content-splice :
      (dts : DataTags) (bytes : Bytes) (s : Sink)
      → IsFresh dts
      → Within 0 0 (length bytes) dts.slice
      → Delivers (inject_content w dts bytes s) s (splice 0 dts.slice bytes)
  inject_content-splice dts bytes s f i = inject_whole dts.slice dts bytes s refl f i
