-- ===== src/EsiTag/DataTags/Pieces.antt =====
-- One piece of a stream that holds some tags whole, and what it leaves to the pieces behind it.
use mathlib.Core.Path.{subst}
use caddy_esi.Prelude.{
  ℕ, suc, ◌+◌, ◌-◌, ◌≤◌, ◌<◌, ◌≡◌, ◌≢◌, refl, sym, ap, ◌∙◌, ◌⊎◌, inl, inr, List, [], ◌∷◌, ◌++◌,
  arith, length, drop, append_assoc, append-nil, length-append, length-drop, take-append_le,
  drop-append_le, take-append_add, drop-append_add,
}
use caddy_esi.Prelude.Text.{Bytes}
use caddy_esi.Writer.{Writer, Appends}
use caddy_esi.EsiTag.DataTags.{DataTag, DataTags, Chunk}
use caddy_esi.EsiTag.DataTags.Inject.{inject_content, chunk_of, states_of}
use caddy_esi.EsiTag.DataTags.Splice.{splice}
use caddy_esi.EsiTag.DataTags.Fits.{Fits}
use caddy_esi.EsiTag.DataTags.Passes.{Beyond}
use caddy_esi.EsiTag.DataTags.Feed.{At, Feeds, progress_states, feed_some, feed_none}
use caddy_esi.EsiTag.DataTags.Complete.{complete_one, complete_all}

-- The tags `ts` stand between `lo` and `hi`, none begins at `lo`, and they are in order from `q` on.
abbrev pub Within : ℕ → ℕ → ℕ → List DataTag → Type 0
Within lo q hi [] = Unit
Within lo q hi (t ∷ ts) =
    (q ≤ t.start) × (lo < t.start) × (t.start < t.end) × (t.end ≤ hi) × Within lo t.end hi ts

splice-Beyond :
    (ts : List DataTag) (q : ℕ) (c rest : Bytes)
    → Beyond (q + length c) ts
    → splice q ts (c ++ rest) ≡ c ++ splice (q + length c) ts rest
unfolding splice
splice-Beyond [] q c rest b = refl
splice-Beyond (t ∷ ts) q c rest (h, e, _) =
    let s : t.start - q ≡ length c + (t.start - (q + length c)) = omega arith in
    let f : t.end - q ≡ length c + (t.end - (q + length c)) = omega arith in
    rw (s, f, take-append_add, drop-append_add, append_assoc)

-- The piece `c` holds the tags `xs`, and those of `ys` begin behind it.
pub splice-append :
    (xs ys : List DataTag) (lo q : ℕ) (c rest : Bytes)
    → Within lo q (q + length c) xs
    → Beyond (q + length c) ys
    → splice q (xs ++ ys) (c ++ rest) ≡ splice q xs c ++ splice (q + length c) ys rest
unfolding splice
splice-append [] ys lo q c rest i b = splice-Beyond ys q c rest b
splice-append (t ∷ xs) ys lo q c rest (h, l, e, k, i) b =
    let c' = drop (t.end - q) c in
    let n : t.end + length c' ≡ q + length c = omega (arith, length-drop (t.end - q) c) in
    let ih =
      splice-append xs ys lo t.end c' rest (subst (λ m. Within lo t.end m xs) (sym n) i)
        (subst (λ m. Beyond m ys) (sym n) b) in
    rw
      (
        take-append_le (t.start - q) c rest (omega arith),
        drop-append_le (t.end - q) c rest (omega arith),
        ih,
        n,
      )
      (simp append_assoc)

Within-Fits :
    (ts : List DataTag) (c : Chunk) (lo q hi : ℕ)
    → c.cur ≡ c.prev + length c.bytes
    → c.prev ≡ lo
    → c.cur ≡ hi
    → lo ≤ q
    → Within lo q hi ts
    → Fits c q ts
Within-Fits [] c lo q hi k l u h i = tt
Within-Fits (t ∷ ts) c lo q hi k l u h (a₁, a₂, a₃, a₄, i) = (
  record {
    is_chunk = k;
    prev_le = omega arith;
    before_le = a₁;
    prev_lt = omega arith;
    start_lt = a₃;
    end_le = omega arith;
  },
  Within-Fits ts c lo t.end hi k l u (omega arith) i,
)

module _ (w : Writer) (a : Appends w) where
  open w use {Sink}
  open a use {content}

  piece-Fits :
      (dts : DataTags) (pre ts xs : List DataTag) (q : ℕ) (c : Bytes)
      → At dts pre ts q
      → Within q q (q + length c) xs
      → Fits (chunk_of dts c) q xs
  piece-Fits dts pre ts xs q c h i =
      Within-Fits xs (chunk_of dts c) q q (q + length c) (omega (arith, h.prev_eq, h.cur_eq))
        h.prev_eq (omega (arith, h.cur_eq)) (omega arith) i

  not_empty :
      (t : DataTag) (q : ℕ) (c : Bytes)
      → q < t.start
      → t.start < t.end
      → t.end ≤ q + length c
      → c ≢ []
  not_empty t q c h k l e = absurd (omega (arith, ap length e))

  pub feed_rest :
      (dts : DataTags) (pre ts : List DataTag) (t : DataTag) (q : ℕ) (c : Bytes) (s : Sink)
      → At dts pre (t ∷ ts) q
      → dts.slice ≢ []
      → Within q q (q + length c) (t ∷ ts)
      → Feeds w a dts c s (splice q (t ∷ ts) c) (progress_states (length pre + suc (length ts)) 0)
  feed_rest dts pre ts t q c s h ne i =
      feed_some w a dts pre (t ∷ ts) q c (splice q (t ∷ ts) c) s _ h ne
        (not_empty t q c i.1 i.2 i.3)
        (complete_all w a dts pre t ts q c s h (piece-Fits dts pre (t ∷ ts) (t ∷ ts) q c h i))

  pub feed_piece :
      (xs : List DataTag) (dts : DataTags) (pre ys : List DataTag) (q : ℕ) (c : Bytes) (s : Sink)
      → At dts pre (xs ++ ys) q
      → dts.slice ≢ []
      → Within q q (q + length c) xs
      → Beyond (q + length c) ys
      → (length xs ≤ 1) ⊎ (ys ≡ [])
      → Feeds w a dts c s (splice q xs c) (progress_states (length pre + length xs) (length ys))
  feed_piece [] dts pre ys q c s h ne i b one =
      let e : length pre + 0 ≡ length pre = omega arith in
      rw e (unfold splice in feed_none w a dts pre ys q c s h ne b)
  feed_piece (t ∷ []) dts pre ys q c s h ne i b one =
      feed_some w a dts pre (t ∷ ys) q c (splice q (t ∷ []) c) s _ h ne
        (not_empty t q c i.1 i.2 i.3)
        (complete_one w a dts pre t ys q c s h (piece-Fits dts pre (t ∷ ys) (t ∷ []) q c h i).0 b)
  feed_piece (t ∷ t' ∷ xs) dts pre ys q c s h ne i b (inl short) = absurd (omega arith)
  feed_piece (t ∷ t' ∷ xs) dts pre ys q c s h ne i b (inr e) =
      let ts = t ∷ t' ∷ xs in
      let h' = subst (λ l. At dts pre l q) (ap (λ l. ts ++ l) e ∙ append-nil ts) h in
      subst (λ n. Feeds w a dts c s (splice q ts c) (progress_states (length pre + length ts) n))
        (ap length (sym e)) (feed_rest dts pre (t' ∷ xs) t q c s h' ne i)

  -- The stream behind the piece.
  pub next_At :
      (dts : DataTags) (pre xs ys : List DataTag) (q : ℕ) (c : Bytes) (s : Sink) (out : Bytes)
      → At dts pre (xs ++ ys) q
      → Feeds w a dts c s out (progress_states (length pre + length xs) (length ys))
      → At (inject_content w dts c s).tags (pre ++ xs) ys (q + length c)
  next_At dts pre xs ys q c s out h f = record {
    slice_eq = f.slice_same ∙ h.slice_eq ∙ sym (append_assoc pre xs ys);
    prev_eq = omega (arith, f.prev_next, h.prev_eq);
    cur_eq = omega (arith, f.cur_next, h.cur_eq);
    states_eq =
        ap (states_of (inject_content w dts c s).tags) f.states_next
        ∙ ap (λ n. progress_states n (length ys)) (sym (length-append pre xs));
  }
