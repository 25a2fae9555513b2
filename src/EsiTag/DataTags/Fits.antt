-- ===== src/EsiTag/DataTags/Fits.antt =====
-- The loop of `InjectContent` over the last tags of the page, where all of them lie in the data.
use mathlib.Core.Path.{ap₂, subst}
use caddy_esi.Prelude.{
  ℕ, suc, ◌+◌, ◌-◌, ◌≡◌, refl, sym, ap, ◌∙◌, true, false, List, [], ◌∷◌, ◌++◌, some, arith, length,
  drop, set, replicate, get_elem?, append_assoc, length-append, append-nil, ltb, drop-drop,
  get_elem?-append_length, get_elem?-length, set-append_length,
}
use caddy_esi.Prelude.Int.{pos}
use caddy_esi.Prelude.Text.{Bytes}
use caddy_esi.Writer.{Writer, Appends}
use caddy_esi.EsiTag.DataTags.{
  DataTag, WriteState, waiting, done, Chunk, next_tag_at, full_next_tag,
}
use caddy_esi.EsiTag.DataTags.Flags.{has_full_tag_inside}
use caddy_esi.EsiTag.DataTags.Inject.{Progress, next, visit_all, visit_waiting}
use caddy_esi.EsiTag.DataTags.Splice.{
  splice, Inside, between, behind, Wrote, Wrote-trans, visit_full_next, visit_full_last,
}

-- The tags lie in the data one behind the other, from position `q` on.
abbrev pub Fits : Chunk → ℕ → List DataTag → Type 0
Fits c q [] = Unit
Fits c q (t ∷ ts) = Inside c q t × Fits c t.end ts

pub full_next_tag_at :
    (c : Chunk) (pre : List DataTag) (t : DataTag) (ts : List DataTag) (n : ℕ)
    → c.slice ≡ pre ++ t ∷ ts
    → n ≡ length pre + 1
    → full_next_tag c n ≡ next_tag_at c (get_elem? ((pre ++ t ∷ []) ++ ts) (length (pre ++ t ∷ [])))
unfolding full_next_tag
full_next_tag_at c pre t ts n h e =
    let split : c.slice ≡ (pre ++ t ∷ []) ++ ts = h ∙ sym (append_assoc pre (t ∷ []) ts) in
    let l : n ≡ length (pre ++ t ∷ []) = omega (arith, length-append pre (t ∷ [])) in
    let b : ltb (length c.slice) n ≡ false =
      ground (arith, ap length split, length-append (pre ++ t ∷ []) ts, l) in
    rw b (ap (next_tag_at c) (ap₂ get_elem? split l))

pub ends_here :
    (c : Chunk) (pre : List DataTag) (t : DataTag)
    → next_tag_at c (get_elem? ((pre ++ t ∷ []) ++ []) (length (pre ++ t ∷ [])))
      ≡ record { rel_pos_start = pos (length c.bytes); has_next = true; is_last = true }
ends_here c pre t = ap (next_tag_at c) (
    ap (λ l. get_elem? l (length (pre ++ t ∷ []))) (append-nil (pre ++ t ∷ []))
    ∙ get_elem?-length (pre ++ t ∷ []))

-- What stands behind the tag, counted from `q`.
pub behind_again :
    (c : Chunk) (q : ℕ) (t : DataTag)
    → Inside c q t
    → drop (t.end - q) (drop (q - c.prev) c.bytes) ≡ behind c t
behind_again c q t i =
    let n : q - c.prev + (t.end - q) ≡ t.end - c.prev = omega arith in
    drop-drop (t.end - q) (q - c.prev) c.bytes ∙ ap (λ k. drop k c.bytes) n

regroup :
    (c : Chunk) (q : ℕ) (t : DataTag)
    → Inside c q t
    → (ts : List DataTag)
    → (between c q t ++ t.bytes) ++ splice t.end ts (behind c t)
      ≡ splice q (t ∷ ts) (drop (q - c.prev) c.bytes)
unfolding splice
regroup c q t i ts =
    append_assoc (between c q t) t.bytes (splice t.end ts (behind c t))
    ∙ ap (λ x. between c q t ++ (t.bytes ++ splice t.end ts x)) (sym (behind_again c q t i))

pub get_waiting :
    (states : List WriteState) (before : List WriteState) (k n : ℕ)
    → states ≡ before ++ replicate (suc k) waiting
    → n ≡ length before
    → get_elem? states n ≡ some waiting
get_waiting states before k n h e =
    ap₂ get_elem? h e ∙ get_elem?-append_length before waiting (replicate k waiting)

pub set_waiting :
    (states : List WriteState) (before : List WriteState) (k n : ℕ)
    → states ≡ before ++ replicate (suc k) waiting
    → n ≡ length before
    → set states n done ≡ before ++ done ∷ replicate k waiting
set_waiting states before k n h e =
    ap₂ (λ s m. set s m done) h e ∙ set-append_length before waiting done (replicate k waiting)

module _ (w : Writer) (a : Appends w) where
  open w use {Sink}

  -- The loop from tag number `di` on runs to its end and writes `bytes`.
  pub record Completes (c : Chunk) (di : ℕ) (ts : List DataTag) (p : Progress Sink) (bytes : Bytes)
      (states : List WriteState) : Type 0 where
    pub after : Progress Sink
    pub runs : visit_all w c di ts p ≡ next after
    pub wrote_bytes : Wrote w a p after bytes
    pub states_eq : after.states ≡ states
    pub is_written : after.tag_written ≡ true

  pub visit_one :
      (c : Chunk) (di : ℕ) (t : DataTag) (ts : List DataTag) (p p' : Progress Sink)
      → get_elem? p.states di ≡ some waiting
      → visit_waiting w c di t p ≡ next p'
      → visit_all w c di (t ∷ ts) p ≡ visit_all w c (di + 1) ts p'
  unfolding visit_all
  visit_one c di t ts p p' g r = rw (g, r)

  pub visit_all-Fits :
      (ts : List DataTag) (t : DataTag) (pre : List DataTag) (before : List WriteState) (c : Chunk)
      (di q : ℕ) (p : Progress Sink)
      → c.slice ≡ pre ++ t ∷ ts
      → di ≡ length pre
      → di ≡ length before
      → p.states ≡ before ++ replicate (suc (length ts)) waiting
      → p.prev_rel_pos_end ≡ pos (q - c.prev)
      → Fits c q (t ∷ ts)
      → Completes c di
          (t ∷ ts)
          p
          (splice q (t ∷ ts) (drop (q - c.prev) c.bytes))
          (before ++ replicate (suc (length ts)) done)
  unfolding splice
  visit_all-Fits [] t pre before c di q p s d b st h (i, _) =
      let last = full_next_tag_at c pre t [] (di + 1) s (omega arith) in
      let r = visit_full_last w a c di t p q i h (last ∙ ends_here c pre t) in
      record {
        after = r.after;
        runs =
            visit_one c di t [] p r.after (get_waiting p.states before 0 di st b) r.runs
            ∙ unfold visit_all in refl;
        wrote_bytes = rw (behind_again c q t i) r.wrote_bytes;
        states_eq = r.states_eq ∙ set_waiting p.states before 0 di st b;
        is_written = r.is_written;
      }
  visit_all-Fits (t' ∷ ts) t pre before c di q p s d b st h (i, (i', fs)) =
      let next_at =
        full_next_tag_at c pre t (t' ∷ ts) (di + 1) s (omega arith)
        ∙ ap (next_tag_at c) (get_elem?-append_length (pre ++ t ∷ []) t' ts) in
      let has = has_full_tag_inside c t' i'.is_chunk i'.prev_lt i'.start_lt i'.end_le in
      let r =
        visit_full_next w a c di t p q i h (ap (λ n. n.has_next) next_at ∙ has)
          (ap (λ n. n.is_last) next_at) in
      let ih =
        visit_all-Fits ts t' (pre ++ t ∷ []) (before ++ done ∷ []) c (di + 1) t.end r.after
          (s ∙ sym (append_assoc pre (t ∷ []) (t' ∷ ts)))
          (omega (arith, length-append pre (t ∷ [])))
          (omega (arith, length-append before (done ∷ [])))
          (r.states_eq
            ∙ set_waiting p.states before (suc (length ts)) di st b
            ∙ sym (append_assoc before (done ∷ []) (replicate (suc (length ts)) waiting)))
          r.ends (i', fs) in
      record {
        after = ih.after;
        runs =
            visit_one c di t (t' ∷ ts) p r.after
              (get_waiting p.states before (suc (length ts)) di st b) r.runs
            ∙ ih.runs;
        wrote_bytes = subst (Wrote w a p ih.after) (regroup c q t i (t' ∷ ts)) (
            Wrote-trans w a p r.after ih.after (between c q t ++ t.bytes)
              (splice t.end (t' ∷ ts) (behind c t)) r.wrote_bytes ih.wrote_bytes);
        states_eq =
            ih.states_eq ∙ append_assoc before (done ∷ []) (replicate (suc (length ts)) done);
        is_written = ih.is_written;
      }
