-- ===== src/EsiTag/DataTags/Splice.antt =====
-- What `InjectContent` is for: the bytes with the range of each tag replaced by the tag's content.
-- Steps of the loop on tags that lie wholly in the data, with a writer that appends.
use caddy_esi.Prelude.{
  ℕ, ◌+◌, ◌-◌, ◌≤◌, ◌<◌, ◌≡◌, refl, sym, ap, ◌∙◌, true, false, List, [], ◌∷◌, ◌++◌, some, arith,
  length, take, drop, set, append_assoc, length-append, length-drop, take_all,
}
use caddy_esi.Prelude.Int.{ℤ, pos}
use caddy_esi.Prelude.Text.{Bytes}
use caddy_esi.Writer.{Writer, Appends}
use caddy_esi.EsiTag.DataTags.{
  DataTag, done, Chunk, rel_pos_start, rel_pos_end, has_full_tag, full_next_tag, slice_of,
}
use caddy_esi.EsiTag.DataTags.Flags.{
  IsChunk, rel_pos_start_lem, rel_pos_end_lem, has_full_tag_inside, slice_of_range,
}
use caddy_esi.EsiTag.DataTags.Inject.{Progress, next, put, visit_waiting}

-- `bytes` stand at position `q` of the stream.
unfoldable pub splice : ℕ → List DataTag → Bytes → Bytes
splice q [] bytes = bytes
splice q (t ∷ ts) bytes =
    take (t.start - q) bytes ++ (t.bytes ++ splice t.end ts (drop (t.end - q) bytes))

-- A tag that lies in the data, behind position `q` up to which everything is written.
pub record Inside (c : Chunk) (q : ℕ) (t : DataTag) : Type 0 where
  pub is_chunk : IsChunk c
  pub prev_le : c.prev ≤ q
  pub before_le : q ≤ t.start
  pub prev_lt : c.prev < t.start
  pub start_lt : t.start < t.end
  pub end_le : t.end ≤ c.cur

-- The data between `q` and the tag, and the data behind the tag.
abbrev pub between : Chunk → ℕ → DataTag → Bytes
between c q t = take (t.start - q) (drop (q - c.prev) c.bytes)

abbrev pub behind : Chunk → DataTag → Bytes
behind c t = drop (t.end - c.prev) c.bytes

slice_between :
    (c : Chunk) (t : DataTag) (q : ℕ) (e : ℤ)
    → Inside c q t
    → e ≡ pos (q - c.prev)
    → slice_of c.bytes e (rel_pos_start c t) ≡ some (between c q t)
slice_between c t q e i h =
    let n : t.start - c.prev - (q - c.prev) ≡ t.start - q = omega arith in
    rw (
      h,
      rel_pos_start_lem c t (omega arith),
      slice_of_range c.bytes (q - c.prev) (t.start - c.prev) (omega arith) (omega arith),
      n,
    )

slice_behind :
    (c : Chunk) (t : DataTag) (q : ℕ)
    → Inside c q t
    → slice_of c.bytes (rel_pos_end c t) (pos (length c.bytes)) ≡ some (behind c t)
slice_behind c t q i =
    let n : length (behind c t) ≤ length c.bytes - (t.end - c.prev) =
      omega (arith, length-drop (t.end - c.prev) c.bytes) in
    rw (
      rel_pos_end_lem c t i.is_chunk (omega arith),
      slice_of_range c.bytes (t.end - c.prev) (length c.bytes) (omega arith) (omega arith),
      take_all _ (behind c t) n,
    )

module _ (w : Writer) (a : Appends w) where
  open w use {Sink, write}
  open a use {content, write_content, write_count, write_failed}

  unfoldable pub wrote : Progress Sink → Bytes → Progress Sink
  wrote p bytes = record p {
    sink = (write p.sink bytes).sink;
    n_written = p.n_written + (write p.sink bytes).count;
  }

  pub put-some : (p : Progress Sink) (bytes : Bytes) → put w p (some bytes) ≡ next (wrote p bytes)
  unfolding wrote
  put-some p bytes = rw (write_failed p.sink bytes)

  -- `p'` comes from `p` by writing `bytes`, and nothing else is said of it but its write states.
  pub record Wrote (p p' : Progress Sink) (bytes : Bytes) : Type 0 where
    pub wrote_content : content p'.sink ≡ content p.sink ++ bytes
    pub wrote_count : p'.n_written ≡ p.n_written + length bytes

  pub wrote-Wrote : (p : Progress Sink) (bytes : Bytes) → Wrote p (wrote p bytes) bytes
  unfolding wrote
  wrote-Wrote p bytes = record {
    wrote_content = write_content p.sink bytes;
    wrote_count = omega (arith, write_count p.sink bytes);
  }

  pub Wrote-trans :
      (p q r : Progress Sink) (x y : Bytes) → Wrote p q x → Wrote q r y → Wrote p r (x ++ y)
  Wrote-trans p q r x y h k = record {
    wrote_content =
        k.wrote_content ∙ ap (λ c. c ++ y) h.wrote_content ∙ append_assoc (content p.sink) x y;
    wrote_count = omega (arith, h.wrote_count, k.wrote_count, length-append x y);
  }

  -- `Wrote` looks at the sink and the count alone.
  pub as_Wrote :
      {p q : Progress Sink} (r : Progress Sink) {x : Bytes}
      → Wrote p q x
      → q.sink ≡ r.sink
      → q.n_written ≡ r.n_written
      → Wrote p r x
  as_Wrote r h s n = record {
    wrote_content = ap content (sym s) ∙ h.wrote_content;
    wrote_count = sym n ∙ h.wrote_count;
  }

  pub wrote_two : (p : Progress Sink) (x y : Bytes) → Wrote p (wrote (wrote p x) y) (x ++ y)
  wrote_two p x y =
      Wrote-trans p (wrote p x) (wrote (wrote p x) y) x y (wrote-Wrote p x)
        (wrote-Wrote (wrote p x) y)

  wrote_three :
      (p : Progress Sink) (x y z : Bytes) → Wrote p (wrote (wrote (wrote p x) y) z) (x ++ (y ++ z))
  wrote_three p x y z =
      Wrote-trans p (wrote p x) (wrote (wrote (wrote p x) y) z) x (y ++ z) (wrote-Wrote p x)
        (wrote_two (wrote p x) y z)

  -- A step of the loop that replaces tag number `di`, writes `bytes`, and ends at `end`.
  pub record Replaces (c : Chunk) (di : ℕ) (t : DataTag) (p : Progress Sink) (bytes : Bytes)
      : Type 0 where
    pub after : Progress Sink
    pub runs : visit_waiting w c di t p ≡ next after
    pub wrote_bytes : Wrote p after bytes
    pub ends : after.prev_rel_pos_end ≡ pos (t.end - c.prev)
    pub states_eq : after.states ≡ set p.states di done
    pub is_written : after.tag_written ≡ true

  module _ (c : Chunk) (di : ℕ) (t : DataTag) (p : Progress Sink) (q : ℕ) (i : Inside c q t) where
    full : has_full_tag c t ≡ true
    full = has_full_tag_inside c t i.is_chunk i.prev_lt i.start_lt i.end_le

    ends_at : rel_pos_end c t ≡ pos (t.end - c.prev)
    ends_at = rel_pos_end_lem c t i.is_chunk (omega arith)

    -- The next tag is in the data too.
    pub visit_full_next :
        p.prev_rel_pos_end ≡ pos (q - c.prev)
        → (full_next_tag c (di + 1)).has_next ≡ true
        → (full_next_tag c (di + 1)).is_last ≡ false
        → Replaces c di t p (between c q t ++ t.bytes)
    unfolding visit_waiting
    visit_full_next h has last =
        let b = between c q t in
        record {
          after = record (wrote (wrote p b) t.bytes) {
            states = set p.states di done;
            prev_rel_pos_end = rel_pos_end c t;
            tag_written = true;
          };
          runs =
              unfold wrote in
              simp (full, has, last, slice_between c t q p.prev_rel_pos_end i h, write_failed);
          wrote_bytes = as_Wrote _ (wrote_two p b t.bytes) refl refl;
          ends = ends_at;
          states_eq = refl;
          is_written = refl;
        }

    -- There is no next tag.
    pub visit_full_last :
        p.prev_rel_pos_end ≡ pos (q - c.prev)
        → full_next_tag c (di + 1)
          ≡ record { rel_pos_start = pos (length c.bytes); has_next = true; is_last = true }
        → Replaces c di t p (between c q t ++ (t.bytes ++ behind c t))
    unfolding visit_waiting
    visit_full_last h last =
        let b = between c q t in
        record {
          after = record (wrote (wrote (wrote p b) t.bytes) (behind c t)) {
            states = set p.states di done;
            prev_rel_pos_end = rel_pos_end c t;
            tag_written = true;
          };
          runs =
              unfold wrote in
              simp (
                full,
                last,
                slice_between c t q p.prev_rel_pos_end i h,
                slice_behind c t q i,
                write_failed,
              );
          wrote_bytes = as_Wrote _ (wrote_three p b t.bytes (behind c t)) refl refl;
          ends = ends_at;
          states_eq = refl;
          is_written = refl;
        }

    -- The next tag is not wholly in the data: what stands before this one is written from the
    -- beginning of the data.
    pub visit_full_alone :
        q ≡ c.prev
        → (full_next_tag c (di + 1)).has_next ≡ false
        → Replaces c di t p (between c q t ++ (t.bytes ++ behind c t))
    unfolding visit_waiting
    visit_full_alone h none_next =
        let b = between c q t in
        let z : pos 0 ≡ pos (q - c.prev) = ap pos (omega arith) in
        record {
          after = record (wrote (wrote (wrote p b) t.bytes) (behind c t)) {
            states = set p.states di done;
            prev_rel_pos_end = rel_pos_end c t;
            tag_written = true;
          };
          runs =
              unfold wrote in
              simp (
                full,
                none_next,
                slice_between c t q (pos 0) i z,
                slice_behind c t q i,
                write_failed,
              );
          wrote_bytes = as_Wrote _ (wrote_three p b t.bytes (behind c t)) refl refl;
          ends = ends_at;
          states_eq = refl;
          is_written = refl;
        }
