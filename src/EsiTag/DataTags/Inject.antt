-- ===== src/EsiTag/DataTags/Inject.antt =====
-- esitag/data_tag.go, `InjectContent`. The receiver is a pointer, so the tags after the call are part
-- of the result also where it stops early. A write adds to `nWritten` only if it succeeds, but for
-- the first and the last write of the function, which copy the data as they came.
use caddy_esi.Prelude.{
  ℕ, ◌+◌, Bool, true, false, List, [], ◌∷◌, Option, none, some, ◌==◌, ◌||◌, if◌then◌else◌, length,
  get_elem?, set, replicate,
}
use caddy_esi.Prelude.Int.{ℤ, pos}
use caddy_esi.Prelude.Text.{Bytes}
use caddy_esi.Writer.{Writer}
use caddy_esi.EsiTag.DataTags.{
  DataTag, WriteState, waiting, in_progress, done, DataTags, Chunk, rel_pos_start, rel_pos_end,
  has_pos_start, has_pos_end, has_full_tag, NextTag, full_next_tag, slice_of,
}

-- `out_of_range` is the run-time panic of an index or a slice expression.
pub data Failure : Type 0 where
  write_failed out_of_range : Failure

-- The local variables of the loop that change, with the write states and the writer.
pub record Progress (S : Type 0) : Type 0 where
  pub tag_written : Bool
  pub prev_rel_pos_end : ℤ
  pub n_written : ℕ
  pub states : List WriteState
  pub sink : S

pub data Step (S : Type 0) : Type 0 where
  next : Progress S → Step S
  stop : Progress S → Failure → Step S

infixl 5 ◌>>=◌
abbrev pub ◌>>=◌ : {S : Type 0} → Step S → (Progress S → Step S) → Step S
next p >>= f = f p
stop p e >>= f = stop p e

-- What `InjectContent` returns, with the receiver and the writer behind the call.
pub record Injected (S : Type 0) : Type 0 where
  pub tags : DataTags
  pub sink : S
  pub n_written : ℕ
  pub failure : Option Failure

abbrev pub states_of : DataTags → Option (List WriteState) → List WriteState
states_of dts none = replicate (length dts.slice) waiting
states_of dts (some states) = states

-- The variables of the loop before its first round; `streamCur` is advanced already.
abbrev pub chunk_of : DataTags → Bytes → Chunk
chunk_of dts bytes = record {
  slice = dts.slice;
  prev = dts.stream_prev;
  cur = dts.stream_cur + length bytes;
  bytes = bytes;
}

abbrev pub progress_of : {S : Type 0} → DataTags → S → Progress S
progress_of dts s = record {
  tag_written = false;
  prev_rel_pos_end = pos 0;
  n_written = 0;
  states = states_of dts dts.write_states;
  sink = s;
}

module _ (w : Writer) where
  open w use {Sink, write}

  -- `wn, err := w.Write(…); if err != nil { return … }; nWritten += wn`.
  abbrev pub put : Progress Sink → Option Bytes → Step Sink
  put p none = stop p out_of_range
  put p (some bytes) =
      let r = write p.sink bytes in
      if r.failed
      then stop (record p { sink = r.sink }) write_failed
      else next (record p { sink = r.sink; n_written = p.n_written + r.count })

  abbrev pub finished : ℕ → WriteState → ℤ → Progress Sink → Step Sink
  finished di s e p =
      next (record p { states = set p.states di s; prev_rel_pos_end = e; tag_written = true })

  -- `case hasFullTagInData` where the next tag is in the data too, or there is none.
  unfoldable pub full_and_next : Chunk → ℕ → DataTag → NextTag → Progress Sink → Step Sink
  full_and_next c di t n p = do
    p₁ ← put p (slice_of c.bytes p.prev_rel_pos_end (rel_pos_start c t))
    p₂ ← put p₁ (some t.bytes)
    p₃ ← if n.is_last then put p₂ (slice_of c.bytes (rel_pos_end c t) n.rel_pos_start) else next p₂
    finished di done (rel_pos_end c t) p₃

  -- `case hasFullTagInData` where the next tag is not in the data.
  unfoldable pub full_alone : Chunk → ℕ → DataTag → Progress Sink → Step Sink
  full_alone c di t p = do
    p₁ ← put p (slice_of c.bytes (pos 0) (rel_pos_start c t))
    p₂ ← put p₁ (some t.bytes)
    p₃ ← put p₂ (slice_of c.bytes (rel_pos_end c t) (pos (length c.bytes)))
    finished di done (rel_pos_end c t) p₃

  -- `case hasPosStartInData`.
  unfoldable pub start_only : Chunk → ℕ → DataTag → Progress Sink → Step Sink
  start_only c di t p = do
    p₁ ← put p (slice_of c.bytes (pos 0) (rel_pos_start c t))
    p₂ ← put p₁ (some t.bytes)
    finished di in_progress p₂.prev_rel_pos_end p₂

  -- `if hasPosEndInData`, in `case writeStateProgress`.
  unfoldable pub end_only : Chunk → ℕ → DataTag → Progress Sink → Step Sink
  end_only c di t p = do
    p₁ ← put p (slice_of c.bytes (rel_pos_end c t) (pos (length c.bytes)))
    finished di done p₁.prev_rel_pos_end p₁

  unfoldable pub visit_waiting : Chunk → ℕ → DataTag → Progress Sink → Step Sink
  unfolding full_and_next full_alone start_only
  visit_waiting c di t p =
      if has_full_tag c t
      then (let n = full_next_tag c (di + 1) in
          if n.has_next then full_and_next c di t n p else full_alone c di t p)
      else if has_pos_start c t
      then start_only c di t p
      else next p

  unfoldable pub visit_in_progress : Chunk → ℕ → DataTag → Progress Sink → Step Sink
  unfolding end_only
  visit_in_progress c di t p =
      if has_pos_end c t then end_only c di t p else next (record p { tag_written = true })

  -- `switch dts.writeStates[di]`; `none` is an index out of range.
  abbrev pub visit : Option WriteState → Chunk → ℕ → DataTag → Progress Sink → Step Sink
  visit none c di t p = stop p out_of_range
  visit (some done) c di t p = next p
  visit (some in_progress) c di t p = visit_in_progress c di t p
  visit (some waiting) c di t p = visit_waiting c di t p

  -- `for di, dt := range dts.Slice`.
  unfoldable pub visit_all : Chunk → ℕ → List DataTag → Progress Sink → Step Sink
  visit_all c di [] p = next p
  visit_all c di (t ∷ ts) p = do
    p' ← visit (get_elem? p.states di) c di t p
    visit_all c (di + 1) ts p'

  -- The end of the function: nothing was written, so the data are copied as they are.
  abbrev pub copy_rest : Bytes → Progress Sink → Step Sink
  copy_rest bytes p =
      let r = write p.sink bytes in
      let p' = record p { sink = r.sink; n_written = p.n_written + r.count } in
      if p.tag_written then next p else if r.failed then stop p' write_failed else next p'

  abbrev pub returns : DataTags → ℕ → Step Sink → Injected Sink
  returns dts cur (next p) = record {
    tags = record dts {
      stream_prev = dts.stream_prev + cur;
      stream_cur = dts.stream_cur + cur;
      write_states = some p.states;
    };
    sink = p.sink;
    n_written = p.n_written;
    failure = none;
  }
  returns dts cur (stop p e) = record {
    tags = record dts { stream_cur = dts.stream_cur + cur; write_states = some p.states };
    sink = p.sink;
    n_written = p.n_written;
    failure = some e;
  }

  -- No tag, or no data: the data are copied, and the stream positions stay.
  unfoldable pub inject_nothing : DataTags → Bytes → Sink → Injected Sink
  inject_nothing dts bytes s =
      let r = write s bytes in
      record {
        tags = record dts { write_states = some (states_of dts dts.write_states) };
        sink = r.sink;
        n_written = r.count;
        failure = if r.failed then some write_failed else none;
      }

  unfoldable pub inject_some : DataTags → Bytes → Sink → Injected Sink
  inject_some dts bytes s =
      returns dts (length bytes)
        (visit_all (chunk_of dts bytes) 0 dts.slice (progress_of dts s) >>= copy_rest bytes)

  unfoldable pub inject_content : DataTags → Bytes → Sink → Injected Sink
  unfolding inject_nothing inject_some
  inject_content dts bytes s =
      if length dts.slice == 0 || length bytes == 0
      then inject_nothing dts bytes s
      else inject_some dts bytes s
