-- ===== src/EsiTag/DataTags.antt =====
-- esitag/data_tag.go: `DataTag`, `DataTags` and the injection of contents into a byte stream.
-- `Start` and `End` are positions that the finder counted, and the stream positions add lengths up,
-- so they are native numbers; positions relative to the current data may be negative, and are ℤ.
-- An io.Writer is not part of the program: it is a parameter, a record of one operation.

pub mod Inject
pub mod Flags
pub mod Splice
pub mod Fits
pub mod Passes
pub mod Feed
pub mod Complete
pub mod Pieces
pub mod Stream
pub mod Length
mod Single
pub mod Limits
pub mod Writes
use caddy_esi.Prelude.{
  ℕ, Bool, true, false, ◌&&◌, List, [], ◌∷◌, Option, none, some, ltb, leb, if◌then◌else◌, length,
  take, drop, ◌-◌, get_elem?, replicate,
}
use caddy_esi.Prelude.Int.{ℤ, pos, sub_ℕ, ltb_ℤ, leb_ℤ, ◌+ℤ◌, ◌-ℤ◌}
use caddy_esi.Prelude.Text.{Bytes}

pub record DataTag : Type 0 where
  pub bytes : Bytes
  pub start : ℕ
  pub end : ℕ

pub data WriteState : Type 0 where
  waiting in_progress done : WriteState

-- `write_states` is `none` where the Go slice is nil.
pub record DataTags : Type 0 where
  pub slice : List DataTag
  pub stream_prev : ℕ
  pub stream_cur : ℕ
  pub write_states : Option (List WriteState)

-- The capacity is only a hint for the allocation.
abbrev pub new_data_tags_capped : ℕ → DataTags
new_data_tags_capped cap = record {
  slice = [];
  stream_prev = 0;
  stream_cur = 0;
  write_states = none;
}

abbrev restart : Option (List WriteState) → Option (List WriteState)
restart none = none
restart (some states) = some (replicate (length states) waiting)

unfoldable pub reset_states : DataTags → DataTags
reset_states dts = record dts {
  stream_prev = 0;
  stream_cur = 0;
  write_states = restart dts.write_states;
}

-- The sum over `len(Data) - (End - Start)`; it may be negative.
unfoldable pub data_len : List DataTag → ℤ
data_len [] = pos 0
data_len (t ∷ ts) = pos (length t.bytes) -ℤ sub_ℕ t.end t.start +ℤ data_len ts

-- One call of `InjectContent`: the tags, the stream positions and the data that came in.
pub record Chunk : Type 0 where
  pub slice : List DataTag
  pub prev : ℕ
  pub cur : ℕ
  pub bytes : Bytes

abbrev pub rel_pos_start : Chunk → DataTag → ℤ
rel_pos_start c t = sub_ℕ t.start c.prev

abbrev pub rel_pos_end : Chunk → DataTag → ℤ
rel_pos_end c t = pos (length c.bytes) -ℤ sub_ℕ c.cur t.end

unfoldable pub has_pos_start : Chunk → DataTag → Bool
unfolding ◌-ℤ◌
has_pos_start c t =
    ltb_ℤ (rel_pos_start c t) (pos (length c.bytes))
    && ltb_ℤ (pos (length c.bytes)) (rel_pos_end c t)
    && ltb t.start c.cur

unfoldable pub has_pos_end : Chunk → DataTag → Bool
unfolding ◌-ℤ◌
has_pos_end c t =
    ltb_ℤ (rel_pos_start c t) (pos 0)
    && ltb_ℤ (pos 0) (rel_pos_end c t)
    && ltb_ℤ (rel_pos_end c t) (pos (length c.bytes))
    && leb t.end c.cur

unfoldable pub has_full_tag : Chunk → DataTag → Bool
unfolding ◌-ℤ◌
has_full_tag c t =
    leb c.prev t.start
    && leb t.end c.cur
    && ltb_ℤ (pos 0) (rel_pos_start c t)
    && ltb_ℤ (pos 0) (rel_pos_end c t)
    && ltb_ℤ (rel_pos_start c t) (pos (length c.bytes))
    && leb_ℤ (rel_pos_end c t) (pos (length c.bytes))

pub record NextTag : Type 0 where
  pub rel_pos_start : ℤ
  pub has_next : Bool
  pub is_last : Bool

-- `fullNextTag` for a tag that is there.
abbrev pub next_tag_at : Chunk → Option DataTag → NextTag
next_tag_at c none = record {
  rel_pos_start = pos (length c.bytes);
  has_next = true;
  is_last = true;
}
next_tag_at c (some t) = record {
  rel_pos_start = rel_pos_start c t;
  has_next = has_full_tag c t;
  is_last = false;
}

-- `nextIdx > dts.Len()` is tested first, then `nextIdx == dts.Len()`.
unfoldable pub full_next_tag : Chunk → ℕ → NextTag
full_next_tag c next_idx =
    if ltb (length c.slice) next_idx
    then record { rel_pos_start = pos 0; has_next = false; is_last = false }
    else next_tag_at c (get_elem? c.slice next_idx)

-- `p[a:b]`; `none` is Go's run-time panic. No upper bound here exceeds the length.
unfoldable pub slice_of : Bytes → ℤ → ℤ → Option Bytes
slice_of p (pos a) (pos b) =
    if leb a b && leb b (length p) then some (take (b - a) (drop a p)) else none
slice_of p _ _ = none
