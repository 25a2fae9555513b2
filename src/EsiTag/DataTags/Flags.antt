-- ===== src/EsiTag/DataTags/Flags.antt =====
-- The tests of `InjectContent` on positions relative to the data, read as tests on positions in the
-- stream.
use caddy_esi.Prelude.{ℕ, ◌+◌, ◌-◌, ◌≤◌, ◌<◌, ◌≡◌, true, false, some, arith, length, take, drop}
use caddy_esi.Prelude.Int.{pos, ◌-ℤ◌}
use caddy_esi.Prelude.Text.{Bytes}
use caddy_esi.EsiTag.DataTags.{
  DataTag, Chunk, rel_pos_start, rel_pos_end, has_pos_start, has_full_tag, slice_of,
}

-- The data end where the stream is now.
abbrev pub IsChunk : Chunk → Type 0
IsChunk c = c.cur ≡ c.prev + length c.bytes

pub rel_pos_start_lem :
    (c : Chunk) (t : DataTag) → c.prev ≤ t.start → rel_pos_start c t ≡ pos (t.start - c.prev)
rel_pos_start_lem c t h = ground arith

pub rel_pos_end_lem :
    (c : Chunk) (t : DataTag) → IsChunk c → c.prev ≤ t.end → rel_pos_end c t ≡ pos (t.end - c.prev)
unfolding ◌-ℤ◌
rel_pos_end_lem c t k h = ground arith

-- A tag is recognised as a whole in the data unless it begins at their first byte.
pub has_full_tag_inside :
    (c : Chunk) (t : DataTag)
    → IsChunk c
    → c.prev < t.start
    → t.start < t.end
    → t.end ≤ c.cur
    → has_full_tag c t ≡ true
unfolding has_full_tag
has_full_tag_inside c t k a b d = ground arith

pub has_full_tag_beyond :
    (c : Chunk) (t : DataTag) → IsChunk c → c.cur < t.end → has_full_tag c t ≡ false
unfolding has_full_tag
has_full_tag_beyond c t k a = ground arith

pub has_pos_start_beyond : (c : Chunk) (t : DataTag) → c.cur ≤ t.start → has_pos_start c t ≡ false
unfolding has_pos_start
has_pos_start_beyond c t a = ground arith

pub slice_of_range :
    (p : Bytes) (a b : ℕ)
    → a ≤ b
    → b ≤ length p
    → slice_of p (pos a) (pos b) ≡ some (take (b - a) (drop a p))
unfolding slice_of
slice_of_range p a b h k = ground arith
