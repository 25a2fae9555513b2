-- ===== src/BufPool.antt =====
-- bufpool/bufpool.go: the pool of buffers. sync.Pool is a library: `Get` gives any value that was put into the pool,
-- or a new one, and the pool may drop values at any time. The users of the buffers are the steps of a relation.
pub mod Clean
mod Tests
use caddy_esi.Prelude.{ℕ, suc, ◌*◌, ◌^◌, ◌≤◌, ◌≡◌, List, [], ◌∷◌, ◌++◌, ltb, if◌then◌else◌}
use caddy_esi.Prelude.Text.{Bytes}

-- A *bytes.Buffer: its address, its content and its capacity.
pub record Buffer : Type 0 where
  pub id : ℕ
  pub content : Bytes
  pub cap : ℕ

abbrev pub buffer_max_size : ℕ
buffer_max_size = 262_144

abbrev pub new_size : ℕ
new_size = 8 * 1024

-- The function `New` of the pool.
abbrev pub new_buffer : ℕ → Buffer
new_buffer id = record { id = id; content = []; cap = new_size }

abbrev pub reset : Buffer → Buffer
reset b = record b { content = [] }

-- `Tank.Put`, into the values of the pool.
abbrev pub put_back : Buffer → List Buffer → List Buffer
put_back b free = if ltb buffer_max_size b.cap then free else reset b ∷ free

-- `Put` of the package makes the same test before.
abbrev pub put : Buffer → List Buffer → List Buffer
put b free = if ltb buffer_max_size b.cap then free else put_back b free

-- The values in the pool, the buffers that are in use, and the next address.
pub record Tank : Type 0 where
  pub free : List Buffer
  pub lent : List Buffer
  pub next_id : ℕ

abbrev pub new_tank : Tank
new_tank = record { free = []; lent = []; next_id = 0 }

pub data Use : Tank → Tank → Type 0 where
  gets :
      (before after lent : List Buffer) (b : Buffer) (n : ℕ)
      → Use
          (record { free = before ++ b ∷ after; lent = lent; next_id = n })
          (record { free = before ++ after; lent = b ∷ lent; next_id = n })
  gets_new :
      (free lent : List Buffer) (n : ℕ)
      → Use
          (record { free = free; lent = lent; next_id = n })
          (record { free = free; lent = new_buffer n ∷ lent; next_id = suc n })
  -- A user writes into a buffer, which may grow.
  writes :
      (free before after : List Buffer) (b : Buffer) (content : Bytes) (cap n : ℕ)
      → b.cap ≤ cap
      → Use
          (record { free = free; lent = before ++ b ∷ after; next_id = n })
          (record {
            free = free;
            lent = before ++ record b { content = content; cap = cap } ∷ after;
            next_id = n;
          })
  puts :
      (free before after : List Buffer) (b : Buffer) (n : ℕ)
      → Use
          (record { free = free; lent = before ++ b ∷ after; next_id = n })
          (record { free = put b free; lent = before ++ after; next_id = n })
  drops :
      (before after lent : List Buffer) (b : Buffer) (n : ℕ)
      → Use
          (record { free = before ++ b ∷ after; lent = lent; next_id = n })
          (record { free = before ++ after; lent = lent; next_id = n })

pub data Uses (t : Tank) : Tank → Type 0 where
  unused : Uses t t
  then_use : {u v : Tank} → Uses t u → Use u v → Uses t v
