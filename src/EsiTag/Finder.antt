-- ===== src/EsiTag/Finder.antt =====
-- The state machine that finds ESI tags in a byte stream: esitag/esi_parser.go, `finder`.
-- A position in the stream is a native number, as all of the finder's counters only grow from 0.
-- `tagState` is an enumeration here, so the `default` branch of `scan`, which reports a state
-- that no assignment of the file produces, has no counterpart.
pub mod Scanner
pub mod Locate
mod Runs
pub mod Pages
use caddy_esi.Prelude.{
  ℕ, ◌+◌, ◌-◌, ◌≡◌, refl, Bool, true, false, List, [], ◌∷◌, ◌++◌, Option, none, some, ◌==◌,
  if◌then◌else◌, length, take,
}
use caddy_esi.Prelude.Text.{Bytes, codes}

pub data TagState : Type 0 where
  state_start state_tag state_tag_e state_tag_es state_tag_esi : TagState
  state_data state_slash state_found : TagState

pub record Finder : Type 0 where
  pub tag_state : TagState
  pub n : ℕ
  pub begin : ℕ
  pub end : ℕ
  pub buf : Bytes

abbrev pub new_finder : Finder
new_finder = record { tag_state = state_start; n = 0; begin = 0; end = 0; buf = [] }

-- The common tail of `scan`: `e.n++`, and no tag is reported.
abbrev pub advanced : Finder → Finder × Bool
advanced e = (record e { n = e.n + 1 }, false)

abbrev pub goto : Finder → TagState → Finder
goto e s = record e { tag_state = s }

-- One byte in the states between `<` and `<esi`: the expected byte moves on, any other restarts.
abbrev pub expect : ℕ → TagState → Finder → ℕ → Finder × Bool
expect c next e b = advanced (goto e (if b == c then next else state_start))

-- `case stateStart, stateFound`.
abbrev pub seek : Finder → ℕ → Finder × Bool
seek e b =
    if b == b'<' then advanced (record e { tag_state = state_tag; begin = e.n }) else advanced e

unfoldable pub scan_in : TagState → Finder → ℕ → Finder × Bool
scan_in state_start e b = seek e b
scan_in state_found e b = seek e b
scan_in state_tag e b = expect b'e' state_tag_e e b
scan_in state_tag_e e b = expect b's' state_tag_es e b
scan_in state_tag_es e b = expect b'i' state_tag_esi e b
scan_in state_tag_esi e b =
    if b == b':'
    then advanced (record e { tag_state = state_data; buf = [] })
    else advanced (goto e state_start)
scan_in state_data e b =
    advanced (record e {
      buf = e.buf ++ b ∷ [];
      tag_state = if b == b'/' then state_slash else state_data;
    })
scan_in state_slash e b =
    if b == b'>'
    then (record e { tag_state = state_found; end = e.n + 1 }, true)
    else advanced (record e { buf = e.buf ++ b ∷ []; tag_state = state_data })

abbrev pub scan : Finder → ℕ → Finder × Bool
scan e b = scan_in e.tag_state e b

abbrev pub data_in : TagState → Bytes → Option Bytes
data_in state_found buf = some (take (length buf - 1) buf)
data_in _ buf = none

-- `none` is Go's nil. `buf` ends in the slash of the tag's end wherever a tag was found
-- (`Locate.Consumed`), so the slice expression is in range.
abbrev pub content : Finder → Option Bytes
content e = data_in e.tag_state e.buf

-- What `split` returns, with the finder after it.
pub record Split : Type 0 where
  pub advance : ℕ
  pub token : Option Bytes
  pub finder : Finder

-- The loop of `split`, at index `i` of the data.
unfoldable pub split_from : Finder → ℕ → Bytes → Split
unfolding scan_in
split_from e i [] = record { advance = i; token = none; finder = e }
split_from e i (b ∷ bs) =
    let (e', ok) = scan e b in
    let more = split_from e' (i + 1) bs in
    if ok then record { advance = i; token = content e'; finder = e' } else more

-- `split` at the end of the input with no data is the same as the loop on no data.
abbrev pub split : Finder → Bytes → Split
split e bytes = split_from e 0 bytes
