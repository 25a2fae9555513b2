-- ===== src/EsiTag/Finder/Scanner.antt =====
-- The loop of `Parse` (esitag/esi_parser.go) over bufio.Scanner. The scanner is a library; what it
-- documents is that each call of the split function gets a window: the first bytes of what is
-- not yet consumed. Its sizes depend on the reader, and stand here as a schedule.
use mathlib.Core.Path.{subst}
use caddy_esi.Prelude.{
  ℕ, zero, suc, ◌+◌, ◌*◌, ◌≤◌, ◌<◌, ◌≡◌, ◌≢◌, refl, ◌⊎◌, inl, inr, true, false, List, [], ◌∷◌, ◌++◌,
  Option, none, some, ap, arith, if◌then◌else◌, Bool-cases, length, take, drop, take-append-drop,
  append-nil,
}
use caddy_esi.Prelude.Text.{Bytes}
use caddy_esi.EsiTag.Finder.{
  TagState, state_found, state_slash, Finder, new_finder, scan, scan_in, content, split, split_from,
}

-- The fields of `Entity` and its `DataTag` that `Parse` fills.
pub record Found : Type 0 where
  pub raw_tag : Bytes
  pub start : ℕ
  pub end : ℕ

abbrev pub found_at : Finder → Bytes → Found
found_at e raw = record { raw_tag = raw; start = e.begin; end = e.end }

-- The next window: `k + 1` bytes for the next size `k`, and everything once no size is left.
abbrev pub window : List ℕ → Bytes → Bytes
window [] rest = rest
window (k ∷ ks) rest = take (suc k) rest

abbrev pub later : List ℕ → List ℕ
later [] = []
later (k ∷ ks) = ks

-- Puts a token, if there is one, in front of what the scanner finds behind it.
abbrev pub collect : Option Bytes → Finder → List Found → List Found
collect none e fs = fs
collect (some raw) e fs = found_at e raw ∷ fs

abbrev pub collected : Option Bytes → Finder → Option (List Found) → Option (List Found)
collected token e none = none
collected token e (some fs) = some (collect token e fs)

-- `for sc.Scan() { ret = append(ret, …) }`, with fuel; `none` means that the fuel ran out.
unfoldable pub scan_loop : ℕ → List ℕ → Finder → Bytes → Option (List Found)
scan_loop zero sizes e rest = none
scan_loop (suc fuel) sizes e [] = some []
scan_loop (suc fuel) sizes e (b ∷ bs) =
    let s = split e (window sizes (b ∷ bs)) in
    collected s.token s.finder (scan_loop fuel (later sizes) s.finder (drop s.advance (b ∷ bs)))

-- The tags in one pass over the bytes, with no windows. A byte that ends a tag is read twice.
unfoldable pub walk : Finder → Bytes → List Found
unfolding scan_in
walk e [] = []
walk e (b ∷ bs) =
    let (e', ok) = scan e b in
    let tagged = collect (content e') e' (walk (scan e' b).0 bs) in
    let plain = walk e' bs in if ok then tagged else plain

-- A slash may end a tag without a byte being consumed; this makes the loop's measure fall.
abbrev pending : TagState → ℕ
pending state_slash = 1
pending _ = 0

pending_le : (t : TagState) → pending t ≤ 1
pending_le state_slash = omega arith
pending_le _ = omega arith

abbrev work : Finder → Bytes → ℕ
work e rest = 2 * length rest + pending e.tag_state

-- What a call of `split` from index `i` on a window does to the pass over all bytes.
record Sweeps (e : Finder) (i : ℕ) (w tail : Bytes) : Type 0 where
  used : ℕ
  advance_eq : (split_from e i w).advance ≡ i + used
  same_walk :
      collect
        (split_from e i w).token
        (split_from e i w).finder
        (walk (split_from e i w).finder (drop used (w ++ tail)))
      ≡ walk e (w ++ tail)
  work_le : work (split_from e i w).finder (drop used (w ++ tail)) ≤ work e (w ++ tail)
  work_lt : w ≡ [] ⊎ (work (split_from e i w).finder (drop used (w ++ tail)) < work e (w ++ tail))

-- A tag is only found at the byte behind a slash, and then the machine is in `stateFound`.
pub scan_reports :
    (e : Finder) (b : ℕ)
    → (scan e b).1 ≡ true
    → (e.tag_state ≡ state_slash) × ((scan e b).0.tag_state ≡ state_found)
unfolding scan_in
scan_reports e b h = ground arith

-- In `stateFound` no byte ends a tag.
scan_found : (e : Finder) (b : ℕ) → e.tag_state ≡ state_found → (scan e b).1 ≡ false
unfolding scan_in
scan_found e b h = ground arith

walk_stopped :
    (e : Finder) (b : ℕ) (bs : Bytes)
    → (scan e b).1 ≡ true
    → collect (content (scan e b).0) (scan e b).0 (walk (scan e b).0 (b ∷ bs)) ≡ walk e (b ∷ bs)
unfolding walk
walk_stopped e b bs h = rw (h, scan_found (scan e b).0 b (scan_reports e b h).1) refl

walk_more :
    (e : Finder) (b : ℕ) (bs : Bytes)
    → (scan e b).1 ≡ false
    → walk e (b ∷ bs) ≡ walk (scan e b).0 bs
unfolding walk
walk_more e b bs h = rw h

split_from_stopped :
    (e : Finder) (i b : ℕ) (w : Bytes)
    → (scan e b).1 ≡ true
    → split_from e i (b ∷ w)
      ≡ record { advance = i; token = content (scan e b).0; finder = (scan e b).0 }
unfolding split_from
split_from_stopped e i b w h = rw h

split_from_more :
    (e : Finder) (i b : ℕ) (w : Bytes)
    → (scan e b).1 ≡ false
    → split_from e i (b ∷ w) ≡ split_from (scan e b).0 (i + 1) w
unfolding split_from
split_from_more e i b w h = rw h

split_from-Sweeps : (w tail : Bytes) (e : Finder) (i : ℕ) → Sweeps e i w tail
split_from-Sweeps [] tail e i =
    unfold split_from in
    record {
      used = 0;
      advance_eq = omega arith;
      same_walk = refl;
      work_le = omega arith;
      work_lt = inl refl;
    }
split_from-Sweeps (b ∷ w) tail e i = elim (Bool-cases (scan e b).1) [
  | inl stop ↦
      let (slash, found) = scan_reports e b stop in
      record {
        used = 0;
        advance_eq = rw (split_from_stopped e i b w stop) (omega arith);
        same_walk = rw (split_from_stopped e i b w stop) (walk_stopped e b (w ++ tail) stop);
        work_le =
            rw (split_from_stopped e i b w stop)
              (omega (arith, ap pending slash, ap pending found));
        work_lt = inr (
            rw (split_from_stopped e i b w stop)
              (omega (arith, ap pending slash, ap pending found)));
      }
  | inr more ↦
      let s = split_from-Sweeps w tail (scan e b).0 (i + 1) in
      record {
        used = suc s.used;
        advance_eq = rw (split_from_more e i b w more) (omega (arith, s.advance_eq));
        same_walk = rw (split_from_more e i b w more, walk_more e b (w ++ tail) more) s.same_walk;
        work_le =
            rw (split_from_more e i b w more)
              (omega (arith, s.work_le, pending_le (scan e b).0.tag_state));
        work_lt = inr (
            rw (split_from_more e i b w more)
              (omega (arith, s.work_le, pending_le (scan e b).0.tag_state)));
      }
]

-- What is left of the input behind a window.
abbrev behind : List ℕ → Bytes → Bytes
behind [] rest = []
behind (k ∷ ks) rest = drop (suc k) rest

window-append-behind :
    (sizes : List ℕ) (rest : Bytes) → window sizes rest ++ behind sizes rest ≡ rest
window-append-behind [] rest = append-nil rest
window-append-behind (k ∷ ks) rest = take-append-drop (suc k) rest

window-ne-nil : (sizes : List ℕ) (b : ℕ) (bs : Bytes) → window sizes (b ∷ bs) ≢ []
window-ne-nil [] b bs h = cc
window-ne-nil (k ∷ ks) b bs h = cc

-- What one call of `split` on a window `w` leaves to the rest of the loop.
abbrev Proceeds : Finder → Bytes → Bytes → Type 0
Proceeds e w xs =
    (collect (split e w).token (split e w).finder
        (walk (split e w).finder (drop (split e w).advance xs))
      ≡ walk e xs)
    × (work (split e w).finder (drop (split e w).advance xs) < work e xs)

split-Proceeds : (e : Finder) (w tail : Bytes) → w ≢ [] → Proceeds e w (w ++ tail)
split-Proceeds e w tail ne =
    let s = split_from-Sweeps w tail e 0 in
    let adv : s.used ≡ (split e w).advance = omega (arith, s.advance_eq) in
    rw (← adv) (s.same_walk, elim s.work_lt [ inl nil ↦ absurd (ne nil) | inr less ↦ less ])

-- However the scanner cuts the input into windows, the loop ends, and finds the tags that one pass
-- over the bytes finds.
scan_loop-walk :
    (fuel : ℕ) (sizes : List ℕ) (e : Finder) (rest : Bytes)
    → work e rest < fuel
    → scan_loop fuel sizes e rest ≡ some (walk e rest)
unfolding scan_loop
scan_loop-walk zero sizes e rest h = absurd (omega arith)
scan_loop-walk (suc fuel) sizes e [] h = unfold walk in refl
scan_loop-walk (suc fuel) sizes e (b ∷ bs) h =
    let w = window sizes (b ∷ bs) in
    let p : Proceeds e w (b ∷ bs) =
      subst (Proceeds e w) (window-append-behind sizes (b ∷ bs))
        (split-Proceeds e w (behind sizes (b ∷ bs)) (window-ne-nil sizes b bs)) in
    let s = split e w in
    rw (scan_loop-walk fuel (later sizes) s.finder (drop s.advance (b ∷ bs)) (omega (arith, p.1)))
      (ap some p.0)

-- The loop of `Parse` over a whole document, for the windows of `sizes`.
unfoldable pub find_tags : List ℕ → Bytes → Option (List Found)
find_tags sizes doc = scan_loop (2 * length doc + 1) sizes new_finder doc

-- For every document and every way in which the scanner cuts it into windows: the loop of `Parse` ends,
-- with the tags that one pass of the state machine over the document finds.
pub find_tags-walk :
    (sizes : List ℕ) (doc : Bytes) → find_tags sizes doc ≡ some (walk new_finder doc)
unfolding find_tags
find_tags-walk sizes doc = scan_loop-walk _ sizes new_finder doc (omega arith)
