-- ===== src/EsiTag/Finder/Locate.antt =====
-- What the finder reports about a document, whatever bytes it holds: each reported range spells a
-- tag, and the ranges come in order and do not overlap.
use mathlib.Core.Path.{subst}
use caddy_esi.Prelude.{
  ℕ, ◌+◌, ◌≡◌, refl, true, false, List, [], ◌∷◌, ◌++◌, some, arith, Bool-cases, ◌==◌, ==_iff, inl,
  inr, length, take-concat, length-append, append_assoc, ◌∙◌, ap,
}
use caddy_esi.Prelude.Text.{Bytes, codes}
use caddy_esi.EsiTag.Finder.{
  TagState, state_start, state_tag, state_tag_e, state_tag_es, state_tag_esi, state_data,
  state_slash, state_found, Finder, new_finder, scan, scan_in, content,
}
use caddy_esi.EsiTag.Finder.Scanner.{Found, walk, scan_reports, find_tags, find_tags-walk}

-- `es` are found from left to right in `doc`, which stands at position `p` of the stream.
pub data Located : ℕ → Bytes → List Found → Type 0 where
  rest : {p : ℕ} {doc : Bytes} → Located p doc []
  tag :
      {p : ℕ} {doc : Bytes} {e : Found} {es : List Found} (before after : Bytes)
      → doc ≡ before ++ (codes "<esi:" ++ (e.raw_tag ++ (codes "/>" ++ after)))
      → e.start ≡ p + length before
      → e.end ≡ p + length before + length e.raw_tag + 7
      → Located e.end after es
      → Located p doc (e ∷ es)

-- The bytes read since position `p` end in `mark`, which began at `begin`.
record Opened (p begin : ℕ) (pre mark : Bytes) : Type 0 where
  before : Bytes
  splits : pre ≡ before ++ mark
  begins : begin ≡ p + length before

Opened-here : (p n b : ℕ) (pre : Bytes) → n ≡ p + length pre → Opened p n (pre ++ b ∷ []) (b ∷ [])
Opened-here p n b pre h = record { before = pre; splits = refl; begins = h }

Opened-push :
    (p begin b : ℕ) (pre mark : Bytes)
    → Opened p begin pre mark
    → Opened p begin (pre ++ b ∷ []) (mark ++ b ∷ [])
Opened-push p begin b pre mark o = record {
  before = o.before;
  splits = ap (λ s. s ++ b ∷ []) o.splits ∙ append_assoc o.before mark (b ∷ []);
  begins = o.begins;
}

-- What each state knows of the bytes read since position `p`.
abbrev Reads : ℕ → TagState → Finder → Bytes → Type 0
Reads p state_start e pre = Unit {0}
Reads p state_found e pre = Unit {0}
Reads p state_tag e pre = Opened p e.begin pre (codes "<")
Reads p state_tag_e e pre = Opened p e.begin pre (codes "<e")
Reads p state_tag_es e pre = Opened p e.begin pre (codes "<es")
Reads p state_tag_esi e pre = Opened p e.begin pre (codes "<esi")
Reads p state_data e pre = Opened p e.begin pre (codes "<esi:" ++ e.buf)
Reads p state_slash e pre =
    Opened p e.begin pre (codes "<esi:" ++ e.buf) × (raw : Bytes) × (e.buf ≡ raw ++ b'/' ∷ [])

record Consumed (p : ℕ) (e : Finder) (pre : Bytes) : Type 0 where
  count : e.n ≡ p + length pre
  reads : Reads p e.tag_state e pre

scan_in-Reads :
    (p : ℕ) (t : TagState) (e : Finder) (b : ℕ) (pre : Bytes)
    → e.tag_state ≡ t
    → e.n ≡ p + length pre
    → Reads p t e pre
    → (scan_in t e b).1 ≡ false
    → Reads p (scan_in t e b).0.tag_state (scan_in t e b).0 (pre ++ b ∷ [])
unfolding scan_in
scan_in-Reads p state_start e b pre s n r h = ground (arith, Opened-here p e.n b pre)
scan_in-Reads p state_found e b pre s n r h = ground (arith, Opened-here p e.n b pre)
scan_in-Reads p state_tag e b pre s n r h = ground (arith, Opened-push p e.begin b pre _ r)
scan_in-Reads p state_tag_e e b pre s n r h = ground (arith, Opened-push p e.begin b pre _ r)
scan_in-Reads p state_tag_es e b pre s n r h = ground (arith, Opened-push p e.begin b pre _ r)
scan_in-Reads p state_tag_esi e b pre s n r h = ground (arith, Opened-push p e.begin b pre _ r)
scan_in-Reads p state_data e b pre s n r h = elim (Bool-cases (b == b'/')) [
  | inl slash ↦
      rw slash (
        Opened-push p e.begin b pre _ r,
        e.buf,
        ap (λ x. e.buf ++ x ∷ []) ((==_iff b b'/').0 slash),
      )
  | inr other ↦ rw other (Opened-push p e.begin b pre _ r)
]
scan_in-Reads p state_slash e b pre s n r h = ground (arith, Opened-push p e.begin b pre _ r.0)

scan_count : (e : Finder) (b : ℕ) → (scan e b).1 ≡ false → (scan e b).0.n ≡ e.n + 1
unfolding scan_in
scan_count e b h = ground arith

scan-Consumed :
    (p : ℕ) (e : Finder) (b : ℕ) (pre : Bytes)
    → Consumed p e pre
    → (scan e b).1 ≡ false
    → Consumed p (scan e b).0 (pre ++ b ∷ [])
scan-Consumed p e b pre c h = record {
  count = omega (arith, scan_count e b h, length-append pre (b ∷ []), c.count);
  reads = scan_in-Reads p e.tag_state e b pre refl c.count c.reads h;
}

scan_slash :
    (e : Finder) (b : ℕ)
    → (scan e b).1 ≡ true
    → (b ≡ b'>') × ((scan e b).0 ≡ record e { tag_state = state_found; end = e.n + 1 })
unfolding scan_in
scan_slash e b h = ground arith

-- A byte that ends a tag: the bytes before it, the token and the positions.
record Ends (p : ℕ) (e : Finder) (b : ℕ) (pre bs : Bytes) : Type 0 where
  raw : Bytes
  before : Bytes
  token : content (scan e b).0 ≡ some raw
  splits : pre ++ b ∷ bs ≡ before ++ (codes "<esi:" ++ (raw ++ (codes "/>" ++ bs)))
  begins : (scan e b).0.begin ≡ p + length before
  ends : (scan e b).0.end ≡ p + length before + length raw + 7

scan-Ends :
    (p : ℕ) (e : Finder) (b : ℕ) (pre bs : Bytes)
    → Consumed p e pre
    → (scan e b).1 ≡ true
    → Ends p e b pre bs
scan-Ends p e b pre bs c h =
    let (close, result) = scan_slash e b h in
    let (o, raw, buf) = subst (λ t. Reads p t e pre) (scan_reports e b h).0 c.reads in
    let whole : pre ≡ o.before ++ (codes "<esi:" ++ (raw ++ b'/' ∷ [])) = o.splits ∙ rw buf in
    record {
      raw = raw;
      before = o.before;
      token = rw (result, buf) (ap some (take-concat raw b'/'));
      splits = rw (whole, close) (simp append_assoc);
      begins = rw result o.begins;
      ends = rw result (
          omega (
            arith,
            c.count,
            ap length whole,
            length-append o.before (codes "<esi:" ++ (raw ++ b'/' ∷ [])),
            length-append raw (b'/' ∷ []),
          ));
    }

-- The byte after a tag is read again, and is counted then.
scan_again :
    (p : ℕ) (e : Finder) (b : ℕ) (pre : Bytes)
    → Consumed p e pre
    → (scan e b).1 ≡ true
    → Consumed (scan e b).0.end (scan (scan e b).0 b).0 []
scan_again p e b pre c h =
    let (close, result) = scan_slash e b h in
    rw (result, close) (unfold scan_in in record { count = omega arith; reads = tt })

walk-Located :
    (bs pre : Bytes) (p : ℕ) (e : Finder) → Consumed p e pre → Located p (pre ++ bs) (walk e bs)
unfolding walk
walk-Located [] pre p e c = rest
walk-Located (b ∷ bs) pre p e c = elim (Bool-cases (scan e b).1) [
  | inl ends ↦
      let d = scan-Ends p e b pre bs c ends in
      rw (ends, d.token)
        (tag d.before bs d.splits d.begins d.ends (
          walk-Located bs [] (scan e b).0.end (scan (scan e b).0 b).0
            (scan_again p e b pre c ends)))
  | inr more ↦ rw more (
      subst (λ s. Located p s (walk (scan e b).0 bs)) (append_assoc pre (b ∷ []) bs)
        (walk-Located bs (pre ++ b ∷ []) p (scan e b).0 (scan-Consumed p e b pre c more)))
]

-- For every document and every way in which the scanner cuts it: the loop of `Parse` ends, and the
-- tags that it finds are ranges of the document that spell `<esi:` raw_tag `/>`, from left to right
-- and with no overlap.
pub find_tags-Located :
    (sizes : List ℕ) (doc : Bytes)
    → (es : List Found) × (find_tags sizes doc ≡ some es) × Located 0 doc es
find_tags-Located sizes doc = (
  walk new_finder doc,
  find_tags-walk sizes doc,
  walk-Located doc [] 0 new_finder (record { count = omega arith; reads = tt }),
)
