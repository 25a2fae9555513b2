-- ===== src/EsiTag/Finder/Runs.antt =====
-- The finder over one piece of a page: a text, the opening of a tag, its body, its end.
use caddy_esi.Prelude.{
  ℕ, ◌+◌, ◌≡◌, refl, true, false, [], ◌∷◌, ◌++◌, arith, ◌⊎◌, inl, inr, length, ◌∙◌, append_assoc,
  append-nil, ap, sym, ◌==◌, ==_iff,
}
use caddy_esi.Prelude.Text.{Bytes, codes, starts_with, Avoids}
use caddy_esi.EsiTag.Finder.{
  TagState, state_start, state_tag, state_tag_e, state_tag_es, state_tag_esi, state_data,
  state_slash, state_found, Finder, scan, scan_in,
}
use caddy_esi.Prelude.{take-concat}
use caddy_esi.EsiTag.Finder.Scanner.{walk}

-- Neither is a prefix of the other.
abbrev pub Shorter : Bytes → Bytes → Type 0
Shorter mark s = (starts_with mark s ≡ false) × (starts_with s mark ≡ false)

-- What the rest of a text must not begin with, in the states between `<` and `<esi`.
abbrev pub Lacks : TagState → Bytes → Type 0
Lacks state_start s = Unit
Lacks state_found s = Unit
Lacks state_tag s = Shorter (codes "esi:") s
Lacks state_tag_e s = Shorter (codes "si:") s
Lacks state_tag_es s = Shorter (codes "i:") s
Lacks state_tag_esi s = Shorter (codes ":") s
Lacks state_data s = ⊥
Lacks state_slash s = ⊥

abbrev Outside : TagState → Type 0
Outside t = (t ≡ state_start) ⊎ (t ≡ state_found)

==_self : (m : ℕ) → (m == m) ≡ true
==_self m = (==_iff m m).1 refl

Shorter-tail : (m b : ℕ) (ms s : Bytes) → Shorter (m ∷ ms) (b ∷ s) → (b == m) ≡ true → Shorter ms s
unfolding starts_with
Shorter-tail m b ms s h e = rw ((==_iff b m).0 e, ==_self m) at h

Shorter-nil : (s : Bytes) → ¬ Shorter [] s
unfolding starts_with
Shorter-nil s h = cc

scan-Lacks :
    (t : TagState) (e : Finder) (b : ℕ) (s : Bytes)
    → e.tag_state ≡ t
    → Lacks t (b ∷ s)
    → Shorter (codes "<esi:") (b ∷ s)
    → Lacks (scan_in t e b).0.tag_state s
      × ((scan_in t e b).1 ≡ false)
      × ((scan_in t e b).0.n ≡ e.n + 1)
unfolding scan_in
scan-Lacks state_start e b s h l a = ground (arith, Shorter-tail b'<' b (codes "esi:") s a)
scan-Lacks state_found e b s h l a = ground (arith, Shorter-tail b'<' b (codes "esi:") s a)
scan-Lacks state_tag e b s h l a = ground (arith, Shorter-tail b'e' b (codes "si:") s l)
scan-Lacks state_tag_e e b s h l a = ground (arith, Shorter-tail b's' b (codes "i:") s l)
scan-Lacks state_tag_es e b s h l a = ground (arith, Shorter-tail b'i' b (codes ":") s l)
scan-Lacks state_tag_esi e b s h l a = ground (arith, Shorter-tail b':' b [] s l, Shorter-nil s)
scan-Lacks state_data e b s h l a = absurd l
scan-Lacks state_slash e b s h l a = absurd l

-- What reading a piece of the page leads to: no tag, and the position behind it.
pub record Runs (e : Finder) (s rest : Bytes) (P : Finder → Type 0) : Type 0 where
  pub after : Finder
  pub same : walk e (s ++ rest) ≡ walk after rest
  pub count : after.n ≡ e.n + length s
  pub holds : P after

abbrev pub IsOutside : Finder → Type 0
IsOutside e = (e.tag_state ≡ state_start) ⊎ (e.tag_state ≡ state_found)

Lacks-IsOutside : (e : Finder) → Lacks e.tag_state [] → IsOutside e
unfolding starts_with
Lacks-IsOutside e = go e.tag_state
  where
    go : (t : TagState) → Lacks t [] → (t ≡ state_start) ⊎ (t ≡ state_found)
    go state_start l = inl refl
    go state_found l = inr refl
    go _ l = ground arith

walk-more :
    (e : Finder) (b : ℕ) (bs : Bytes)
    → (scan e b).1 ≡ false
    → walk e (b ∷ bs) ≡ walk (scan e b).0 bs
unfolding walk
walk-more e b bs h = rw h

pub walk_text :
    (s rest : Bytes) (e : Finder)
    → Lacks e.tag_state s
    → Avoids (codes "<esi:") s
    → Runs e s rest IsOutside
walk_text [] rest e l a = record {
  after = e;
  same = refl;
  count = omega arith;
  holds = Lacks-IsOutside e l;
}
walk_text (b ∷ s) rest e l (a₁, a₂, a) =
    let (l', plain, n) = scan-Lacks e.tag_state e b s refl l (a₁, a₂) in
    let r = walk_text s rest (scan e b).0 l' a in
    record {
      after = r.after;
      same = walk-more e b (s ++ rest) plain ∙ r.same;
      count = omega (arith, r.count, n);
      holds = r.holds;
    }

-- In the states behind `<esi:`.
abbrev pub Unclosed : TagState → Bytes → Type 0
Unclosed state_data s = Unit
Unclosed state_slash s = Shorter (codes ">") s
Unclosed _ s = ⊥

pub record IsInside (start : ℕ) (buf : Bytes) (e : Finder) : Type 0 where
  pub state : e.tag_state ≡ state_data
  pub begin_eq : e.begin ≡ start
  pub buf_eq : e.buf ≡ buf

scan-Unclosed :
    (t : TagState) (e : Finder) (b : ℕ) (s : Bytes)
    → e.tag_state ≡ t
    → Unclosed t (b ∷ s)
    → Shorter (codes "/>") (b ∷ s)
    → Unclosed (scan_in t e b).0.tag_state s
      × ((scan_in t e b).1 ≡ false)
      × ((scan_in t e b).0.n ≡ e.n + 1)
      × ((scan_in t e b).0.begin ≡ e.begin)
      × ((scan_in t e b).0.buf ≡ e.buf ++ b ∷ [])
unfolding scan_in
scan-Unclosed state_data e b s h l a = ground (arith, Shorter-tail b'/' b (codes ">") s a)
scan-Unclosed state_slash e b s h l a = ground (arith, Shorter-tail b'>' b [] s l, Shorter-nil s)
scan-Unclosed _ e b s h l a = absurd l

Unclosed-nil : (e : Finder) → Unclosed e.tag_state [] → e.tag_state ≡ state_data
unfolding starts_with
Unclosed-nil e = go e.tag_state
  where
    go : (t : TagState) → Unclosed t [] → t ≡ state_data
    go state_data l = refl
    go _ l = ground arith

pub walk_body :
    (s rest : Bytes) (e : Finder)
    → Unclosed e.tag_state s
    → Avoids (codes "/>") s
    → Runs e s rest (IsInside e.begin (e.buf ++ s))
walk_body [] rest e l a = record {
  after = e;
  same = refl;
  count = omega arith;
  holds = record { state = Unclosed-nil e l; begin_eq = refl; buf_eq = sym (append-nil e.buf) };
}
walk_body (b ∷ s) rest e l (a₁, a₂, a) =
    let (l', plain, n, begin, buf) = scan-Unclosed e.tag_state e b s refl l (a₁, a₂) in
    let r = walk_body s rest (scan e b).0 l' a in
    record {
      after = r.after;
      same = walk-more e b (s ++ rest) plain ∙ r.same;
      count = omega (arith, r.count, n);
      holds = record {
        state = r.holds.state;
        begin_eq = r.holds.begin_eq ∙ begin;
        buf_eq = r.holds.buf_eq ∙ ap (λ c. c ++ s) buf ∙ append_assoc e.buf (b ∷ []) s;
      };
    }

-- The five bytes that open a tag.
pub walk_open :
    (rest : Bytes) (e : Finder) → IsOutside e → Runs e (codes "<esi:") rest (IsInside e.n [])
unfolding walk scan_in
walk_open rest e o = record {
  after = record e { tag_state = state_data; n = e.n + 1 + 1 + 1 + 1 + 1; begin = e.n; buf = [] };
  same = ground arith;
  count = omega arith;
  holds = record { state = refl; begin_eq = refl; buf_eq = refl };
}

-- The two bytes that close a tag.
pub walk_close :
    (rest : Bytes) (e : Finder) (start : ℕ) (raw : Bytes)
    → IsInside start raw e
    → (after : Finder) × (walk e (codes "/>" ++ rest)
        ≡ record { raw_tag = raw; start = start; end = e.n + 2 } ∷ walk after rest)
      × (after.n ≡ e.n + 2)
      × IsOutside after
unfolding walk scan_in
walk_close rest e start raw i = (
  record e {
    tag_state = state_found;
    n = e.n + 1 + 1;
    end = e.n + 1 + 1;
    buf = e.buf ++ b'/' ∷ [];
  },
  ground (arith, take-concat e.buf b'/'),
  omega arith,
  inr refl,
)
