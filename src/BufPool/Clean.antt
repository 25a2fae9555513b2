-- ===== src/BufPool/Clean.antt =====
-- What a user may rely on: buffers of the pool are empty and small, and nobody shares one.
use mathlib.Core.Path.{subst}
use caddy_esi.Prelude.{
  ℕ, ◌+◌, ◌≤◌, ◌≡◌, refl, sym, ap, ◌∙◌, ◌⊎◌, inl, inr, List, [], ◌∷◌, ◌++◌, arith, ltb, ◌==◌,
  if◌then◌else◌, Bool-cases, ==_iff,
}
use caddy_esi.BufPool.{
  Buffer, buffer_max_size, new_buffer, put, Tank, new_tank, Use, gets, gets_new, writes, puts,
  drops, Uses, unused, then_use,
}

abbrev pub AllClean : List Buffer → Type 0
AllClean [] = Unit
AllClean (b ∷ bs) = ((b.content ≡ []) × (b.cap ≤ buffer_max_size)) × AllClean bs

-- Whether a buffer has this address, as a number.
at_id : ℕ → Buffer → ℕ
at_id i b = if b.id == i then 1 else 0

pub count : ℕ → List Buffer → ℕ
count i [] = 0
count i (b ∷ bs) = at_id i b + count i bs

count-append : (i : ℕ) (xs ys : List Buffer) → count i (xs ++ ys) ≡ count i xs + count i ys
unfolding count
count-append i [] ys = omega arith
count-append i (b ∷ xs) ys = omega (arith, count-append i xs ys)

count-insert :
    (i : ℕ) (xs ys : List Buffer) (b : Buffer)
    → count i (xs ++ b ∷ ys) ≡ at_id i b + count i (xs ++ ys)
unfolding count
count-insert i xs ys b = omega (arith, count-append i xs (b ∷ ys), count-append i xs ys)

AllClean-append :
    (xs ys : List Buffer) (b : Buffer)
    → AllClean (xs ++ b ∷ ys)
    → ((b.content ≡ []) × (b.cap ≤ buffer_max_size)) × AllClean (xs ++ ys)
AllClean-append [] ys b (h, k) = (h, k)
AllClean-append (x ∷ xs) ys b (h, k) =
    let (here, rest) = AllClean-append xs ys b k in (here, (h, rest))

put-AllClean : (b : Buffer) (free : List Buffer) → AllClean free → AllClean (put b free)
put-AllClean b free h = elim (Bool-cases (ltb buffer_max_size b.cap)) [
  | inl e ↦ rw e h
  | inr e ↦ rw e ((refl, ground arith), h)
]

count-put :
    (i : ℕ) (b : Buffer) (free : List Buffer) → count i (put b free) ≤ at_id i b + count i free
unfolding count at_id
count-put i b free = elim (Bool-cases (ltb buffer_max_size b.cap)) [
  | inl e ↦ rw e (omega arith)
  | inr e ↦ rw e (omega arith)
]

-- No address twice, in the pool or in use, and none that is still to come.
pub record Sound (t : Tank) : Type 0 where
  pub clean : AllClean t.free
  pub alone : (i : ℕ) → count i t.free + count i t.lent ≤ 1
  pub below : (i : ℕ) → t.next_id ≤ i → count i t.free + count i t.lent ≡ 0

at_id-new : (i n : ℕ) → (at_id i (new_buffer n) ≡ 0) ⊎ ((at_id i (new_buffer n) ≡ 1) × (i ≡ n))
unfolding at_id
at_id-new i n = elim (Bool-cases (n == i)) [
  | inl e ↦ rw e (inr (refl, sym ((==_iff n i).0 e)))
  | inr e ↦ rw e (inl refl)
]

Use-Sound : {t u : Tank} → Use t u → Sound t → Sound u
unfolding at_id count
Use-Sound (gets before after lent b n) s = record {
  clean = (AllClean-append before after b s.clean).1;
  alone = λ i. omega (arith, s.alone i, count-insert i before after b);
  below = λ i h. omega (arith, s.below i h, count-insert i before after b);
}
Use-Sound (gets_new free lent n) s = record {
  clean = s.clean;
  alone = λ i. elim (at_id-new i n) [
    | inl e ↦ omega (arith, s.alone i, e)
    | inr (e, k) ↦ omega (arith, s.below i (omega arith), e)
  ];
  below = λ i h. elim (at_id-new i n) [
    | inl e ↦ omega (arith, s.below i (omega arith), e)
    | inr (e, k) ↦ absurd (omega arith)
  ];
}
Use-Sound (writes free before after b content cap n h) s =
    let b' : Buffer = record b { content = content; cap = cap } in
    let same = λ (i : ℕ). count-insert i before after b' ∙ sym (count-insert i before after b) in
    record {
      clean = s.clean;
      alone = λ i. omega (arith, s.alone i, same i);
      below = λ i k. omega (arith, s.below i k, same i);
    }
Use-Sound (puts free before after b n) s = record {
  clean = put-AllClean b free s.clean;
  alone = λ i. omega (arith, s.alone i, count-insert i before after b, count-put i b free);
  below = λ i h. omega (arith, s.below i h, count-insert i before after b, count-put i b free);
}
Use-Sound (drops before after lent b n) s = record {
  clean = (AllClean-append before after b s.clean).1;
  alone = λ i. omega (arith, s.alone i, count-insert i before after b);
  below = λ i h. omega (arith, s.below i h, count-insert i before after b);
}

Uses-Sound : {t : Tank} → Uses new_tank t → Sound t
unfolding count
Uses-Sound unused = record { clean = tt; alone = λ i. omega arith; below = λ i h. omega arith }
Uses-Sound (then_use us u) = Use-Sound u (Uses-Sound us)

-- A buffer that `Get` gives.
pub record Fresh (b : Buffer) (lent : List Buffer) : Type 0 where
  pub empty : b.content ≡ []
  pub small : b.cap ≤ buffer_max_size
  pub not_shared : count b.id lent ≡ 0

at_id_self : (b : Buffer) → at_id b.id b ≡ 1
unfolding at_id
at_id_self b = rw ((==_iff b.id b.id).1 refl) refl

-- However the buffers of the pool were used before, written to, grown and put back by users that do not touch a
-- buffer after they put it back, and whatever the pool dropped: every value that `Get` can take from the pool is empty, has at most 256 KiB, and is in use by nobody;
-- and so is every buffer that it makes.
pub get-Fresh :
    (t : Tank)
    → Uses new_tank t
    → ((before after : List Buffer) (b : Buffer) → t.free ≡ before ++ b ∷ after → Fresh b t.lent)
      × Fresh (new_buffer t.next_id) t.lent
get-Fresh t us =
    let s = Uses-Sound us in
    (
      λ before after b e.
          let clean = AllClean-append before after b (subst AllClean e s.clean) in
          record {
            empty = clean.0.0;
            small = clean.0.1;
            not_shared =
                let total = s.alone b.id in
                let taken = ap (count b.id) e in
                omega (arith, count-insert b.id before after b, at_id_self b);
          },
      record {
        empty = refl;
        small = omega arith;
        not_shared = let none_there = s.below t.next_id (omega arith) in omega arith;
      },
    )
