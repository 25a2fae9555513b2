-- ===== src/EsiTag/Replacer/Replaces.antt =====
-- What `Replace` does with a template, and so with every string.
use caddy_esi.Prelude.{
  ℕ, zero, suc, ◌+◌, ◌<◌, ◌≡◌, refl, ap, ◌∙◌, inl, inr, List, [], ◌∷◌, ◌++◌, Option, none, some,
  arith, length, take, drop, append_assoc, length-append, take-append_length, drop-append_length,
  Bool-cases, ◌==◌, get_or, drop-append_add, take-append_add,
}
use caddy_esi.Prelude.Text.{Bytes}
use caddy_esi.Helper.Strings.{Without, index, index_none, index-append}
use caddy_esi.EsiTag.Replacer.{Outside, Replacer, parsed_cookies, get_substitution, replace_loop}
use caddy_esi.EsiTag.Replacer.Templates.{Part, placeholder, render, fill, IsPlain, IsTemplate}

-- Replacers that give the same values: one of them may have parsed the cookies already.
pub record Same (r r' : Replacer) : Type 0 where
  pub request_eq : r'.request ≡ r.request
  pub empty_eq : r'.empty_value ≡ r.empty_value
  pub cookies_eq : parsed_cookies r' ≡ parsed_cookies r

pub Same-refl : (r : Replacer) → Same r r
Same-refl r = record { request_eq = refl; empty_eq = refl; cookies_eq = refl }

Same-trans : (r r' r'' : Replacer) → Same r r' → Same r' r'' → Same r r''
Same-trans r r' r'' h k = record {
  request_eq = k.request_eq ∙ h.request_eq;
  empty_eq = k.empty_eq ∙ h.empty_eq;
  cookies_eq = k.cookies_eq ∙ h.cookies_eq;
}

module _ (o : Outside) where
  abbrev pub value : Replacer → Bytes → Bytes
  value r key = (get_substitution o r key).0

  get_substitution-Same : (r : Replacer) (key : Bytes) → Same r (get_substitution o r key).1
  unfolding get_substitution
  get_substitution-Same r key = elim (Bool-cases (get_or key 1 0 == b'H')) [
    | inl h ↦ rw h (Same-refl r)
    | inr h ↦ elim (Bool-cases (get_or key 1 0 == b'C')) [
      | inl c ↦ rw (h, c) (record { request_eq = refl; empty_eq = refl; cookies_eq = refl })
      | inr c ↦ elim (Bool-cases (get_or key 1 0 == b'F')) [
        | inl f ↦ rw (h, c, f) (Same-refl r)
        | inr f ↦ rw (h, c, f) (Same-refl r)
      ]
    ]
  ]

  value-Same : (r r' : Replacer) (key : Bytes) → Same r r' → value r' key ≡ value r key
  unfolding get_substitution
  value-Same r r' key s = elim (Bool-cases (get_or key 1 0 == b'H')) [
    | inl h ↦
        rw (h, value, get_substitution)
          (let a = s.request_eq in let b = s.empty_eq in let c = s.cookies_eq in cc)
    | inr h ↦ elim (Bool-cases (get_or key 1 0 == b'C')) [
      | inl c ↦
          rw (h, c, value, get_substitution)
            (let a = s.request_eq in let b = s.empty_eq in let c = s.cookies_eq in cc)
      | inr c ↦ elim (Bool-cases (get_or key 1 0 == b'F')) [
        | inl f ↦
            rw (h, c, f, value, get_substitution) (let a = s.request_eq in let b = s.empty_eq in cc)
        | inr f ↦
            rw (h, c, f, value, get_substitution) (let a = s.request_eq in let b = s.empty_eq in cc)
      ]
    ]
  ]

  loop_step :
      (fuel : ℕ) (r : Replacer) (result : Bytes) (p : Part) (rest : Bytes)
      → Without b'{' p.text
      → Without b'}' p.name
      → let k = get_substitution o r (placeholder p.name) in
        replace_loop o (suc fuel) r result (p.text ++ b'{' ∷ (p.name ++ b'}' ∷ rest))
        ≡ replace_loop o fuel k.1 (result ++ (p.text ++ k.0)) rest
  unfolding replace_loop
  loop_step fuel r result p rest ht hn =
      let behind = b'{' ∷ (p.name ++ b'}' ∷ rest) in
      let opens = index-append b'{' p.text (p.name ++ b'}' ∷ rest) ht in
      let closes : index b'}' behind ≡ some (suc (length p.name)) =
        index-append b'}' (b'{' ∷ p.name) rest ((λ e. absurd (omega arith)), hn) in
      let cut : take (suc (length p.name) + 1) behind ≡ placeholder p.name =
        take-append_add (b'{' ∷ p.name) (b'}' ∷ rest) 1 in
      let n : length p.text + suc (length p.name) + 1 ≡ length p.text + (suc (length p.name) + 1) =
        omega arith in
      let strip : drop (suc (length p.name) + 1) behind ≡ rest =
        drop-append_add (b'{' ∷ p.name) (b'}' ∷ rest) 1 in
      rw
        (
          opens,
          replace_loop,
          drop-append_length p.text behind,
          closes,
          drop-append_length p.text behind,
          cut,
          n,
          drop-append_add p.text behind (suc (length p.name) + 1),
          strip,
          take-append_length p.text behind,
        )
        refl

  -- The loop on a template, from any point on: `r` may have parsed the cookies already.
  pub record Fills (r : Replacer) (run : Option (Bytes × Replacer)) (out : Bytes) : Type 0 where
    pub after : Replacer
    pub runs : run ≡ some (out, after)
    pub same : Same r after

  plain_stops :
      (fuel : ℕ) (r : Replacer) (result last : Bytes)
      → IsPlain last
      → replace_loop o (suc fuel) r result last ≡ some (result ++ last, r)
  unfolding replace_loop
  plain_stops fuel r result last (inl h) = rw (index_none b'{' last h, replace_loop) refl
  plain_stops fuel r result last (inr (k, h)) =
      let behind = b'{' ∷ k.after in
      let opens : index b'{' last ≡ some (length k.before) =
        ap (index b'{') k.splits ∙ index-append b'{' k.before k.after k.clear in
      let rest : drop (length k.before) last ≡ behind =
        ap (drop (length k.before)) k.splits ∙ drop-append_length k.before behind in
      let unclosed : index b'}' behind ≡ none =
        index_none b'}' behind ((λ e. absurd (omega arith)), h) in
      rw (opens, replace_loop, rest, unclosed) refl

  pub replace_loop-render :
      (ps : List Part) (last : Bytes) (fuel : ℕ) (r r' : Replacer) (result : Bytes)
      → IsTemplate ps last
      → length (render ps last) < fuel
      → Same r r'
      → Fills r (replace_loop o fuel r' result (render ps last)) (result ++ fill (value r) ps last)
  replace_loop-render ps last zero r r' result t h s = absurd (omega arith)
  replace_loop-render [] last (suc fuel) r r' result t h s = record {
    after = r';
    runs = plain_stops fuel r' result last t;
    same = s;
  }
  replace_loop-render (p ∷ ps) last (suc fuel) r r' result (ht, hn, t) h s =
      let key = placeholder p.name in
      let v = value r' key in
      let more = render ps last in
      let n : length (render (p ∷ ps) last)
          ≡ length p.text + suc (length p.name + suc (length more)) =
        omega (
          arith,
          length-append p.text (b'{' ∷ (p.name ++ b'}' ∷ more)),
          length-append p.name (b'}' ∷ more),
        ) in
      let ih =
        replace_loop-render ps last fuel r (get_substitution o r' key).1 (result ++ (p.text ++ v)) t
          (omega arith)
          (Same-trans r r' (get_substitution o r' key).1 s (get_substitution-Same r' key)) in
      let out : result ++ (p.text ++ v) ++ fill (value r) ps last
          ≡ result ++ fill (value r) (p ∷ ps) last =
        rw (value-Same r r' key s) (simp append_assoc) in
      record {
        after = ih.after;
        runs = loop_step fuel r' result p more ht hn ∙ ih.runs ∙ ap (λ x. some (x, ih.after)) out;
        same = ih.same;
      }
