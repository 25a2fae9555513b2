-- ===== src/Response/Headers.antt =====
-- The header of a client behind the loop `for k, v := range header { w.Header()[k] = v }`.
use caddy_esi.Prelude.{
  ◌≡◌, refl, sym, ap, ◌∙◌, false, List, [], ◌∷◌, none, some, Bool-cases, inl, inr, if◌then◌else◌,
}
use mathlib.Core.Bool.{true≢false}
use caddy_esi.Prelude.Int.{ℤ}
use caddy_esi.Prelude.Text.{Bytes, equal, equal_iff}
use caddy_esi.Http.{Header, header_values, header_put, header_values-put, header_values-put_ne}
use caddy_esi.Response.{Decimals, lengthen}
use caddy_esi.Response.Buffered.{is_zero}
use caddy_esi.Response.Buffered.Sends.{put_all_header}

-- No key has two entries, as in a map of Go.
abbrev pub IsMap : Header → Type 0
IsMap [] = Unit
IsMap ((k, vs) ∷ h) = (header_values h k ≡ none) × IsMap h

equal_swap : (a b : Bytes) → equal a b ≡ false → equal b a ≡ false
equal_swap a b n = elim (Bool-cases (equal b a)) [
  | inl e ↦ absurd (true≢false (sym ((equal_iff a b).1 (sym ((equal_iff b a).0 e))) ∙ n))
  | inr e ↦ e
]

pub put-IsMap : (h : Header) (key : Bytes) (vs : List Bytes) → IsMap h → IsMap (header_put h key vs)
unfolding header_put header_values
put-IsMap [] key vs h = (refl, tt)
put-IsMap ((k, ws) ∷ h) key vs (n, m) = elim (Bool-cases (equal k key)) [
  | inl e ↦ rw (e, header_put) (n, m)
  | inr e ↦
      rw (e, header_put)
        (header_values-put_ne h key k vs (equal_swap k key e) ∙ n, put-IsMap h key vs m)
]

put_all-absent :
    (h h₀ : Header) (key : Bytes)
    → header_values h key ≡ none
    → header_values (put_all_header h h₀) key ≡ header_values h₀ key
unfolding header_values
put_all-absent [] h₀ key n = refl
put_all-absent ((k, vs) ∷ h) h₀ key n = elim (Bool-cases (equal k key)) [
  | inl e ↦ absurd (let m = rw e at n in cc)
  | inr e ↦
      put_all-absent h (header_put h₀ k vs) key (rw e at n) ∙ header_values-put_ne h₀ k key vs e
]

-- Each entry of the header replaces that of the client.
pub put_all-present :
    (h h₀ : Header) (key : Bytes) (vs : List Bytes)
    → IsMap h
    → header_values h key ≡ some vs
    → header_values (put_all_header h h₀) key ≡ some vs
unfolding header_values
put_all-present [] h₀ key vs m e = absurd (cc)
put_all-present ((k, ws) ∷ h) h₀ key vs (n, m) e = elim (Bool-cases (equal k key)) [
  | inl q ↦
      let same : k ≡ key = (equal_iff k key).0 q in
      let absent : header_values h key ≡ none = ap (header_values h) (sym same) ∙ n in
      put_all-absent h (header_put h₀ k ws) key absent
      ∙ ap (λ x. header_values (header_put h₀ x ws) key) same
      ∙ header_values-put h₀ key ws
      ∙ (rw q at e)
  | inr q ↦ put_all-present h (header_put h₀ k ws) key vs m (rw q at e)
]

-- The header with another length of the content.
abbrev pub adjusted : Decimals → ℤ → Header → Header
adjusted d n h = if is_zero n then h else lengthen d h n
