-- ===== src/EsiTag/Attributes/RoundTrip.antt =====
-- Attributes that are written in the form `name="value"` are read back.
use caddy_esi.Prelude.{
  ℕ, suc, ◌+◌, ◌-◌, ◌%◌, ◌≡◌, ◌≢◌, refl, sym, ap, ◌∙◌, true, false, List, [], ◌∷◌, ◌++◌, arith,
  length, append_assoc, append-nil, length-append, take-append_length, ◌==◌, ltb, length_pos,
}
use caddy_esi.Prelude.Result.{ok}
use caddy_esi.Prelude.Text.{Bytes}
use caddy_esi.Helper.Unicode.{Rune, Unicode, encoded}
use caddy_esi.EsiTag.Attributes.{
  separates, field, fields_func, unquoted, with_values, split_attributes,
}

-- `blank name = quote value quote`; a quote is one byte long.
pub record Attribute : Type 0 where
  pub blank : Rune
  pub name : List Rune
  pub equals : Rune
  pub quote : Rune
  pub value : List Rune
  pub mark : ℕ

abbrev pub render : List Attribute → List Rune
render [] = []
render (a ∷ more) = a.blank ∷ (a.name ++ a.equals ∷ a.quote ∷ (a.value ++ a.quote ∷ render more))

module _ (u : Unicode) where
  -- A rune that neither separates fields nor is a quote; 0 is the mark for no quote.
  pub record IsPlain (r : Rune) : Type 0 where
    pub no_zero : r.code ≢ 0
    pub no_quote : u.is_quote r.code ≡ false
    pub no_space : u.is_space r.code ≡ false
    pub no_equals : r.code ≢ b'='

  abbrev pub AllPlain : List Rune → Type 0
  AllPlain [] = Unit
  AllPlain (r ∷ rs) = IsPlain r × AllPlain rs

  abbrev pub AllBut : ℕ → List Rune → Type 0
  AllBut q [] = Unit
  AllBut q (r ∷ rs) = (r.code ≢ q) × AllBut q rs

  pub record IsAttribute (a : Attribute) : Type 0 where
    pub blank_zero : a.blank.code ≢ 0
    pub blank_quote : u.is_quote a.blank.code ≡ false
    pub blank_space : u.is_space a.blank.code ≡ true
    pub name_plain : AllPlain a.name
    pub name_ne : encoded a.name ≢ []
    pub equals_eq : a.equals.code ≡ b'='
    pub equals_quote : u.is_quote b'=' ≡ false
    pub quote_zero : a.quote.code ≢ 0
    pub quote_quote : u.is_quote a.quote.code ≡ true
    pub quote_bytes : a.quote.bytes ≡ a.mark ∷ []
    pub value_but : AllBut a.quote.code a.value
    pub value_ne : encoded a.value ≢ []

  abbrev pub AllAttributes : List Attribute → Type 0
  AllAttributes [] = Unit
  AllAttributes (a ∷ more) = IsAttribute a × AllAttributes more

  -- The names and the values, in turn, as `SplitAttributes` returns them.
  abbrev pub names_and_values : List Attribute → List Bytes
  names_and_values [] = []
  names_and_values (a ∷ more) =
      encoded a.name ∷ u.trim_space (encoded a.value) ∷ names_and_values more

  abbrev quoted : Attribute → Bytes
  quoted a = a.mark ∷ (encoded a.value ++ a.mark ∷ [])

  abbrev raw_fields : List Attribute → List Bytes
  raw_fields [] = []
  raw_fields (a ∷ more) = encoded a.name ∷ quoted a ∷ raw_fields more

  field_ne : (cur : Bytes) (fs : List Bytes) → cur ≢ [] → field u cur fs ≡ cur ∷ fs
  field_ne [] fs h = absurd (h refl)
  field_ne (c ∷ cur) fs h = refl

  fields_func-separator :
      (cur : Bytes) (r : Rune) (rs : List Rune)
      → separates u 0 r.code ≡ (true, 0)
      → fields_func u 0 cur (r ∷ rs) ≡ field u cur (fields_func u 0 [] rs)
  unfolding fields_func
  fields_func-separator cur r rs h = rw h refl

  fields_func-inside :
      (q q' : ℕ) (cur : Bytes) (r : Rune) (rs : List Rune)
      → separates u q r.code ≡ (false, q')
      → fields_func u q cur (r ∷ rs) ≡ fields_func u q' (cur ++ r.bytes) rs
  unfolding fields_func
  fields_func-inside q q' cur r rs h = rw h refl

  fields_func-plain :
      (w : List Rune) (cur : Bytes) (rs : List Rune)
      → AllPlain w
      → fields_func u 0 cur (w ++ rs) ≡ fields_func u 0 (cur ++ encoded w) rs
  fields_func-plain [] cur rs h = ap (λ c. fields_func u 0 c rs) (sym (append-nil cur))
  fields_func-plain (r ∷ w) cur rs (p, h) =
      let s : separates u 0 r.code ≡ (false, 0) =
        rw (p.no_quote, p.no_space) (ground (arith, p.no_zero, p.no_equals)) in
      fields_func-inside 0 0 cur r (w ++ rs) s
      ∙ fields_func-plain w (cur ++ r.bytes) rs h
      ∙ ap (λ c. fields_func u 0 c rs) (append_assoc cur r.bytes (encoded w))

  fields_func-quoted :
      (q : ℕ) (v : List Rune) (cur : Bytes) (rs : List Rune)
      → q ≢ 0
      → AllBut q v
      → fields_func u q cur (v ++ rs) ≡ fields_func u q (cur ++ encoded v) rs
  fields_func-quoted q [] cur rs z h = ap (λ c. fields_func u q c rs) (sym (append-nil cur))
  fields_func-quoted q (r ∷ v) cur rs z (ne, h) =
      let s : separates u q r.code ≡ (false, q) = ground arith in
      fields_func-inside q q cur r (v ++ rs) s
      ∙ fields_func-quoted q v (cur ++ r.bytes) rs z h
      ∙ ap (λ c. fields_func u q c rs) (append_assoc cur r.bytes (encoded v))

  -- The fields of one attribute, behind a field `cur`.
  fields_func-attribute :
      (a : Attribute) (rs : List Rune) (cur : Bytes)
      → IsAttribute a
      → cur ≢ []
      → fields_func u 0 cur (a.blank ∷ (a.name ++ a.equals ∷ a.quote ∷ (a.value ++ a.quote ∷ rs)))
        ≡ cur ∷ encoded a.name ∷ fields_func u 0 (quoted a) rs
  fields_func-attribute a rs cur h ne =
      let behind = a.value ++ a.quote ∷ rs in
      let name_on = a.name ++ a.equals ∷ a.quote ∷ behind in
      let blank : separates u 0 a.blank.code ≡ (true, 0) =
        rw (h.blank_quote, h.blank_space) (ground (arith, h.blank_zero)) in
      let equals : separates u 0 a.equals.code ≡ (true, 0) =
        ap (separates u 0) h.equals_eq ∙ rw h.equals_quote (ground arith) in
      let opens : separates u 0 a.quote.code ≡ (false, a.quote.code) =
        rw h.quote_quote (ground (arith, h.quote_zero)) in
      let closes : separates u a.quote.code a.quote.code ≡ (false, 0) = ground arith in
      let text : (a.quote.bytes ++ encoded a.value) ++ a.quote.bytes ≡ quoted a =
        ap (λ b. (b ++ encoded a.value) ++ b) h.quote_bytes in
      let value : fields_func u 0 [] (a.quote ∷ behind) ≡ fields_func u 0 (quoted a) rs =
        fields_func-inside 0 a.quote.code [] a.quote behind opens
        ∙ fields_func-quoted a.quote.code a.value a.quote.bytes (a.quote ∷ rs) h.quote_zero
            h.value_but
        ∙ fields_func-inside a.quote.code 0 (a.quote.bytes ++ encoded a.value) a.quote rs closes
        ∙ ap (λ c. fields_func u 0 c rs) text in
      let name : fields_func u 0 [] name_on ≡ encoded a.name ∷ fields_func u 0 (quoted a) rs =
        fields_func-plain a.name [] (a.equals ∷ a.quote ∷ behind) h.name_plain
        ∙ fields_func-separator (encoded a.name) a.equals (a.quote ∷ behind) equals
        ∙ field_ne (encoded a.name) (fields_func u 0 [] (a.quote ∷ behind)) h.name_ne
        ∙ ap (λ fs. encoded a.name ∷ fs) value in
      fields_func-separator cur a.blank name_on blank
      ∙ field_ne cur (fields_func u 0 [] name_on) ne
      ∙ ap (λ fs. cur ∷ fs) name

  fields_func-render :
      (attributes : List Attribute) (cur : Bytes)
      → AllAttributes attributes
      → cur ≢ []
      → fields_func u 0 cur (render attributes) ≡ cur ∷ raw_fields attributes
  unfolding fields_func
  fields_func-render [] cur h ne = field_ne cur [] ne
  fields_func-render (a ∷ more) cur (h, hs) ne =
      fields_func-attribute a (render more) cur h ne
      ∙ ap (λ fs. cur ∷ encoded a.name ∷ fs) (fields_func-render more (quoted a) hs (λ e. cc))

  unquoted-quoted : (a : Attribute) → encoded a.value ≢ [] → unquoted u (quoted a) ≡ encoded a.value
  unquoted-quoted a ne =
      let v = encoded a.value in
      let size : length (quoted a) ≡ suc (length v + 1) = ap suc (length-append v (a.mark ∷ [])) in
      let pos = length_pos v ne in
      let n : length (quoted a) - 2 ≡ length v = omega arith in
      let long : ltb 2 (length (quoted a)) ≡ true = ground arith in
      rw (long, n) (take-append_length v (a.mark ∷ []))

  with_values-raw_fields :
      (attributes : List Attribute)
      → AllAttributes attributes
      → with_values u (raw_fields attributes) ≡ names_and_values attributes
  with_values-raw_fields [] h = refl
  with_values-raw_fields (a ∷ more) (h, hs) =
      rw (unquoted-quoted a h.value_ne, with_values-raw_fields more hs) refl

  raw_fields-even : (attributes : List Attribute) → length (raw_fields attributes) % 2 ≡ 0
  raw_fields-even [] = refl
  raw_fields-even (a ∷ more) = omega (arith, raw_fields-even more)

  -- A raw tag that is a word and attributes of the form `name="value"`, each behind a space, is split into
  -- the names and the trimmed values, in order: the quotes are any quotation marks of one byte, a value
  -- may hold spaces, `=` and other quotes, and neither names nor values are empty.
  pub split_attributes-render :
      (raw : Bytes) (include : List Rune) (attributes : List Attribute)
      → AllPlain include
      → encoded include ≢ []
      → AllAttributes attributes
      → u.decode raw ≡ include ++ render attributes
      → split_attributes u raw ≡ ok (names_and_values attributes)
  unfolding split_attributes
  split_attributes-render raw include attributes p ne h d =
      let fields : fields_func u 0 [] (u.decode raw) ≡ encoded include ∷ raw_fields attributes =
        ap (fields_func u 0 []) d
        ∙ fields_func-plain include [] (render attributes) p
        ∙ fields_func-render attributes (encoded include) h ne in
      let even : (length (raw_fields attributes) % 2 == 1) ≡ false =
        ground (arith, raw_fields-even attributes) in
      rw (fields, even) (ap ok (with_values-raw_fields attributes h))
