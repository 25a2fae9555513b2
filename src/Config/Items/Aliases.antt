-- ===== src/Config/Items/Aliases.antt =====
-- What the loop over the aliases makes of the items.
use caddy_esi.Prelude.{
  ◌≡◌, ◌⊎◌, inl, inr, refl, sym, ap, ◌∙◌, not, ◌&&◌, List, [], ◌∷◌, ◌++◌, append_assoc, append-nil,
  arith, if◌then◌else◌, Bool-cases,
}
use caddy_esi.Prelude.Result.{Result, ok, err, ◌>>=◌, or_fail}
use caddy_esi.Prelude.Text.{Bytes, codes, equal, starts_with}
use caddy_esi.Config.Items.{
  ResourceItem, is_empty, url_by_alias, with_url, resolve_from, resolve, Sources, ItemsError,
  read_failed, json_failed, xml_failed, type_not_supported, ext_type, read_data, decode,
  unmarshal_resource_items,
}

-- An item that has no alias, or whose URL is not an alias.
abbrev pub IsEnd : List ResourceItem → ResourceItem → Type 0
IsEnd items i = (i.alias ≡ []) ⊎ (url_by_alias items i.url ≡ [])

abbrev pub AllEnds : List ResourceItem → List ResourceItem → Type 0
AllEnds items [] = Unit
AllEnds items (i ∷ is) = IsEnd items i × AllEnds items is

-- The items, with the URLs of the aliases that they name.
abbrev pub looked_up : List ResourceItem → List ResourceItem → List ResourceItem
looked_up items [] = []
looked_up items (i ∷ is) = with_url i (url_by_alias items i.url) ∷ looked_up items is

abbrev chosen : Bytes → Bytes → Bytes → Bytes → Bytes
chosen alias url rest wanted = if equal alias wanted && not (is_empty wanted) then url else rest

-- An item without an alias is never chosen.
unnamed : (url rest wanted : Bytes) → chosen [] url rest wanted ≡ rest
unfolding equal
unnamed url rest [] = refl
unnamed url rest (c ∷ s) = ground arith

url_by_alias-cons :
    (i j : ResourceItem) (is js : List ResourceItem) (wanted : Bytes)
    → i.alias ≡ j.alias
    → (i.alias ≡ []) ⊎ (i.url ≡ j.url)
    → url_by_alias is wanted ≡ url_by_alias js wanted
    → url_by_alias (i ∷ is) wanted ≡ url_by_alias (j ∷ js) wanted
unfolding url_by_alias
url_by_alias-cons i j is js wanted a (inl e) h =
    ap (λ l. chosen l i.url (url_by_alias is wanted) wanted) e
    ∙ unnamed i.url (url_by_alias is wanted) wanted
    ∙ h
    ∙ sym (unnamed j.url (url_by_alias js wanted) wanted)
    ∙ ap (λ l. chosen l j.url (url_by_alias js wanted) wanted) (sym e ∙ a)
url_by_alias-cons i j is js wanted a (inr u) h =
    ap (λ l. chosen l i.url (url_by_alias is wanted) wanted) a
    ∙ ap (λ l. chosen j.alias l (url_by_alias is wanted) wanted) u
    ∙ ap (λ l. chosen j.alias j.url l wanted) h

url_by_alias-replace :
    (done is : List ResourceItem) (i j : ResourceItem) (wanted : Bytes)
    → i.alias ≡ j.alias
    → (i.alias ≡ []) ⊎ (i.url ≡ j.url)
    → url_by_alias (done ++ i ∷ is) wanted ≡ url_by_alias (done ++ j ∷ is) wanted
url_by_alias-replace [] is i j wanted a u = url_by_alias-cons i j is is wanted a u refl
url_by_alias-replace (d ∷ done) is i j wanted a u =
    url_by_alias-cons d d (done ++ i ∷ is) (done ++ j ∷ is) wanted refl (inr refl)
      (url_by_alias-replace done is i j wanted a u)

with_url-alias : (i : ResourceItem) (u : Bytes) → i.alias ≡ (with_url i u).alias
with_url-alias i [] = refl
with_url-alias i (c ∷ u) = refl

-- Whether the item is an end is known before it is replaced.
with_url-end :
    (items : List ResourceItem) (i : ResourceItem)
    → IsEnd items i
    → (i.alias ≡ []) ⊎ (i.url ≡ (with_url i (url_by_alias items i.url)).url)
with_url-end items i (inl e) = inl e
with_url-end items i (inr e) = inr (ap (λ u. (with_url i u).url) (sym e))

resolve_from-looked_up :
    (items done is : List ResourceItem)
    → ((wanted : Bytes) → url_by_alias (done ++ is) wanted ≡ url_by_alias items wanted)
    → AllEnds items is
    → resolve_from done is ≡ done ++ looked_up items is
unfolding resolve_from
resolve_from-looked_up items done [] same h = sym (append-nil done)
resolve_from-looked_up items done (i ∷ is) same (e, h) =
    let j = with_url i (url_by_alias items i.url) in
    let now : with_url i (url_by_alias (done ++ i ∷ is) i.url) ≡ j = ap (with_url i) (same i.url) in
    let kept : (wanted : Bytes)
        → url_by_alias ((done ++ j ∷ []) ++ is) wanted ≡ url_by_alias items wanted =
      λ wanted.
        ap (λ l. url_by_alias l wanted) (append_assoc done (j ∷ []) is)
        ∙ sym
            (url_by_alias-replace done is i j wanted (with_url-alias i _) (with_url-end items i e))
        ∙ same wanted in
    ap (λ k. resolve_from (done ++ k ∷ []) is) now
    ∙ resolve_from-looked_up items (done ++ j ∷ []) is kept h
    ∙ append_assoc done (j ∷ []) (looked_up items is)

-- If no item with an alias has the alias of an item as its URL, the loop gives every item whose URL is an alias
-- the URL behind the alias, as it stands in the file, and leaves the others as they are.
pub resolve-looked_up :
    (items : List ResourceItem) → AllEnds items items → resolve items ≡ looked_up items items
resolve-looked_up items h = resolve_from-looked_up items [] items (λ wanted. refl) h

module _ (p : Sources) where
  -- The decoder of a format, and the loop.
  abbrev as_json : Bytes → Result ItemsError (List ResourceItem)
  as_json text = or_fail json_failed (p.decode_json text) >>= (λ items. ok (resolve items))

  abbrev as_xml : Bytes → Result ItemsError (List ResourceItem)
  as_xml text = or_fail xml_failed (p.decode_xml text) >>= (λ items. ok (resolve items))

  abbrev from_file :
      (Bytes → Result ItemsError (List ResourceItem))
      → Bytes
      → Result ItemsError (List ResourceItem)
  from_file format name = or_fail read_failed (p.read_file name) >>= format

  -- The formats without the bits.
  abbrev pub unmarshal_reference : Bytes → Result ItemsError (List ResourceItem)
  unmarshal_reference name =
      if equal (p.ext name) (codes ".json")
      then from_file as_json name
      else if equal (p.ext name) (codes ".xml")
      then from_file as_xml name
      else if starts_with (codes "[") name
      then as_json name
      else if starts_with (codes "<?xml") name
      then as_xml name
      else err type_not_supported

  -- The bits of `extType` select the source and the decoder by the extension of the name, and by the
  -- beginning of a name that is the text itself; a text is never read from a file, and a file never taken as
  -- text.
  pub unmarshal_resource_items-reference :
      (name : Bytes) → unmarshal_resource_items p name ≡ unmarshal_reference name
  unfolding unmarshal_resource_items ext_type read_data decode
  unmarshal_resource_items-reference name = elim (Bool-cases (equal (p.ext name) (codes ".json"))) [
    | inl e ↦ rw (e, ext_type) refl
    | inr e ↦ elim (Bool-cases (equal (p.ext name) (codes ".xml"))) [
      | inl x ↦ rw (e, x, ext_type) refl
      | inr x ↦ elim (Bool-cases (starts_with (codes "[") name)) [
        | inl b ↦ rw (e, x, b, ext_type) refl
        | inr b ↦ elim (Bool-cases (starts_with (codes "<?xml") name)) [
          | inl c ↦ rw (e, x, b, c, ext_type) refl
          | inr c ↦ rw (e, x, b, c, ext_type) refl
        ]
      ]
    ]
  ]
