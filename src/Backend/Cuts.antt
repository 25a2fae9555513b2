-- ===== src/Backend/Cuts.antt =====
-- The limits of a body, and the checks of the arguments of a request.
use caddy_esi.Prelude.{
  ℕ, ◌-◌, ◌≤◌, ◌<◌, ◌^◌, ◌≡◌, refl, sym, inl, inr, Bool, true, false, [], Option, none, some, arith,
  ltb, length, take, drop, Bool-cases, ltb→lt, lt→ltb, append-nil, take_all, take-append-drop,
  length-take, if◌then◌else◌,
}
use caddy_esi.Prelude.Int.{pos, negsuc}
use caddy_esi.Prelude.Text.{Bytes}
use caddy_esi.EsiTag.Args.{
  ResourceArgs, ExternalReq, Missing, validate, validate_with_key, validate_tag, validate_request,
  url_empty, key_empty,
}
use caddy_esi.EsiTag.Entity.{TagConfig}
use caddy_esi.Backend.{to_int, cut_to, limit_reader, Bounded}

-- The two ways to cut a body.
take-Bounded : (n : ℕ) (sent : Bytes) → Bounded n sent (take n sent)
take-Bounded n sent = record {
  rest = drop n sent;
  begins = sym (take-append-drop n sent);
  at_most = omega (arith, length-take n sent);
  none_lost = λ h. take_all n sent h;
}

to_int-pos : (n : ℕ) → n < 2 ^ 63 → to_int n ≡ pos n
unfolding to_int
to_int-pos n h = rw (lt→ltb n (2 ^ 63) h) refl

pub limit_reader-Bounded :
    (n : ℕ) (sent : Bytes) → n < 2 ^ 63 → Bounded n sent (limit_reader (to_int n) sent)
limit_reader-Bounded n sent h = rw (to_int-pos n h) (take-Bounded n sent)

whole-Bounded : (n : ℕ) (sent : Bytes) → length sent ≤ n → Bounded n sent sent
whole-Bounded n sent h = record {
  rest = [];
  begins = sym (append-nil sent);
  at_most = h;
  none_lost = λ _. refl;
}

pub cut_to-Bounded :
    (n : ℕ) (sent : Bytes) → 0 < n → n < 2 ^ 63 → Bounded n sent (cut_to (to_int n) sent)
cut_to-Bounded n sent p h = elim (Bool-cases (ltb n (length sent))) [
  | inl e ↦ rw (to_int-pos n h, e, lt→ltb 0 n p) (take-Bounded n sent)
  | inr e ↦ rw (to_int-pos n h, e) (whole-Bounded n sent (ground arith))
]

pub to_int_wraps : (n : ℕ) → 2 ^ 63 ≤ n → to_int n ≡ negsuc (2 ^ 64 - n - 1)
unfolding to_int
to_int_wraps n h = elim (Bool-cases (ltb n (2 ^ 63))) [
  | inl e ↦ absurd (let l = ltb→lt n (2 ^ 63) e in omega arith)
  | inr e ↦ rw e refl
]

pub tag-size : (tag : TagConfig) → validate_tag tag ≡ none → 0 < tag.max_body_size
tag-size tag h = ground arith

pub request-size :
    (o : Option ExternalReq) (tag : TagConfig)
    → validate_request o tag ≡ none
    → 0 < tag.max_body_size
request-size none tag h = absurd (cc)
request-size (some r) tag h = tag-size tag h

pub guarded :
    (b : Bool) (e : Missing) (o : Option Missing) → (if b then some e else o) ≡ none → o ≡ none
guarded true e o h = absurd (cc)
guarded false e o h = h

pub validate-size : (args : ResourceArgs) → validate args ≡ none → 0 < args.tag.max_body_size
validate-size args h = request-size args.external_req args.tag (guarded _ url_empty _ h)

pub validate_with_key-size :
    (args : ResourceArgs) → validate_with_key args ≡ none → 0 < args.tag.max_body_size
validate_with_key-size args h = request-size args.external_req args.tag (guarded _ key_empty _ h)

-- The bodies that `cut_to` and `limit_reader` leave of what was sent.
pub cut_to-wraps : (n : ℕ) (sent : Bytes) → 2 ^ 63 ≤ n → cut_to (to_int n) sent ≡ sent
cut_to-wraps n sent h = rw (to_int_wraps n h) refl

pub limit_reader-wraps : (n : ℕ) (sent : Bytes) → 2 ^ 63 ≤ n → limit_reader (to_int n) sent ≡ []
limit_reader-wraps n sent h = rw (to_int_wraps n h) refl
