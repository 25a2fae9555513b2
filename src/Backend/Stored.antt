-- ===== src/Backend/Stored.antt =====
-- What a store returns is the value of the key, cut.
use caddy_esi.Prelude.{◌≡◌, refl, sym, ◌∙◌, inl, inr, Bool, Option, none, some}
use caddy_esi.Prelude.Result.{ok}
use caddy_esi.Prelude.Text.{Bytes}
use caddy_esi.Http.{Header}
use caddy_esi.EsiTag.Args.{ResourceArgs, Missing, validate_with_key}
use caddy_esi.Backend.{Answer, to_int, cut_to}
use caddy_esi.Backend.Race.Ends.{Cancellable-do_request}
use caddy_esi.Backend.Race.{StoreReturns, directly, cancellably}
use caddy_esi.Backend.Keyed.{StoreReply, absent, get_error, value, from_store, if_valid}

-- A store.
pub record Stored (get : Bytes → StoreReply) (args : ResourceArgs) (body : Bytes) : Type 0 where
  pub valid : validate_with_key args ≡ none
  pub kept : Bytes
  pub found : get args.tag.key ≡ value kept
  pub body_eq : body ≡ cut_to (to_int args.tag.max_body_size) kept

from_store-Stored :
    (get : Bytes → StoreReply) (args : ResourceArgs) (f : StoreReply) (h : Option Header)
    (body : Bytes)
    → validate_with_key args ≡ none
    → get args.tag.key ≡ f
    → from_store args f ≡ ok (h, body)
    → Stored get args body
from_store-Stored get args absent h body v g e = absurd (cc)
from_store-Stored get args get_error h body v g e = absurd (cc)
from_store-Stored get args (value x) h body v g e = record {
  valid = v;
  kept = x;
  found = g;
  body_eq = cc;
}

if_valid-Stored :
    (get : Bytes → StoreReply) (args : ResourceArgs) (o : Option Missing) (h : Option Header)
    (body : Bytes)
    → validate_with_key args ≡ o
    → if_valid o (from_store args (get args.tag.key)) ≡ ok (h, body)
    → Stored get args body
if_valid-Stored get args (some x) h body v e = absurd (cc)
if_valid-Stored get args none h body v e = from_store-Stored get args _ h body v refl e

pub store-Stored :
    (cancel : Bool) (get : Bytes → StoreReply) (args : ResourceArgs) (a : Answer)
    (h : Option Header) (body : Bytes)
    → StoreReturns cancel get args a
    → a ≡ ok (h, body)
    → Stored get args body
store-Stored cancel get args a h body (directly c) e = if_valid-Stored get args _ h body refl e
store-Stored cancel get args a h body (cancellably c s) e =
    elim (Cancellable-do_request get args s) [
      | inl same ↦ if_valid-Stored get args _ h body refl (sym same ∙ e)
      | inr over ↦ absurd (cc)
    ]
