-- ===== src/EsiTag/Entity/Coalesce.antt =====
-- esitag/esi_tag.go: `Entities.SplitCoalesce`, `HasCoalesce` and `UniqueID`. The hash is a parameter.
use caddy_esi.Prelude.{◌≡◌, refl, ◌⊎◌, inl, inr, Bool, true, false, List, [], ◌∷◌, if◌then◌else◌}
use caddy_esi.Prelude.Text.{Bytes}
use caddy_esi.EsiTag.Entity.{Entity}

module _ {Handler : Type 0} where
  -- One round of the loop.
  abbrev split_one :
      Bool
      → Entity Handler
      → List (Entity Handler) × List (Entity Handler)
      → List (Entity Handler) × List (Entity Handler)
  split_one b e (coalesce, non_coalesce) =
      if b then (e ∷ coalesce, non_coalesce) else (coalesce, e ∷ non_coalesce)

  -- The two slices, (coalesce, nonCoalesce).
  unfoldable pub split_coalesce :
      List (Entity Handler) → List (Entity Handler) × List (Entity Handler)
  split_coalesce [] = ([], [])
  split_coalesce (e ∷ et) = split_one e.config.coalesce e (split_coalesce et)

  unfoldable pub has_coalesce : List (Entity Handler) → Bool
  has_coalesce [] = false
  has_coalesce (e ∷ et) = let rest = has_coalesce et in if e.config.coalesce then true else rest

  -- The two lists, each in its order, make up the third.
  pub data Merged
      : List (Entity Handler) → List (Entity Handler) → List (Entity Handler) → Type 0 where
    nil : Merged [] [] []
    left :
        (e : Entity Handler) {xs ys zs : List (Entity Handler)}
        → Merged xs ys zs
        → Merged (e ∷ xs) ys (e ∷ zs)
    right :
        (e : Entity Handler) {xs ys zs : List (Entity Handler)}
        → Merged xs ys zs
        → Merged xs (e ∷ ys) (e ∷ zs)

  abbrev pub AllCoalesce : Bool → List (Entity Handler) → Type 0
  AllCoalesce b [] = Unit
  AllCoalesce b (e ∷ et) = (e.config.coalesce ≡ b) × AllCoalesce b et

  pub record Splits (et coalesce non_coalesce : List (Entity Handler)) (found : Bool) : Type 0 where
    pub merged : Merged coalesce non_coalesce et
    pub all : AllCoalesce true coalesce
    pub none : AllCoalesce false non_coalesce
    pub has : ((found ≡ false) × (coalesce ≡ [])) ⊎ (found ≡ true)

  split_one-Splits :
      (b : Bool) (e : Entity Handler) (et cs ns : List (Entity Handler)) (found : Bool)
      → e.config.coalesce ≡ b
      → Splits et cs ns found
      → let (cs', ns') = split_one b e (cs, ns) in
        Splits (e ∷ et) cs' ns' (if b then true else found)
  split_one-Splits true e et cs ns found h s = record {
    merged = left e s.merged;
    all = (h, s.all);
    none = s.none;
    has = inr refl;
  }
  split_one-Splits false e et cs ns found h s = record {
    merged = right e s.merged;
    all = s.all;
    none = (h, s.none);
    has = s.has;
  }

  -- `SplitCoalesce` puts each tag into one of its two slices, by whether it is to be coalesced, and keeps
  -- the order of the tags; if `HasCoalesce` is false there are none to be coalesced.
  pub split_coalesce-Splits :
      (et : List (Entity Handler))
      → Splits et (split_coalesce et).0 (split_coalesce et).1 (has_coalesce et)
  unfolding split_coalesce has_coalesce
  split_coalesce-Splits [] = record { merged = nil; all = tt; none = tt; has = inl (refl, refl) }
  split_coalesce-Splits (e ∷ et) =
      let (cs, ns) = split_coalesce et in
      split_one-Splits e.config.coalesce e et cs ns (has_coalesce et) refl
        (split_coalesce-Splits et)

-- The state of the hash, with `Write` and `Sum64`.
module _ {Handler : Type 0} (State : Type 0) (write : State → Bytes → State) where
  abbrev hash_all : State → List (Entity Handler) → State
  hash_all h [] = h
  hash_all h (e ∷ et) = hash_all (write h e.raw_tag) et

  abbrev pub unique_id : State → {Sum : Type 0} → (State → Sum) → List (Entity Handler) → Sum
  unique_id new sum64 et = sum64 (hash_all new et)
