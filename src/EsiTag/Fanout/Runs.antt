-- ===== src/EsiTag/Fanout/Runs.antt =====
-- The runs of the goroutines: what the receiver gets, and that every run ends.
use mathlib.Core.Path.{subst}
use mathlib.Core.List.{Perm, perm_middle, map-append}
use mathlib.Core.List.Perm
use caddy_esi.Prelude.{
  ℕ, ◌+◌, ◌*◌, ◌≡◌, ◌⊎◌, inl, inr, refl, sym, ap, ◌∙◌, true, false, List, [], ◌∷◌, ◌++◌, arith, map,
  length, append_assoc, append-nil,
}
use caddy_esi.Prelude.Text.{Bytes}
use caddy_esi.EsiTag.DataTags.{DataTag}
use caddy_esi.EsiTag.Fanout.{
  Task, Phase, querying, sending, returned, gave_up, Group, Goroutines, start, start_all, Step,
  answers, sends, gives_up, cancels, Reach, here, next, AllEnd, wait_ok, tag_for,
}

-- How many steps the goroutines have left.
abbrev steps_of : Phase → ℕ
steps_of querying = 2
steps_of sending = 1
steps_of _ = 0

module _ {Handler : Type 0} where
  -- The tasks whose tag has not been taken.
  abbrev pub unsent : Goroutines Handler → List (Task Handler)
  unsent [] = []
  unsent ((t, returned) ∷ gs) = unsent gs
  unsent ((t, _) ∷ gs) = t ∷ unsent gs

  unsent-append : (xs ys : Goroutines Handler) → unsent (xs ++ ys) ≡ unsent xs ++ unsent ys
  unsent-append [] ys = refl
  unsent-append ((t, querying) ∷ xs) ys = ap (λ l. t ∷ l) (unsent-append xs ys)
  unsent-append ((t, sending) ∷ xs) ys = ap (λ l. t ∷ l) (unsent-append xs ys)
  unsent-append ((t, returned) ∷ xs) ys = unsent-append xs ys
  unsent-append ((t, gave_up) ∷ xs) ys = ap (λ l. t ∷ l) (unsent-append xs ys)

  unsent-start_all : (ts : List (Task Handler)) → unsent (start_all ts) ≡ ts
  unsent-start_all [] = refl
  unsent-start_all (t ∷ ts) = ap (λ l. t ∷ l) (unsent-start_all ts)

  unsent_none : (gs : Goroutines Handler) → AllEnd gs → wait_ok gs ≡ true → unsent gs ≡ []
  unsent_none [] e h = refl
  unsent_none ((t, querying) ∷ gs) e h = absurd e
  unsent_none ((t, sending) ∷ gs) e h = absurd e
  unsent_none ((t, returned) ∷ gs) e h = unsent_none gs e h
  unsent_none ((t, gave_up) ∷ gs) e h = absurd (cc)

  -- A phase that `wait_ok` passes over leaves its result alone.
  wait_ok-replace :
      (xs ys : Goroutines Handler) (t : Task Handler) (p q : Phase)
      → wait_ok ((t, p) ∷ ys) ≡ wait_ok ((t, q) ∷ ys)
      → wait_ok (xs ++ (t, p) ∷ ys) ≡ wait_ok (xs ++ (t, q) ∷ ys)
  wait_ok-replace [] ys t p q h = h
  wait_ok-replace ((s, querying) ∷ xs) ys t p q h = wait_ok-replace xs ys t p q h
  wait_ok-replace ((s, sending) ∷ xs) ys t p q h = wait_ok-replace xs ys t p q h
  wait_ok-replace ((s, returned) ∷ xs) ys t p q h = wait_ok-replace xs ys t p q h
  wait_ok-replace ((s, gave_up) ∷ xs) ys t p q h = refl

  wait_ok-start_all : (ts : List (Task Handler)) → wait_ok (start_all ts) ≡ true
  wait_ok-start_all [] = refl
  wait_ok-start_all (t ∷ ts) = wait_ok-start_all ts

  abbrev pub steps_left : Goroutines Handler → ℕ
  steps_left [] = 0
  steps_left ((t, p) ∷ gs) = steps_of p + steps_left gs

  pub steps_left-append :
      (xs ys : Goroutines Handler) → steps_left (xs ++ ys) ≡ steps_left xs + steps_left ys
  steps_left-append [] ys = omega arith
  steps_left-append ((t, p) ∷ xs) ys = omega (arith, steps_left-append xs ys)

  pub steps_left-start_all : (ts : List (Task Handler)) → steps_left (start_all ts) ≡ 2 * length ts
  steps_left-start_all [] = refl
  steps_left-start_all (t ∷ ts) = omega (arith, steps_left-start_all ts)

  -- A goroutine that has not ended.
  pub data Open (gs : Goroutines Handler) : Type 0 where
    at_query :
        (xs ys : Goroutines Handler) (t : Task Handler) → gs ≡ xs ++ (t, querying) ∷ ys → Open gs
    at_send :
        (xs ys : Goroutines Handler) (t : Task Handler) → gs ≡ xs ++ (t, sending) ∷ ys → Open gs

  Open-cons : (g : Task Handler × Phase) (gs : Goroutines Handler) → Open gs → Open (g ∷ gs)
  Open-cons g gs (at_query xs ys t e) = at_query (g ∷ xs) ys t (ap (λ l. g ∷ l) e)
  Open-cons g gs (at_send xs ys t e) = at_send (g ∷ xs) ys t (ap (λ l. g ∷ l) e)

  pub AllEnd-or_Open : (gs : Goroutines Handler) → AllEnd gs ⊎ Open gs
  AllEnd-or_Open [] = inl tt
  AllEnd-or_Open ((t, querying) ∷ gs) = inr (at_query [] gs t refl)
  AllEnd-or_Open ((t, sending) ∷ gs) = inr (at_send [] gs t refl)
  AllEnd-or_Open ((t, returned) ∷ gs) = elim (AllEnd-or_Open gs) [
    | inl e ↦ inl e
    | inr o ↦ inr (Open-cons (t, returned) gs o)
  ]
  AllEnd-or_Open ((t, gave_up) ∷ gs) = elim (AllEnd-or_Open gs) [
    | inl e ↦ inl e
    | inr o ↦ inr (Open-cons (t, gave_up) gs o)
  ]

module _ {Handler : Type 0} (replace : Bytes → Bytes) where
  abbrev pub tags_for : List (Task Handler) → List DataTag
  tags_for ts = map (tag_for replace) ts

  -- What the receiver has and what is still to come is, up to order, one tag for each task; no goroutine
  -- has failed before the context is done.
  record Keeps (ts : List (Task Handler)) (g : Group Handler) : Type 0 where
    all_tags : Perm (g.received ++ tags_for (unsent g.goroutines)) (tags_for ts)
    none_failed : g.is_done ≡ false → wait_ok g.goroutines ≡ true

  unsent-sent :
      (xs ys : Goroutines Handler) (t : Task Handler) (got : List DataTag)
      → Perm
          ((got ++ tag_for replace t ∷ []) ++ tags_for (unsent (xs ++ (t, returned) ∷ ys)))
          (got ++ tags_for (unsent (xs ++ (t, sending) ∷ ys)))
  unsent-sent xs ys t got =
      let d = tag_for replace t in
      let a = tags_for (unsent xs) in
      let b = tags_for (unsent ys) in
      let left : tags_for (unsent (xs ++ (t, returned) ∷ ys)) ≡ a ++ b =
        ap tags_for (unsent-append xs ((t, returned) ∷ ys))
        ∙ map-append (tag_for replace) (unsent xs) (unsent ys) in
      let right : tags_for (unsent (xs ++ (t, sending) ∷ ys)) ≡ a ++ d ∷ b =
        ap tags_for (unsent-append xs ((t, sending) ∷ ys))
        ∙ map-append (tag_for replace) (unsent xs) (t ∷ unsent ys) in
      let moved : Perm (got ++ d ∷ (a ++ b)) (got ++ (a ++ d ∷ b)) =
        Perm.append_left got (Perm.symm (perm_middle a b)) in
      rw (left, right, append_assoc got (d ∷ []) (a ++ b)) moved

  Step-Keeps :
      (ts : List (Task Handler)) {g h : Group Handler} → Step replace g h → Keeps ts g → Keeps ts h
  Step-Keeps ts (answers xs ys t got over) k = record {
    all_tags =
        subst (λ l. Perm (got ++ tags_for l) (tags_for ts))
          (unsent-append xs ((t, querying) ∷ ys) ∙ sym (unsent-append xs ((t, sending) ∷ ys)))
          k.all_tags;
    none_failed = λ e. wait_ok-replace xs ys t sending querying refl ∙ k.none_failed e;
  }
  Step-Keeps ts (sends xs ys t got over) k = record {
    all_tags = Perm.trans (unsent-sent xs ys t got) k.all_tags;
    none_failed = λ e. wait_ok-replace xs ys t returned sending refl ∙ k.none_failed e;
  }
  Step-Keeps ts (gives_up xs ys t got) k = record {
    all_tags =
        subst (λ l. Perm (got ++ tags_for l) (tags_for ts))
          (unsent-append xs ((t, sending) ∷ ys) ∙ sym (unsent-append xs ((t, gave_up) ∷ ys)))
          k.all_tags;
    none_failed = λ e. absurd (cc);
  }
  Step-Keeps ts (cancels gs got) k = record {
    all_tags = k.all_tags;
    none_failed = λ e. absurd (cc);
  }

  Reach-Keeps :
      (ts : List (Task Handler)) {g : Group Handler} → Reach replace (start ts) g → Keeps ts g
  Reach-Keeps ts here = record {
    all_tags =
        subst (λ l. Perm (tags_for l) (tags_for ts)) (sym (unsent-start_all ts))
          (Perm.refl (tags_for ts));
    none_failed = λ e. wait_ok-start_all ts;
  }
  Reach-Keeps ts (next r s) = Step-Keeps ts s (Reach-Keeps ts r)

  -- What `g.Wait()` finds.
  pub record Delivers (ts : List (Task Handler)) (g : Group Handler) : Type 0 where
    pub lost : List DataTag
    pub none_twice : Perm (g.received ++ lost) (tags_for ts)
    pub all_received : wait_ok g.goroutines ≡ true → Perm g.received (tags_for ts)
    pub no_error : g.is_done ≡ false → wait_ok g.goroutines ≡ true

  -- When all goroutines have ended, in whatever order they worked, the receiver has got the tag of each
  -- task at most once, and nothing else. If `Wait` reports no error it has got them all, and it reports none
  -- if the context is not done.
  pub query_resources-Delivers :
      (ts : List (Task Handler)) (g : Group Handler)
      → Reach replace (start ts) g
      → AllEnd g.goroutines
      → Delivers ts g
  query_resources-Delivers ts g r e =
      let k = Reach-Keeps ts r in
      record {
        lost = tags_for (unsent g.goroutines);
        none_twice = k.all_tags;
        all_received = λ ok.
            subst (λ l. Perm l (tags_for ts)) (append-nil g.received)
              (subst (λ l. Perm (g.received ++ tags_for l) (tags_for ts))
                (unsent_none g.goroutines e ok) k.all_tags);
        no_error = k.none_failed;
      }
