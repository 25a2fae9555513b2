-- ===== src/EsiTag/DataTags/Writes.antt =====
-- `InjectContent` reaches its writer by writes only.
use caddy_esi.Prelude.{
  ℕ, ◌+◌, ◌≡◌, refl, sym, ap, ◌∙◌, Bool, true, false, List, [], ◌∷◌, ◌++◌, Option, none, some, ◌==◌,
  ◌||◌, length, Bool-cases, inl, inr, get_elem?, if◌then◌else◌,
}
use caddy_esi.Prelude.Int.{pos}
use caddy_esi.Prelude.Text.{Bytes}
use caddy_esi.Writer.{Writer}
use caddy_esi.EsiTag.DataTags.{
  DataTag, WriteState, waiting, in_progress, done, DataTags, Chunk, has_full_tag, has_pos_start,
  has_pos_end, full_next_tag, NextTag, slice_of, rel_pos_start, rel_pos_end,
}
use caddy_esi.EsiTag.DataTags.Inject.{
  Progress, Step, next, stop, ◌>>=◌, chunk_of, progress_of, put, finished, full_and_next,
  full_alone, start_only, end_only, visit_waiting, visit_in_progress, visit, visit_all, copy_rest,
  returns, inject_nothing, inject_some, inject_content,
}

module _ (w : Writer) where
  open w use {Sink, write}

  -- The sink after writes, one after the other.
  abbrev pub write_list : List Bytes → Sink → Sink
  write_list [] s = s
  write_list (p ∷ ps) s = write_list ps (write s p).sink

  write_list-append :
      (ps : List Bytes) (p : Bytes) (s : Sink)
      → write_list (ps ++ p ∷ []) s ≡ (write (write_list ps s) p).sink
  write_list-append [] p s = refl
  write_list-append (q ∷ ps) p s = write_list-append ps p (write s q).sink

  module _ (s : Sink) where
    -- What can be reached by writes.
    pub record Written (s' : Sink) : Type 0 where
      pub pieces : List Bytes
      pub sink_eq : s' ≡ write_list pieces s

    write-Written : (s' : Sink) (p : Bytes) → Written s' → Written (write s' p).sink
    write-Written s' p h = record {
      pieces = h.pieces ++ p ∷ [];
      sink_eq = ap (λ x. (write x p).sink) h.sink_eq ∙ sym (write_list-append h.pieces p s);
    }

    abbrev StepWritten : Step Sink → Type 0
    StepWritten (next p) = Written p.sink
    StepWritten (stop p e) = Written p.sink

    bind-Written :
        (m : Step Sink) (f : Progress Sink → Step Sink)
        → StepWritten m
        → ((p : Progress Sink) → Written p.sink → StepWritten (f p))
        → StepWritten (m >>= f)
    bind-Written (next p) f h k = k p h
    bind-Written (stop p e) f h k = h

    put-Written : (p : Progress Sink) (o : Option Bytes) → Written p.sink → StepWritten (put w p o)
    put-Written p none h = h
    put-Written p (some bytes) h = elim (Bool-cases (write p.sink bytes).failed) [
      | inl e ↦ rw e (write-Written p.sink bytes h)
      | inr e ↦ rw e (write-Written p.sink bytes h)
    ]

    put_then :
        (p : Progress Sink) (o : Option Bytes) (f : Progress Sink → Step Sink)
        → Written p.sink
        → ((p' : Progress Sink) → Written p'.sink → StepWritten (f p'))
        → StepWritten (put w p o >>= f)
    put_then p o f h k = bind-Written (put w p o) f (put-Written p o h) k

    -- The text behind the last tag.
    tail_then :
        (b : Bool) (p : Progress Sink) (o : Option Bytes) (f : Progress Sink → Step Sink)
        → Written p.sink
        → ((p' : Progress Sink) → Written p'.sink → StepWritten (f p'))
        → StepWritten ((if b then put w p o else next p) >>= f)
    tail_then true p o f h k = put_then p o f h k
    tail_then false p o f h k = k p h

    full_and_next-Written :
        (c : Chunk) (di : ℕ) (t : DataTag) (n : NextTag) (p : Progress Sink)
        → Written p.sink
        → StepWritten (full_and_next w c di t n p)
    unfolding full_and_next
    full_and_next-Written c di t n p h =
        let tail = slice_of c.bytes (rel_pos_end c t) n.rel_pos_start in
        let f₃ = finished w di done (rel_pos_end c t) in
        let f₂ = λ (p₂ : Progress Sink). (if n.is_last then put w p₂ tail else next p₂) >>= f₃ in
        let f₁ = λ (p₁ : Progress Sink). put w p₁ (some t.bytes) >>= f₂ in
        put_then p (slice_of c.bytes p.prev_rel_pos_end (rel_pos_start c t)) f₁ h (λ p₁ h₁.
          put_then p₁ (some t.bytes) f₂ h₁
            (λ p₂ h₂. tail_then n.is_last p₂ tail f₃ h₂ (λ p₃ h₃. h₃)))

    full_alone-Written :
        (c : Chunk) (di : ℕ) (t : DataTag) (p : Progress Sink)
        → Written p.sink
        → StepWritten (full_alone w c di t p)
    unfolding full_alone
    full_alone-Written c di t p h =
        let tail = slice_of c.bytes (rel_pos_end c t) (pos (length c.bytes)) in
        let f₃ = finished w di done (rel_pos_end c t) in
        let f₂ = λ (p₂ : Progress Sink). put w p₂ tail >>= f₃ in
        let f₁ = λ (p₁ : Progress Sink). put w p₁ (some t.bytes) >>= f₂ in
        put_then p (slice_of c.bytes (pos 0) (rel_pos_start c t)) f₁ h (λ p₁ h₁.
          put_then p₁ (some t.bytes) f₂ h₁ (λ p₂ h₂. put_then p₂ tail f₃ h₂ (λ p₃ h₃. h₃)))

    start_only-Written :
        (c : Chunk) (di : ℕ) (t : DataTag) (p : Progress Sink)
        → Written p.sink
        → StepWritten (start_only w c di t p)
    unfolding start_only
    start_only-Written c di t p h =
        let f₂ = λ (p₂ : Progress Sink). finished w di in_progress p₂.prev_rel_pos_end p₂ in
        let f₁ = λ (p₁ : Progress Sink). put w p₁ (some t.bytes) >>= f₂ in
        put_then p (slice_of c.bytes (pos 0) (rel_pos_start c t)) f₁ h
          (λ p₁ h₁. put_then p₁ (some t.bytes) f₂ h₁ (λ p₂ h₂. h₂))

    end_only-Written :
        (c : Chunk) (di : ℕ) (t : DataTag) (p : Progress Sink)
        → Written p.sink
        → StepWritten (end_only w c di t p)
    unfolding end_only
    end_only-Written c di t p h =
        put_then p (slice_of c.bytes (rel_pos_end c t) (pos (length c.bytes)))
          (λ (p₁ : Progress Sink). finished w di done p₁.prev_rel_pos_end p₁) h (λ p₁ h₁. h₁)

    visit_waiting-Written :
        (c : Chunk) (di : ℕ) (t : DataTag) (p : Progress Sink)
        → Written p.sink
        → StepWritten (visit_waiting w c di t p)
    unfolding visit_waiting
    visit_waiting-Written c di t p h = elim (Bool-cases (has_full_tag c t)) [
      | inl e ↦
          let n = full_next_tag c (di + 1) in
          elim (Bool-cases n.has_next) [
            | inl k ↦ rw (e, k) (full_and_next-Written c di t n p h)
            | inr k ↦ rw (e, k) (full_alone-Written c di t p h)
          ]
      | inr e ↦ elim (Bool-cases (has_pos_start c t)) [
        | inl k ↦ rw (e, k) (start_only-Written c di t p h)
        | inr k ↦ rw (e, k) h
      ]
    ]

    visit_in_progress-Written :
        (c : Chunk) (di : ℕ) (t : DataTag) (p : Progress Sink)
        → Written p.sink
        → StepWritten (visit_in_progress w c di t p)
    unfolding visit_in_progress
    visit_in_progress-Written c di t p h = elim (Bool-cases (has_pos_end c t)) [
      | inl e ↦ rw e (end_only-Written c di t p h)
      | inr e ↦ rw e h
    ]

    visit-Written :
        (o : Option WriteState) (c : Chunk) (di : ℕ) (t : DataTag) (p : Progress Sink)
        → Written p.sink
        → StepWritten (visit w o c di t p)
    visit-Written none c di t p h = h
    visit-Written (some done) c di t p h = h
    visit-Written (some in_progress) c di t p h = visit_in_progress-Written c di t p h
    visit-Written (some waiting) c di t p h = visit_waiting-Written c di t p h

    visit_all-Written :
        (c : Chunk) (di : ℕ) (ts : List DataTag) (p : Progress Sink)
        → Written p.sink
        → StepWritten (visit_all w c di ts p)
    unfolding visit_all
    visit_all-Written c di [] p h = h
    visit_all-Written c di (t ∷ ts) p h =
        bind-Written (visit w (get_elem? p.states di) c di t p) (visit_all w c (di + 1) ts)
          (visit-Written (get_elem? p.states di) c di t p h)
          (λ p' h'. visit_all-Written c (di + 1) ts p' h')

    copy_rest-Written :
        (bytes : Bytes) (p : Progress Sink) → Written p.sink → StepWritten (copy_rest w bytes p)
    copy_rest-Written bytes p h = elim (Bool-cases p.tag_written) [
      | inl e ↦ rw e h
      | inr e ↦ elim (Bool-cases (write p.sink bytes).failed) [
        | inl k ↦ rw (e, k) (write-Written p.sink bytes h)
        | inr k ↦ rw (e, k) (write-Written p.sink bytes h)
      ]
    ]

    returns-Written :
        (dts : DataTags) (cur : ℕ) (m : Step Sink)
        → StepWritten m
        → Written (returns w dts cur m).sink
    returns-Written dts cur (next p) h = h
    returns-Written dts cur (stop p e) h = h

    pub inject_content-Written :
        (dts : DataTags) (bytes : Bytes) → Written (inject_content w dts bytes s).sink
    unfolding inject_content inject_nothing inject_some
    inject_content-Written dts bytes =
        let begin : Written s = record { pieces = []; sink_eq = refl } in
        elim (Bool-cases (length dts.slice == 0 || length bytes == 0)) [
          | inl e ↦ rw e (write-Written s bytes begin)
          | inr e ↦ rw e (
              returns-Written dts (length bytes)
                (visit_all w (chunk_of dts bytes) 0 dts.slice (progress_of dts s)
                  >>= copy_rest w bytes)
                (bind-Written (visit_all w (chunk_of dts bytes) 0 dts.slice (progress_of dts s))
                  (copy_rest w bytes)
                  (visit_all-Written (chunk_of dts bytes) 0 dts.slice (progress_of dts s) begin)
                  (λ p h. copy_rest-Written bytes p h)))
        ]
