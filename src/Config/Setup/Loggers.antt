-- ===== src/Config/Setup/Loggers.antt =====
-- The configuration behind its block: the logger and the defaults.
use mathlib.Core.Path.{subst}
use caddy_esi.Prelude.{
  ℕ, ◌≡◌, ◌≢◌, refl, ap, ◌∙◌, List, [], ◌∷◌, Option, none, some, arith, ◌==◌, if◌then◌else◌, inl,
  inr, Bool-cases,
}
use caddy_esi.Prelude.Int.{ℤ, pos, negsuc}
use caddy_esi.Prelude.Result.{Result, ok}
use caddy_esi.Prelude.Text.{Bytes, codes, equal}
use caddy_esi.Config.{
  PathConfig, LogLevel, std_err, std_out, log_to, Log, black_hole, zap, default_max_body_size,
}
use caddy_esi.Config.Setup.{
  Env, SetupError, setup_logger, with_setup_defaults, or_time_out, or_message, log_into, with_level,
  level_of,
}

module _ {Handler : Type 0} (env : Env Handler) where
  -- A configuration that the setup returns.
  pub record IsReady (pc : PathConfig) : Type 0 where
    pub has_size : pc.max_body_size ≢ 0
    pub has_time_out : pc.timeout ≢ pos 0
    pub has_message : pc.on_error ≢ []
    pub has_logger : setup_logger env.can_open pc ≡ ok pc
    pub empty_cache : pc.esi_cache ≡ []

  abbrev pub AllReady : List PathConfig → Type 0
  AllReady [] = Unit
  AllReady (pc ∷ pcs) = IsReady pc × AllReady pcs

  -- The logger of a configuration is the one that its level and its file ask for.
  record Logs (pc pc' : PathConfig) : Type 0 where
    again : setup_logger env.can_open (with_setup_defaults pc') ≡ ok (with_setup_defaults pc')
    same_cache : pc'.esi_cache ≡ pc.esi_cache

  Logs-of :
      (pc pc' x : PathConfig)
      → ◌≡◌ {A = Result SetupError PathConfig} (ok x) (ok pc')
      → Logs pc x
      → Logs pc pc'
  Logs-of pc pc' x h l = let same : x ≡ pc' = cc in subst (Logs pc) same l

  log_into-Logs :
      (pc pc' : PathConfig) (level : LogLevel)
      → level_of pc.log_level ≡ some level
      → log_into env.can_open pc level ≡ ok pc'
      → Logs pc pc'
  unfolding setup_logger
  log_into-Logs pc pc' level e h =
      let with_log : Log → PathConfig = λ l. record pc { log = l } in
      let at : (l : Log)
          → log_into env.can_open (with_setup_defaults (with_log l)) level
            ≡ ok (with_setup_defaults (with_log l))
          → Logs pc (with_log l) =
        λ l q. record {
          again = ap (with_level env.can_open (with_setup_defaults (with_log l))) e ∙ q;
          same_cache = refl;
        } in
      elim (Bool-cases (equal pc.log_file (codes "stderr"))) [
        | inl a ↦
            Logs-of pc pc' (with_log (zap level std_err)) (rw a at h)
              (at (zap level std_err) (rw a refl))
        | inr a ↦ elim (Bool-cases (equal pc.log_file (codes "stdout"))) [
          | inl b ↦
              Logs-of pc pc' (with_log (zap level std_out)) (rw (a, b) at h)
                (at (zap level std_out) (rw (a, b) refl))
          | inr b ↦ elim (Bool-cases (equal pc.log_file [])) [
            | inl d ↦
                Logs-of pc pc' (with_log black_hole) (rw (a, b, d) at h)
                  (at black_hole (rw (a, b, d) refl))
            | inr d ↦ elim (Bool-cases (env.can_open pc.log_file)) [
              | inl o ↦
                  Logs-of pc pc' (with_log (zap level (log_to pc.log_file))) (rw (a, b, d, o) at h)
                    (at (zap level (log_to pc.log_file)) (rw (a, b, d, o) refl))
              | inr o ↦ absurd (let q = rw (a, b, d, o) at h in cc)
            ]
          ]
        ]
      ]

  with_level-Logs :
      (pc pc' : PathConfig) (o : Option LogLevel)
      → level_of pc.log_level ≡ o
      → with_level env.can_open pc o ≡ ok pc'
      → Logs pc pc'
  unfolding setup_logger
  with_level-Logs pc pc' none e h =
      let x : PathConfig = record pc { log = black_hole } in
      Logs-of pc pc' x h (record {
        again = ap (with_level env.can_open (with_setup_defaults x)) e;
        same_cache = refl;
      })
  with_level-Logs pc pc' (some level) e h = log_into-Logs pc pc' level e h

  setup_logger-Logs : (pc pc' : PathConfig) → setup_logger env.can_open pc ≡ ok pc' → Logs pc pc'
  unfolding setup_logger
  setup_logger-Logs pc pc' h = with_level-Logs pc pc' (level_of pc.log_level) refl h

  size-ne : (n : ℕ) → (if n == 0 then default_max_body_size else n) ≢ 0
  size-ne n e = ground arith

  or_time_out-ne : (t : ℤ) → or_time_out t ≢ pos 0
  or_time_out-ne (pos n) e = elim (Bool-cases (n == 0)) [
    | inl z ↦ let q = rw z at e in absurd (cc)
    | inr z ↦ let q = rw z at e in absurd (ground arith)
  ]
  or_time_out-ne (negsuc n) e = absurd (cc)

  or_message-ne : (s : Bytes) → or_message s ≢ []
  or_message-ne [] e = absurd (cc)
  or_message-ne (b ∷ s) e = absurd (cc)

  pub finished-IsReady :
      (pc pc' : PathConfig)
      → pc.esi_cache ≡ []
      → setup_logger env.can_open pc ≡ ok pc'
      → IsReady (with_setup_defaults pc')
  finished-IsReady pc pc' e h =
      let l = setup_logger-Logs pc pc' h in
      record {
        has_size = size-ne pc'.max_body_size;
        has_time_out = or_time_out-ne pc'.timeout;
        has_message = or_message-ne pc'.on_error;
        has_logger = l.again;
        empty_cache = l.same_cache ∙ e;
      }
