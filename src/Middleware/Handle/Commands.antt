-- ===== src/Middleware/Handle/Commands.antt =====
-- What a request leaves of a configuration: its settings, and of the cache what it was told to keep.
use caddy_esi.Prelude.{
  ℕ, ◌≡◌, refl, ap, ◌∙◌, Bool, List, [], Option, none, some, Bool-cases, inl, inr,
}
use caddy_esi.Prelude.Result.{Result, ok, err}
use caddy_esi.Prelude.Text.{Bytes, codes, equal}
use caddy_esi.Http.{Header, Request}
use caddy_esi.Helper.RealIp.{Net}
use caddy_esi.EsiTag.Entity.{Entity}
use caddy_esi.Response.{Decimals}
use caddy_esi.Config.{
  Reference, PathConfig, Log, LogLevel, cached, with_defaults, page_id, purge_esi_cache,
}
use caddy_esi.Config.Setup.{SetupError, setup_logger, log_into, with_level, level_of}
use caddy_esi.Middleware.{
  Command, purge, log_as, no_command, logged_as, run_command, handle_header_commands,
}

-- Only the level of the log, the logger and the cache may differ.
pub record SameSettings (cfg cfg' : PathConfig) : Type 0 where
  pub but_log_and_cache :
      cfg' ≡ record cfg { log_level = cfg'.log_level; log = cfg'.log; esi_cache = cfg'.esi_cache }

pub SameSettings-refl : (cfg : PathConfig) → SameSettings cfg cfg
SameSettings-refl cfg = record { but_log_and_cache = refl }

abbrev with_rest : PathConfig → PathConfig → PathConfig
with_rest x c = record x { log_level = c.log_level; log = c.log; esi_cache = c.esi_cache }

pub SameSettings-trans :
    (a b c : PathConfig) → SameSettings a b → SameSettings b c → SameSettings a c
SameSettings-trans a b c h k = record {
  but_log_and_cache =
      k.but_log_and_cache ∙ ap (λ (x : PathConfig). with_rest x c) h.but_log_and_cache;
}

pub with_defaults-SameSettings :
    (cfg cfg' : PathConfig) (e : Entity Reference)
    → SameSettings cfg cfg'
    → with_defaults cfg' e ≡ with_defaults cfg e
with_defaults-SameSettings cfg cfg' e h = ap (λ c. with_defaults c e) h.but_log_and_cache

pub page_id-SameSettings :
    (net : Net) (hash : Bytes → ℕ → ℕ) (canonical : Bytes → Bytes) (cfg cfg' : PathConfig)
    (r : Request)
    → SameSettings cfg cfg'
    → page_id net hash canonical cfg' r ≡ page_id net hash canonical cfg r
page_id-SameSettings net hash canonical cfg cfg' r h =
    ap (λ c. page_id net hash canonical c r) h.but_log_and_cache

-- Whatever is in the cache was in it.
pub record Keeps (cfg cfg' : PathConfig) : Type 0 where
  pub settings : SameSettings cfg cfg'
  pub from_cache :
      (id : ℕ) (es : List (Entity Reference))
      → cached cfg'.esi_cache id ≡ some es
      → cached cfg.esi_cache id ≡ some es

pub Keeps-refl : (cfg : PathConfig) → Keeps cfg cfg
Keeps-refl cfg = record { settings = SameSettings-refl cfg; from_cache = λ id es h. h }

-- A configuration with another logger.
log-Keeps :
    (pc : PathConfig) (level : Bytes) (l : Log)
    → Keeps pc (record pc { log_level = level; log = l })
log-Keeps pc level l = record {
  settings = record { but_log_and_cache = refl };
  from_cache = λ id es h. h;
}

purge-Keeps : (pc : PathConfig) → Keeps pc (purge_esi_cache pc).0
unfolding cached
purge-Keeps pc = record {
  settings = record { but_log_and_cache = refl };
  from_cache = λ id es h. absurd (cc);
}

module _ (can_open : Bytes → Bool) where
  -- Every result of `setupLogger` has another logger, and nothing else.
  log_into-ends :
      (P : Result SetupError PathConfig → Type 0) (pc : PathConfig) (level : LogLevel)
      → ((l : Log) → P (ok (record pc { log = l })))
      → ((e : SetupError) → P (err e))
      → P (log_into can_open pc level)
  log_into-ends P pc level good bad = elim (Bool-cases (equal pc.log_file (codes "stderr"))) [
    | inl a ↦ rw a (good _)
    | inr a ↦ elim (Bool-cases (equal pc.log_file (codes "stdout"))) [
      | inl b ↦ rw (a, b) (good _)
      | inr b ↦ elim (Bool-cases (equal pc.log_file [])) [
        | inl c ↦ rw (a, b, c) (good _)
        | inr c ↦ elim (Bool-cases (can_open pc.log_file)) [
          | inl o ↦ rw (a, b, c, o) (good _)
          | inr o ↦ rw (a, b, c, o) (bad _)
        ]
      ]
    ]
  ]

  with_level-ends :
      (P : Result SetupError PathConfig → Type 0) (pc : PathConfig) (level : Option LogLevel)
      → ((l : Log) → P (ok (record pc { log = l })))
      → ((e : SetupError) → P (err e))
      → P (with_level can_open pc level)
  with_level-ends P pc none good bad = good _
  with_level-ends P pc (some level) good bad = log_into-ends P pc level good bad

  module _ (d : Decimals) (canonical : Bytes → Bytes) where
    run_command-Keeps :
        (pc : PathConfig) (c : Command) → Keeps pc (run_command d canonical can_open pc c).config
    unfolding setup_logger
    run_command-Keeps pc purge = purge-Keeps pc
    run_command-Keeps pc (log_as level) =
        let pc' = record pc { log_level = level } in
        with_level-ends (λ r. Keeps pc (logged_as pc.log_level pc' r).config) pc' (level_of level)
          (λ l. log-Keeps pc level l) (λ e. log-Keeps pc level _)
    run_command-Keeps pc no_command = Keeps-refl pc

    pub handle_header_commands-Keeps :
        (pc : PathConfig) (header : Header)
        → Keeps pc (handle_header_commands d canonical can_open pc header).config
    unfolding handle_header_commands
    handle_header_commands-Keeps pc header = elim (Bool-cases (equal pc.cmd_header_name [])) [
      | inl e ↦ rw e (Keeps-refl pc)
      | inr e ↦ rw e (run_command-Keeps pc _)
    ]
