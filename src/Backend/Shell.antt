-- ===== src/Backend/Shell.antt =====
-- esitag/backend/shell_exec.go. os/exec and `MarshalJSON`, which is generated, are parameters. The goroutine has
-- ended when the function returns, since it waits for it.
use caddy_esi.Prelude.{
  ℕ, ◌+◌, ◌&&◌, ◌||◌, [], ◌∷◌, Option, none, some, ◌==◌, ltb, leb, length, take, drop,
  if◌then◌else◌,
}
use caddy_esi.Prelude.Int.{ℤ}
use caddy_esi.Prelude.Result.{ok, err, ◌>>=◌, or_fail}
use caddy_esi.Prelude.Text.{Bytes, codes}
use caddy_esi.EsiTag.Args.{ResourceArgs, Missing, validate}
use caddy_esi.EsiTag.Registry.{one_later}
use caddy_esi.Backend.{
  args_invalid, url_too_short, json_failed, run_failed, process_error, Answer, to_int, cut_to,
}

-- `cmd.Run`: an error, or what the process wrote to its two outputs.
pub data Ran : Type 0 where
  not_run : Ran
  ran : (out err_out : Bytes) → Ran

pub record Processes : Type 0 where
  pub marshal : ResourceArgs → Option Bytes
  pub run : (name arg : Bytes) → (timeout : ℤ) → (std_in : Bytes) → Ran

abbrev pub url_prefix : Bytes
url_prefix = codes "sh://"

-- strings.IndexAny(s, " \t"); `none` is -1.
unfoldable pub index_white : Bytes → Option ℕ
index_white [] = none
index_white (c ∷ s) =
    let rest = one_later (index_white s) in if c == 32 || c == 9 then some 0 else rest

-- The name of the command and its argument.
abbrev pub split_at : Bytes → Option ℕ → Bytes × Bytes
split_at name none = (name, [])
split_at name (some i) =
    if ltb 0 i && leb (i + 1) (length name) then (take i name, drop (i + 1) name) else (name, [])

unfoldable pub shell_command : Bytes → Bytes × Bytes
shell_command url = let name = drop (length url_prefix) url in split_at name (index_white name)

module _ (p : Processes) where
  abbrev pub output : ResourceArgs → Ran → Answer
  output args not_run = err run_failed
  output args (ran out (c ∷ err_out)) = err (process_error (c ∷ err_out))
  output args (ran out []) = ok (none, cut_to (to_int args.tag.max_body_size) out)

  abbrev pub execute : ResourceArgs → Bytes × Bytes → Answer
  execute args (name, arg) =
      or_fail json_failed (p.marshal args)
      >>= (λ j. output args (p.run name arg args.tag.timeout j))

  abbrev pub execute_checked : ResourceArgs → Option Missing → Answer
  execute_checked args (some e) = err (args_invalid e)
  execute_checked args none =
      if leb (length args.url) (length url_prefix)
      then err url_too_short
      else execute args (shell_command args.url)

  -- `fetchShellExec.DoRequest`.
  unfoldable pub execute_request : ResourceArgs → Answer
  execute_request args = execute_checked args (validate args)
