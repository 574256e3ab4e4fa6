-- ===== src/Service/Logs/Laws.antt =====
-- The arguments that reach `docker`, and the size of a snapshot.
use Prim.Native.Char.{Char, code}
use Prim.Native.String.{◌++◌}
use nexus_link.Base.{
  Bool, List, Option-cases, String, [], arith, eqb, false, inl, inr, length, ltb, none, ok, refl,
  some, take, true, unwrap_or, ◌||◌, ◌∷◌, ◌≡◌, ◌⊎◌,
}
use nexus_link.Text.{all_chars, is_empty, starts_with}
use nexus_link.Service.Command.{Args, log_lines, success}
use nexus_link.Service.Logs.Cut.{IsCut, take-IsCut}
use nexus_link.Service.Logs.{execute_logs_snapshot, is_valid_service, logs_args, logs_result}
use nexus_link.Text.Number.{to_string}
use nexus_link.Process.{Output, Run, done}
use nexus_link.Text.Split.{lines}

-- A service name that cannot be read as a flag, and whose characters are letters, digits, `-` or `_`.
pub record IsSafeName (is_alphanumeric : Char → Bool) (svc : String) : Type 0 where
  pub non_empty : is_empty svc ≡ false
  pub no_flag : starts_with svc "-" ≡ false
  pub characters :
      all_chars (λ c. is_alphanumeric c || eqb (code c) b'-' || eqb (code c) b'_') svc ≡ true

-- The arguments of a log command: fixed ones, a number of lines, and then a safe service name or,
-- with no service, `--since 5m`.
pub logs_args-ok :
    (is_alphanumeric : Char → Bool) (args : Args) (docker_args : List String)
    → logs_args is_alphanumeric args ≡ ok docker_args
    → (rest : List String) × (docker_args
        ≡ "compose"
          ∷ "logs"
          ∷ "--no-color"
          ∷ "--tail"
          ∷ to_string (unwrap_or (args.number "tail") 100)
          ∷ rest)
      × (((args.text "service" ≡ none) × (rest ≡ "--since" ∷ "5m" ∷ []))
          ⊎ ((svc : String) × (args.text "service" ≡ some svc)
              × (rest ≡ svc ∷ [])
              × IsSafeName is_alphanumeric svc))
unfolding logs_args is_valid_service
logs_args-ok is_alphanumeric args docker_args h = elim (Option-cases (args.text "service")) [
  | inl e ↦ ("--since" ∷ "5m" ∷ [], ground arith, inl (e, refl))
  | inr (svc, e) ↦ (svc ∷ [], ground arith, inr (svc, e, refl, ground arith))
]

-- Where the arguments of docker are made and docker ends, the log snapshot succeeds, whatever its
-- exit status, and reports the first lines of what docker wrote, standard output first: all of them,
-- or 500 with the word that more were cut off.
pub execute_logs_snapshot-lines :
    (is_alphanumeric : Char → Bool) (run : List String → Run) (args : Args)
    (docker_args : List String) (output : Output)
    → logs_args is_alphanumeric args ≡ ok docker_args
    → run docker_args ≡ done (ok output)
    → (found : List String) × (truncated : Bool) × (execute_logs_snapshot is_alphanumeric run args
        ≡ success (log_lines (args.text "service") found truncated))
      × IsCut 500 (lines (output.stdout ++ output.stderr)) found truncated
unfolding execute_logs_snapshot
execute_logs_snapshot-lines is_alphanumeric run args docker_args output a e =
    let all_lines = lines (output.stdout ++ output.stderr) in
    (
      take 500 all_lines,
      ltb 500 (length all_lines),
      rw (execute_logs_snapshot, a, logs_result, e) refl,
      take-IsCut 500 all_lines,
    )
