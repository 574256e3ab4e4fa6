-- ===== src/Process.antt =====
-- Child processes, as `std::process::Command` and `tokio::process::Command` report them. The
-- operating system decides the outcome: it is an argument of the definitions that run a process.
use Prim.Native.String.{◌++◌}
use nexus_link.Text.Number.{to_string}
use nexus_link.Base.{Bool, Option, Result, String, err, false, none, ok, some, suc, ℕ}

-- `negsuc n` is -(n + 1).
pub data ℤ : Type 0 where
  pos : ℕ → ℤ
  negsuc : ℕ → ℤ

-- The exit code is missing where a signal ended the process. The texts are those of
-- `String::from_utf8_lossy`.
pub record Output : Type 0 where
  pub success : Bool
  pub code : Option ℕ
  pub stdout : String
  pub stderr : String

-- `Command::output()`
abbrev pub Spawned : Type 0
Spawned = Result Output String

-- `timeout(..., Command::output())`: the time limit, an error at the start, or the output.
pub data Run : Type 0 where
  elapsed : Run
  done : Spawned → Run

-- `status.code().unwrap_or(-1)`
abbrev pub code_of : Output → ℤ
code_of o = elim o.code [ none ↦ negsuc 0 | some n ↦ pos n ]

-- `matches!(r, Ok(o) if o.status.success())`
abbrev pub ran : Spawned → Bool
ran (ok o) = o.success
ran (err e) = false

-- `format!("{}", code)`
abbrev pub code_text : ℤ → String
code_text (pos n) = to_string n
code_text (negsuc n) = "-" ++ to_string (suc n)
