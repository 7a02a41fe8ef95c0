-- ===== src/Files/Io.antt =====
-- Operations on the disk that may fail: each takes the disk, and returns it with its result.
use microwaf.Prelude.{Bool, true, false}
use microwaf.Prelude.Text.{Text}
use microwaf.Prelude.Result.{Result, ok, err}
use microwaf.Rule.{ConfigError}
use microwaf.Files.Paths.{FilePath}
use microwaf.Files.Fs.{Disk, create_dir_all}

-- the errors that `anyhow` carries
pub data LoadError : Type 0 where
  mkdir_failed : FilePath → LoadError
  write_failed : FilePath → LoadError
  read_failed : FilePath → LoadError
  parse_daemon_failed : Text → LoadError
  parse_sets_failed : Text → LoadError
  parse_rules_failed : FilePath → ConfigError → LoadError
  compile_failed : ConfigError → LoadError

-- an operation on the disk
abbrev pub Io : Type 0 → Type 0
Io A = Disk → Disk × Result LoadError A

abbrev pub return : {A : Type 0} → A → Io A
return a d = (d, ok a)

abbrev pub then_run :
    {A B : Type 0} → Disk × Result LoadError A → (A → Io B) → Disk × Result LoadError B
then_run (d, ok a) f = f a d
then_run (d, err e) f = (d, err e)

-- `?`
infixl 5 ◌>>=◌ ◌>>◌
abbrev pub ◌>>=◌ : {A B : Type 0} → Io A → (A → Io B) → Io B
(m >>= f) d = then_run (m d) f

abbrev pub ◌>>◌ : {A B : Type 0} → Io A → Io B → Io B
m >> n = m >>= λ done. n

abbrev pub check : {A : Type 0} → LoadError → A → Disk × Bool → Disk × Result LoadError A
check e a (d, true) = (d, ok a)
check e a (d, false) = (d, err e)

-- a `match` that logs the error and goes on
abbrev pub attempt : {A : Type 0} → Io A → Io (Unit {0})
attempt m d = ((m d).0, ok tt)

unfoldable pub make_dirs : FilePath → Io (Unit {0})
make_dirs p d = check (mkdir_failed p) tt (create_dir_all p d)
