-- ===== src/Server/Log.antt =====
-- `setupLogging` of server/main.go, on the sizes of foghorn.log and foghorn.log.1. What is written to the
-- log is left out.
use stem_computing_desktop_p.Prelude.{
  ℕ, ◌*◌, ◌≤◌, ◌≡◌, ◌⊎◌, Bool, true, Option, none, some, arith, ltb, if◌then◌else◌,
}

-- The sizes of the files that are there.
pub record Logs : Type 0 where
  pub current : Option ℕ
  pub previous : Option ℕ

-- Which calls of the file system succeed.
pub record LogCalls : Type 0 where
  pub removes : Bool
  pub renames : Bool
  pub opens : Bool

-- 10<<20
abbrev pub max_log : ℕ
max_log = 10 * 1024 * 1024

abbrev pub size_of : Option ℕ → ℕ
size_of none = 0
size_of (some n) = n

-- the rotation; os.Remove and os.Rename may fail unnoticed
unfoldable pub rotate : LogCalls → Logs → Logs
rotate c logs =
    let gone = record logs { previous = if c.removes then none else logs.previous } in
    if ltb max_log (size_of logs.current)
    then if c.renames then record { current = none; previous = logs.current } else gone
    else logs

-- setupLogging: the files, and whether the log goes to one
unfoldable pub setup_logging : LogCalls → Logs → Logs × Bool
unfolding rotate
setup_logging c logs =
    let r = rotate c logs in
    (if c.opens then record r { current = some (size_of r.current) } else r, c.opens)

-- Where renaming works, a start leaves a log of at most 10 MB, and what it takes away from it, it keeps in
-- the other file.
pub setup_logging-bound :
    (c : LogCalls) (logs : Logs)
    → c.renames ≡ true
    → let (after, _) = setup_logging c logs in
      (size_of after.current ≤ max_log)
      × ((size_of after.current ≡ size_of logs.current) ⊎ (after.previous ≡ logs.current))
unfolding setup_logging
setup_logging-bound c logs h = (ground (arith, h), ground (arith, h))
