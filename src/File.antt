-- ===== src/File.antt =====
-- base/file.h and base/file.cc: an open file. The system is a parameter by its answers: what `open`
-- returned, and what each `write`, `close` and `fsync` does.
use libserverkit.Base.{ℕ, Bool, true, false, Option, none, List, ◌++◌, take}

-- `fd_` is `none` where it is negative.
pub record File : Type 0 where
  pub fd : Option ℕ
  pub filename : List ℕ

-- `write` fails, or it takes some of the bytes.
pub data FileAnswer : Type 0 where
  write_failed : FileAnswer
  wrote : ℕ → FileAnswer

-- `File(file)`, with what `open` returned
unfoldable pub open_file : List ℕ → Option ℕ → File
open_file name fd = record { fd = fd; filename = name }

-- `Append`, on the bytes that are in the file: its result, and the bytes behind it.
unfoldable pub append : FileAnswer → List ℕ → List ℕ → Bool × List ℕ
append write_failed xs bytes = (false, bytes)
append (wrote n) xs bytes = (true, bytes ++ take n xs)

-- `Close`, with whether the system did
unfoldable pub close_file : Bool → File → Bool × File
close_file false f = (false, f)
close_file true f = (true, record f { fd = none })

-- `Sync` and `Flush`, with whether the system did
unfoldable pub sync : Bool → Bool
sync done = done
