-- ===== src/Update/Files.antt =====
-- The two files of the update directory and what may go wrong with them: os.Lstat and os.ReadFile of
-- internal/service/update_state.go, and writeManagedFile of internal/service/setup.go.
use redlaunch.Base.{Text, Result, ok, err}
use redlaunch.Update.Validation.{Error, input_output}

-- what stands at a path; `irregular` is a link, a directory or another special file
pub data File : Type 0 where
  absent : File
  regular : Text → File
  irregular : File

-- How a change of a file ends: as asked, with an error and the file as it was, or with an error of
-- the last step, the sync of the directory, when the file has already changed.
pub data Disk : Type 0 where
  done : Disk
  failed : Disk
  unsynced : Disk

-- a change from `before` to `after`
unfoldable pub change : Disk → File → File → Result Error Unit × File
change done before after = (ok tt, after)
change failed before after = (err input_output, before)
change unsynced before after = (err input_output, after)

unfoldable pub write_managed_file : Disk → Text → File → Result Error Unit × File
write_managed_file disk contents file = change disk file (regular contents)
