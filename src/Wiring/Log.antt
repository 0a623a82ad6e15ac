-- ===== src/Wiring/Log.antt =====
-- internal/database/wal/wal.go: NewWAL, and the log that a database is given: disabled, or over files.
use laguna.Prelude.{
  ℕ, suc, [], ◌∷◌, Bytes, codes, List, Bool, true, false, Option, none, some, Error, Result, ok,
  fault, nil_pointer, ◌>>=◌, if◌then◌else◌,
}
use laguna.Prelude.Int.{ℤ, pos}
use laguna.Utils.Context.{Ctx}
use laguna.Utils.Future.Deadline.{get_response_with_deadline}
use laguna.Query.{Query}
use laguna.Segment.Manager.{File, Manager}
use laguna.Transport.Client.{or_default}
use laguna.Database.{Wal}
use laguna.Wal.Worker.{Turn, returned, new_wal, batch_size_of}
use laguna.Wal.FileLog.{FileLog, Wait, write_call, wait_response, stream_files}
use laguna.Wiring.{WalConf}

-- What NewWAL makes of an enabled configuration.
pub record Settings : Type 0 where
  pub flush_interval : ℤ
  pub flush_batch_size : ℕ
  pub max_segment_size : ℕ
  pub directory : Bytes

abbrev pub size_or : ℕ → ℕ → ℕ
size_or ℕ.zero d = d
size_or (suc n) d = suc n

abbrev pub directory_or : Bytes → Bytes → Bytes
directory_or [] d = d
directory_or (b ∷ bs) d = b ∷ bs

abbrev pub default_directory : Bytes
default_directory = codes "/data/laguna/wal"

-- The defaults of the interval (10 milliseconds), the batch, the segments and the directory.
abbrev pub settings : WalConf → ℕ → Settings
settings c size = record {
  flush_interval = or_default c.flush_interval (pos 10000000);
  flush_batch_size = size;
  max_segment_size = size_or c.max_segment_size 1000000;
  directory = directory_or c.directory default_directory;
}

unfoldable pub settings_of : WalConf → Result Settings
settings_of c = batch_size_of c.flush_batch_size >>= λ size. ok (settings c size)

-- The log of a program.
pub data ProgramLog : Type 0 where
  disabled : ProgramLog
  enabled : Settings → FileLog → ProgramLog

-- NewWAL on the manager of the segments, with the files that are only read.
unfoldable pub new_wal_of : WalConf → List File → Manager → Result ProgramLog
new_wal_of c earlier m =
    if c.enable
    then (settings_of c >>= λ s.
        ok (enabled s (record { earlier = earlier; system = new_wal m (λ i. returned); made = 0 })))
    else ok disabled

abbrev pub with_log : {A : Type 0} → Settings → FileLog × Result A → ProgramLog × Result A
with_log s (l, r) = (enabled s l, r)

abbrev pub numbered : ProgramLog × Result ℕ → ProgramLog × Result (Option ℕ)
numbered (l, r) = (l, r >>= λ i. ok (some i))

module _ (schedule : ℕ → List Turn) (waits : ℕ → Wait) where
  -- Write; a disabled log returns the zero future, whose channel is nil.
  abbrev pub program_write : Ctx → Query → ProgramLog → ProgramLog × Result (Option ℕ)
  program_write ctx q disabled = (disabled, ok none)
  program_write ctx q (enabled s l) =
      numbered (with_log s (write_call s.flush_batch_size s.directory schedule waits ctx q l))

  abbrev pub program_response : Ctx → Option ℕ → ProgramLog → ProgramLog × Result (Option Error)
  program_response ctx f disabled =
      (disabled, get_response_with_deadline (waits 0).before (waits 0).after none)
  program_response ctx none (enabled s l) =
      (enabled s l, get_response_with_deadline (waits 0).before (waits 0).after none)
  program_response ctx (some i) (enabled s l) =
      with_log s (wait_response s.flush_batch_size s.directory schedule waits ctx i l)

  -- RestoreStream; a disabled log has no reader. The files are those of the directory that the manager of
  -- the segments has opened, which is the one of the settings, unless the configuration names none:
  -- then the system makes no directory, and no program starts (no_directory).
  abbrev pub program_stream : ProgramLog → ProgramLog × Result (List (Result (List Query)))
  program_stream disabled = (disabled, fault nil_pointer)
  program_stream (enabled s l) =
      with_log s (stream_files s.flush_batch_size s.directory schedule waits l)

  abbrev pub is_enabled : ProgramLog → Bool
  is_enabled disabled = false
  is_enabled (enabled s l) = true

  abbrev pub program_wal : Wal
  program_wal = record {
    State = ProgramLog;
    Future = Option ℕ;
    is_enable = is_enabled;
    write = program_write;
    response = program_response;
    restore_stream = program_stream;
  }
