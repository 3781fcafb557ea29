-- ===== src/Hcore/CoreLog.antt =====
-- v2/hcore/log_file.go: the file of the core's log, with its rotation and the lines that wait for it.
-- What the file system answers is in the event.
pub mod Order
pub mod Rotation
use inhive_core.Prelude.{
  ℕ, String, Bool, true, false, not, ◌&&◌, List, [], ◌∷◌, ◌++◌, Option, none, some, same, join, ltb,
  leb, if◌then◌else◌, length, ◌+◌,
}

abbrev pub core_log_max_bytes : ℕ
core_log_max_bytes = 5242880

abbrev pub core_log_backlog_cap : ℕ
core_log_backlog_cap = 200

-- `coreLogWriter`, with its file. `size` is the writer's counter and `file_size` the bytes of the file at
-- `path`; `written` holds the lines whose writing succeeded, in all files, the oldest first.
pub record CoreLogWriter : Type 0 where
  pub is_open : Bool
  pub size : ℕ
  pub file_size : ℕ
  pub path : String
  pub backlog : List String
  pub written : List String

abbrev pub fresh_log : CoreLogWriter
fresh_log = record {
  is_open = false;
  size = 0;
  file_size = 0;
  path = "";
  backlog = [];
  written = [];
}

-- The answers of the file system. `found_size` is the size of the file that is opened, which `stats`
-- tells the writer or not; `writes` gives the bytes written of a line, or none for an error.
pub record FileSystem : Type 0 where
  pub makes_directory : Bool
  pub opens : Bool
  pub found_size : ℕ
  pub stats : Bool
  pub renames : Bool
  pub reopens : Bool
  pub writes : String → Option ℕ

-- The writer after a line was written, or was not. A rotation ignores whether the file was renamed; one
-- that was not is opened again as it is.
abbrev pub after_write : FileSystem → CoreLogWriter → String → Option ℕ → CoreLogWriter
after_write fs w line none = w
after_write fs w line (some n) =
    let w' = record w {
      size = w.size + n;
      file_size = w.file_size + n;
      written = w.written ++ (line ∷ []);
    } in
    let renamed = record w' { file_size = if fs.renames then 0 else w.file_size + n } in
    if leb (w.size + n) core_log_max_bytes
    then w'
    else if fs.reopens
    then record renamed { size = 0 }
    else record renamed { is_open = false }

-- `writeLocked`; a nil file answers a write with an error.
unfoldable pub write_locked : FileSystem → CoreLogWriter → String → CoreLogWriter
write_locked fs w line = if not w.is_open then w else after_write fs w line (fs.writes line)

unfoldable pub write_all : FileSystem → CoreLogWriter → List String → CoreLogWriter
write_all fs w [] = w
write_all fs w (line ∷ lines) = write_all fs (write_locked fs w line) lines

abbrev pub opened : FileSystem → String → CoreLogWriter → CoreLogWriter
opened fs path w = record w {
  is_open = true;
  size = if fs.stats then fs.found_size else 0;
  file_size = fs.found_size;
  path = path;
}

-- `initCoreLog`; the size is that of the file opened, after an overgrown one was renamed.
unfoldable pub init_core_log : FileSystem → String → CoreLogWriter → CoreLogWriter
init_core_log fs dir w =
    let path = join dir "/core.log" in
    let closed = record w { is_open = false } in
    if w.is_open && same w.path path
    then w
    else if not (fs.makes_directory && fs.opens)
    then closed
    else record (write_all fs (opened fs path closed) w.backlog) { backlog = [] }

-- `coreLogAppend` of a formatted line.
unfoldable pub core_log_append : FileSystem → String → CoreLogWriter → CoreLogWriter
core_log_append fs line w =
    if w.is_open
    then write_locked fs w line
    else if ltb (length w.backlog) core_log_backlog_cap
    then record w { backlog = w.backlog ++ (line ∷ []) }
    else w

pub data LogEvent : Type 0 where
  set_up : FileSystem → String → LogEvent
  append : FileSystem → String → LogEvent

unfoldable pub log_step : CoreLogWriter → LogEvent → CoreLogWriter
log_step w (set_up fs dir) = init_core_log fs dir w
log_step w (append fs line) = core_log_append fs line w

unfoldable pub log_run : CoreLogWriter → List LogEvent → CoreLogWriter
log_run w [] = w
log_run w (e ∷ es) = log_run (log_step w e) es
