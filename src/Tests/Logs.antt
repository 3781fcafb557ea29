-- ===== src/Tests/Logs.antt =====
-- Runs of the log's file and of the changes of the settings.
use inhive_core.Prelude.{
  String, true, false, List, [], ◌∷◌, ◌++◌, none, some, refl, arith, same, if◌then◌else◌, map,
}
use inhive_core.Hcore.CoreLog.{FileSystem, LogEvent, set_up, append, fresh_log, log_run, opened}
use inhive_core.Hcore.CoreLog.Order.{IsOrdered, appended, log_run-IsOrdered}
use inhive_core.Hcore.CoreLog.Rotation.{Holds, log_run-Holds}
use inhive_core.Hcore.Settings.{Codec, Levels, level_warning}

abbrev file_system : FileSystem
file_system = record {
  makes_directory = true;
  opens = true;
  found_size = 5242879;
  stats = true;
  renames = true;
  reopens = true;
  writes = λ line. some 40;
}

abbrev log_events : List LogEvent
log_events =
    append file_system "early" ∷ (set_up file_system "/data" ∷ (append file_system "late" ∷ []))

log_run-IsOrdered_example : IsOrdered (appended log_events) (log_run fresh_log log_events)
log_run-IsOrdered_example = log_run-IsOrdered log_events

log_run-Holds_example : Holds ([] ++ ("a" ∷ ("b" ∷ []))) (
    log_run
      (opened file_system "/data/core.log" fresh_log)
      (map (append file_system) ("a" ∷ ("b" ∷ []))))
log_run-Holds_example =
    log_run-Holds file_system (λ line. (40, refl)) refl refl ("a" ∷ ("b" ∷ [])) []
      (opened file_system "/data/core.log" fresh_log) (refl, refl, refl, omega arith)

-- Settings of a level alone: their JSON is the level.
abbrev codec : Codec String
codec = record {
  default_options = "warn";
  log_level = λ o. o;
  with_level = λ level o. level;
  keys = λ json. if same json "daita" then some ("daita-enabled" ∷ []) else some ("log-level" ∷ []);
  merge = λ json o. if same json "daita" then some o else some json;
  warp_text = λ o. "";
  merge_warp = λ o. some o;
  warp_2_text = λ o. "";
  merge_warp_2 = λ o. some o;
  marshal = λ o. some o;
  parses_level = λ level. true;
}

abbrev levels : Levels String
levels = record {
  options = some "warn";
  level = level_warning;
  is_debug = false;
  persisted = "warn";
  live_level = some "warn";
  stored = none;
}
