-- ===== src/Hcore/Settings.antt =====
-- v2/hcore/buildconfighelper.go, `ChangeInhiveSettings`, and v2/hcore/log_level.go. The decoding of the
-- settings is a parameter.
pub mod Verbose
use inhive_core.Prelude.{
  ℕ, String, Bool, true, false, not, ◌&&◌, ◌||◌, List, [], ◌∷◌, Option, none, some, Outcome, ok,
  fail, same, leb, ◌==◌, if◌then◌else◌,
}
use inhive_core.Config.Helpers.{contains}

-- The settings and their JSON; none is an error. `merge` decodes a text over settings, `merge_warp` and
-- `merge_warp_2` the texts of the two WireGuard configurations, where these are not empty.
pub record Codec (O : Type 0) : Type 0 where
  pub default_options : O
  pub log_level : O → String
  pub with_level : String → O → O
  pub keys : String → Option (List String)
  pub merge : String → O → Option O
  pub warp_text : O → String
  pub merge_warp : O → Option O
  pub warp_2_text : O → String
  pub merge_warp_2 : O → Option O
  pub marshal : O → Option String
  pub parses_level : String → Bool

pub data LogLevel : Type 0 where
  level_trace level_debug level_info level_warning level_error level_fatal : LogLevel

-- What the call changes: `live_level` is the level of the running engine, none without one; `stored` the
-- settings of the table.
pub record Levels (O : Type 0) : Type 0 where
  pub options : Option O
  pub level : LogLevel
  pub is_debug : Bool
  pub persisted : String
  pub live_level : Option String
  pub stored : Option String

abbrev pub level_of : String → LogLevel
level_of s =
    if same s "debug"
    then level_debug
    else if same s "info"
    then level_info
    else if same s "warn"
    then level_warning
    else if same s "error"
    then level_error
    else if same s "fatal"
    then level_fatal
    else if same s "trace"
    then level_trace
    else level_info

-- `LogLevel` at `DEBUG` or below.
abbrev is_verbose : LogLevel → Bool
is_verbose level_trace = true
is_verbose level_debug = true
is_verbose _ = false

abbrev pub key_of_level : String
key_of_level = "log-level"

abbrev pub has_level : Option (List String) → Bool
has_level none = false
has_level (some keys) = contains keys key_of_level

abbrev is_single : Option (List String) → Bool
is_single (some (k ∷ [])) = true
is_single _ = false

module _ {O : Type 0} (c : Codec O) where
  abbrev pub current : Option O → O
  current none = c.default_options
  current (some o) = o

  abbrev merged_if : String → (O → Option O) → Option O → Option O
  merged_if text merge none = none
  merged_if text merge (some o) = if same text "" then some o else merge o

  abbrev warp_text_of : (O → String) → Option O → String
  warp_text_of text none = ""
  warp_text_of text (some o) = text o

  -- The settings of the request over the current ones.
  unfoldable pub merged : String → O → Option O
  merged json o =
      let first = c.merge json o in
      let second = merged_if (warp_text_of c.warp_text first) c.merge_warp first in
      if same json ""
      then some o
      else merged_if (warp_text_of c.warp_2_text second) c.merge_warp_2 second

  abbrev lives_at : Option String → String → Option String
  lives_at none level = none
  lives_at (some old) level = if c.parses_level level then some level else some old

  -- The swap of the settings and the levels in memory.
  unfoldable pub in_memory : O → Levels O → Levels O
  in_memory o s =
      let level = level_of (c.log_level o) in
      record s {
        options = some o;
        level = level;
        is_debug = s.is_debug || is_verbose level;
        live_level = lives_at s.live_level (c.log_level o);
      }

  -- A filter of the log's view, which is not a setting.
  unfoldable pub is_verbose_filter : String → O → Bool
  is_verbose_filter json o =
      not (same json "")
      && (has_level (c.keys json)
          && (is_single (c.keys json)
              && (same (c.log_level o) "debug" || same (c.log_level o) "trace")))

  abbrev pub with_text : Bool → Levels O → Option String → Levels O × Outcome (Unit {0})
  with_text saves s none = (s, fail "marshal")
  with_text saves s (some text) =
      (record s { stored = if saves then some text else s.stored }, ok tt)

  -- The write to the table, whose error is ignored.
  unfoldable pub persist : Bool → String → O → Levels O → Levels O × Outcome (Unit {0})
  persist saves json o s =
      let level = if has_level (c.keys json) then c.log_level o else s.persisted in
      with_text saves (record s { persisted = level }) (c.marshal (c.with_level level o))

  unfoldable pub first_persisted : Levels O → Levels O
  first_persisted s = record s {
    persisted = if same s.persisted "" then c.log_level (current s.options) else s.persisted;
  }

  -- The end of the call, from the merged settings on.
  unfoldable pub changed : Bool → Bool → String → O → Levels O → Levels O × Outcome (Unit {0})
  changed saves insert json o s =
      let s' = in_memory o s in
      let s'' = if insert then s' else record s' { persisted = c.log_level o } in
      if insert && (not (same json "") && not (is_verbose_filter json o))
      then persist saves json o s''
      else (s'', ok tt)

  abbrev pub after_merge :
      Bool → Bool → String → Levels O → Option O → Levels O × Outcome (Unit {0})
  after_merge saves insert json s none = (s, fail "unmarshal")
  after_merge saves insert json s (some o) = changed saves insert json o s

  unfoldable pub change_inhive_settings :
      Bool → Bool → String → Levels O → Levels O × Outcome (Unit {0})
  change_inhive_settings saves insert json s =
      after_merge saves insert json (first_persisted s) (merged json (current s.options))
