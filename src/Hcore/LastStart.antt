-- ===== src/Hcore/LastStart.antt =====
-- v2/hcore/start.go: the request that a start without a configuration repeats. The table is the one of
-- v2/db on goleveldb: its two operations are parameters.
pub mod Replay
use inhive_core.Prelude.{
  String, Bool, true, false, not, ◌&&◌, ◌||◌, List, [], ◌∷◌, Option, none, some, Outcome, ok, fail,
  panic, ◌>>=◌, same, if◌then◌else◌,
}
use inhive_core.Hcore.State.{StartRequest}

-- The dynamic type of `AppSettings.Value`.
pub data Value : Type 0 where
  text : String → Value
  other_value : Value

-- `Table.Get`, and the insertion of one row by `Table.UpdateInsert`, with its error.
pub record Table (S : Type 0) : Type 0 where
  pub get : S → String → Outcome Value
  pub set : S → String → Value → S × Option String

-- Go's `Value.(string)`.
abbrev pub as_text : Value → Outcome String
as_text (text s) = ok s
as_text other_value = panic

abbrev pub is_empty_request : StartRequest → Bool
is_empty_request r = same r.config_content "" && same r.config_path ""

-- The early return of a write's error.
abbrev pub unless_failed {ℓ} :
    {S : Type ℓ} → S × Option String → (S → S × Option String) → S × Option String
unless_failed (s, none) next = next s
unless_failed (s, some e) next = (s, some e)

module _ {S : Type 0} (t : Table S) where
  -- The loop of `UpdateInsert`, which stops at the first error.
  unfoldable pub update_insert : S → List (String × Value) → S × Option String
  update_insert s [] = (s, none)
  update_insert s (row ∷ rows) = unless_failed (t.set s row.0 row.1) (λ s'. update_insert s' rows)

  unfoldable pub save_last_start_request : S → StartRequest → S × Option String
  unfolding update_insert
  save_last_start_request s r =
      if r.ping_only
      then (s, none)
      else if is_empty_request r
      then (s, none)
      else update_insert s (
          ("lastStartRequestPath", text r.config_path)
          ∷ ("lastStartRequestContent", text r.config_content)
          ∷ ("lastStartRequestName", text r.config_name)
          ∷ [])

  unfoldable pub load_saved : S → Outcome StartRequest
  load_saved s = do
    path ← t.get s "lastStartRequestPath"
    content ← t.get s "lastStartRequestContent"
    name ← t.get s "lastStartRequestName"
    p ← as_text path
    c ← as_text content
    n ← as_text name
    ok (record {
      config_path = p;
      config_content = c;
      disable_memory_limit = false;
      delay_start = false;
      enable_raw_config = true;
      config_name = n;
      ping_only = false;
    })

  unfoldable pub load_last_start_request_if_needed : S → Option StartRequest → Outcome StartRequest
  unfolding load_saved
  load_last_start_request_if_needed s none = load_saved s
  load_last_start_request_if_needed s (some r) = if is_empty_request r then load_saved s else ok r

  -- The name that `readStatus` shows: the cached one, or that of the table, read once; an error leaves
  -- the empty name in the cache.
  unfoldable pub cached_last_start_request_name : S → Option String → String
  cached_last_start_request_name s (some name) = name
  cached_last_start_request_name s none = from (t.get s "lastStartRequestName")
    where
      from : Outcome Value → String
      from (ok (text name)) = name
      from _ = ""
