-- ===== src/Tests/Instance.antt =====
-- Runs of the service.
use inhive_core.Prelude.{
  ℕ, String, true, false, List, [], ◌∷◌, none, some, Outcome, ok, fail, panic, ◌≡◌, ◌↔◌, refl, same,
  same-ne, eq_refl, if◌then◌else◌,
}
use inhive_core.Config.Settings.{default_inhive_options}
use inhive_core.Hcore.State.{StartRequest, Moment, InhiveInstance, started, unexpected_error}
use inhive_core.Hcore.LastStart.{
  Value, Table, save_last_start_request, load_last_start_request_if_needed, update_insert,
}
use inhive_core.Hcore.LastStart.Replay.{IsTable, replayed, save-load}
use inhive_core.Hcore.Service.{World, built, start_service, start_stored, stop}
use inhive_core.Hcore.Service.Calls.{
  IsSound, Call, start_call, stop_call, alert_call, pause_call, wake_call, run, static,
}
use inhive_core.Hcore.Service.Sound.{run-IsSound}
use inhive_core.Hcore.Service.Replies.{Settled, start_service-Settled, IsQuiet, stop-IsQuiet}
use inhive_core.Hcore.Service.Repeats.{start_service-replayed}
use inhive_core.Hcore.Pause.{wake}
use inhive_core.Hcore.Pause.Probes.{FrozenLong, wake-FrozenLong}
use inhive_core.Tests.Samples.{sample_env, sample_input}

abbrev sample_world : World
sample_world = record {
  env = sample_env;
  read_sing_options = λ r. ok sample_input;
  marshal = λ o. ok tt;
  register_platform = ok tt;
  check_options = λ o. ok tt;
  start_engine = λ o. ok tt;
  close_service = fail "still closing";
  has_instance = true;
  has_manager = true;
  socks_ports = λ o. 2080 ∷ [];
  is_ios = true;
}

abbrev connect : StartRequest
connect = record {
  config_path = "";
  config_content = "{}";
  disable_memory_limit = false;
  delay_start = false;
  enable_raw_config = true;
  config_name = "home";
  ping_only = false;
}

abbrev moment : ℕ → ℕ → Moment
moment wall monotonic = record { wall = wall; monotonic = monotonic }

abbrev calls : List Call
calls =
    start_call sample_world (ok connect)
    ∷ pause_call sample_world (moment 5 5)
    ∷ wake_call sample_world (moment 9 6)
    ∷ alert_call unexpected_error "lost"
    ∷ stop_call sample_world
    ∷ []

run-IsSound_example : IsSound (run calls (static (some default_inhive_options) false))
run-IsSound_example =
    run-IsSound calls (some default_inhive_options) false (λ o e. cc, (tt, (tt, (tt, (tt, tt)))))

start_service-Settled_example :
    Settled (start_service sample_world (ok connect) (static none false))
start_service-Settled_example =
    start_service-Settled sample_world (ok connect) (static none false) refl

-- A core that runs, and whose service panics as it closes.
abbrev running : InhiveInstance
running = record (static none false) { core_state = started; service = true; engines = 1 }

stop-IsQuiet_example :
    IsQuiet 0 (some "panic") (stop (record sample_world { close_service = panic }) running)
stop-IsQuiet_example = stop-IsQuiet (record sample_world { close_service = panic }) running

-- A table that is a function of its keys and reports no error.
abbrev Cells : Type 0
Cells = String → Outcome Value

abbrev sample_table : Table Cells
sample_table = record {
  get = λ s k. s k;
  set = λ s k v. ((λ l. if same l k then ok v else s l), none);
}

sample_table-IsTable : IsTable sample_table
sample_table-IsTable = record {
  get-set = λ s k v e. rw (eq_refl k);
  get-set_other = λ s k l v ne. rw (same-ne l k ne);
}

save-load_example :
    let s = (save_last_start_request sample_table (λ k. Outcome.fail "EOF") connect).0 in
    (load_last_start_request_if_needed sample_table s none ≡ ok (replayed connect))
    × (load_last_start_request_if_needed sample_table s
          (some (record connect { config_content = "" }))
        ≡ ok (replayed connect))
unfolding save_last_start_request update_insert
save-load_example =
    save-load sample_table sample_table-IsTable (λ k. Outcome.fail "EOF") connect
      (record connect { config_content = "" }) refl refl refl refl

abbrev asleep : InhiveInstance
asleep = record (static none false) {
  core_state = started;
  service = true;
  engines = 1;
  box = 1;
  paused_at = some (moment 10 10);
}

wake-FrozenLong_example :
    (((wake sample_world (moment 200000000000 11) asleep).1 ≡ true)
      ↔ FrozenLong (moment 10 10) (moment 200000000000 11))
    × ((wake sample_world
          (moment 200000000001 12)
          (wake sample_world (moment 200000000000 11) asleep).0).1
        ≡ false)
wake-FrozenLong_example =
    wake-FrozenLong sample_world sample_world asleep (moment 10 10) (moment 200000000000 11)
      (moment 200000000001 12) refl refl

start_service-replayed_example :
    let store =
      start_stored sample_table sample_world
        (λ k. Outcome.fail "EOF")
        (some connect)
        (static (some default_inhive_options) false) in
    (start_service sample_world
      (load_last_start_request_if_needed sample_table store none)
      (static none false)).0.previous_start_request
    ≡ some (replayed connect)
unfolding built save_last_start_request update_insert
start_service-replayed_example =
    start_service-replayed sample_table sample_world sample_world (λ k. Outcome.fail "EOF") connect
      (static (some default_inhive_options) false) (static none false) sample_table-IsTable refl
      refl refl refl refl refl
