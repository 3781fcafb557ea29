-- ===== src/Hcore/Side/Race.antt =====
-- `runInstanceCore`: a worker brings an instance up while the caller waits under a deadline. A step of
-- one of them, or of the clock, is a step of the relation; of two that are ready, either one goes.
pub mod Settles
use inhive_core.Prelude.{ℕ, String, Bool, true, false, Option, none, some, ◌≡◌, if◌then◌else◌}

-- `result`: whether there is an instance, and the error.
pub record Built : Type 0 where
  pub has_instance : Bool
  pub error : Option String

pub data Worker : Type 0 where
  building : Worker
  offering : Built → Worker
  ended : Worker

pub data Caller : Type 0 where
  waiting : Caller
  returned : Built → Caller

-- `expired` tells that `bringUpCtx` is done, by its deadline or by its cancellation; `live` counts the
-- instances that are up.
pub record Race : Type 0 where
  pub worker : Worker
  pub caller : Caller
  pub expired : Bool
  pub live : ℕ

abbrev pub race_start : Race
race_start = record { worker = building; caller = waiting; expired = false; live = 0 }

abbrev pub instances : Built → ℕ
instances r = if r.has_instance then 1 else 0

abbrev pub exceeded : Built
exceeded = record { has_instance = false; error = some "side-instance bring-up exceeded" }

abbrev pub after_build : Built → Race → Race
after_build r s = record s { worker = offering r; live = instances r }

abbrev pub after_send : Built → Race → Race
after_send r s = record s { worker = ended; caller = returned r }

-- The worker closes the instance, if it has one.
abbrev pub after_close : Built → Race → Race
after_close r s = record s { worker = ended; live = 0 }

abbrev pub after_timeout : Race → Race
after_timeout s = record s { caller = returned exceeded }

abbrev pub after_expiry : Race → Race
after_expiry s = record s { expired = true }

pub data Step : Race → Race → Type 0 where
  builds : {s : Race} (r : Built) → s.worker ≡ building → Step s (after_build r s)
  expires : {s : Race} → s.expired ≡ false → Step s (after_expiry s)
  sends :
      {s : Race} (r : Built) → s.worker ≡ offering r → s.caller ≡ waiting → Step s (after_send r s)
  closes :
      {s : Race} (r : Built) → s.worker ≡ offering r → s.expired ≡ true → Step s (after_close r s)
  times_out : {s : Race} → s.caller ≡ waiting → s.expired ≡ true → Step s (after_timeout s)

pub data Reach : Race → Type 0 where
  start : Reach race_start
  later : {s t : Race} → Reach s → Step s t → Reach t
