-- ===== src/Hcore/SpeedTest.antt =====
-- v2/hcore/speedtest.go. What the network answers during a test is in a `SpeedWorld`; times are in
-- nanoseconds.
pub mod Rates
use inhive_core.Prelude.{
  ℕ, zero, suc, String, Bool, true, false, not, ◌&&◌, Outcome, panic, ok, fail, ◌>>=◌, same, join,
  if◌then◌else◌, ltb, ◌==◌, ◌*◌, ◌/◌, ◌-◌,
}
use inhive_core.Share.Library.{ℤ, pos, negsuc}
use inhive_core.Share.Query.{is_positive, wrapped_64}

-- `received` is the number of bytes read and whether the reading ended with an error.
pub record SpeedWorld : Type 0 where
  pub has_box : Bool
  pub has_outbound : String → Bool
  pub build_request : Outcome (Unit {0})
  pub do_request : Outcome (Unit {0})
  pub received : ℕ × Bool
  pub elapsed : ℕ

pub record SpeedRequest : Type 0 where
  pub outbound_tag : String
  pub test_bytes : ℤ
  pub upload : Bool

-- `SpeedTestResponse`.
pub record Speed : Type 0 where
  pub speed_kbps : ℤ
  pub elapsed_ms : ℕ
  pub bytes_transferred : ℕ
  pub error : String

abbrev pub speed_error : String → Speed
speed_error e = record { speed_kbps = pos 0; elapsed_ms = 0; bytes_transferred = 0; error = e }

abbrev pub negated : ℕ → ℤ
negated zero = pos 0
negated (suc n) = negsuc n

-- Go's division of an `int64`, which panics at zero.
abbrev pub divided : ℤ → ℕ → Outcome ℤ
divided i zero = panic
divided (pos n) (suc d) = ok (pos (n / suc d))
divided (negsuc n) (suc d) = ok (negated (suc n / suc d))

abbrev pub measured : ℕ → ℕ → ℤ → Speed
measured bytes ms rate = record {
  speed_kbps = rate;
  elapsed_ms = ms;
  bytes_transferred = bytes;
  error = "";
}

-- `computeKbps` of a number of bytes that is not negative.
unfoldable pub compute_kbps : ℕ → ℕ → Outcome Speed
compute_kbps bytes elapsed =
    let ms = elapsed / 1000000 in
    if ltb 0 bytes && ltb 0 elapsed
    then (do rate ← divided (wrapped_64 (bytes * 1000)) (ms * 1024); ok (measured bytes ms rate))
    else ok (measured bytes ms (pos 0))

abbrev pub or_response : String → Outcome (Unit {0}) → Outcome Speed → Outcome Speed
or_response what (ok u) next = next
or_response what (fail e) next = ok (speed_error (join what e))
or_response what panic next = panic

unfoldable pub run_download : SpeedWorld → Outcome Speed
run_download w = or_response "build request: " w.build_request (
    or_response "download request: " w.do_request (
      if w.received.1 && (w.received.0 == 0)
      then ok (speed_error "download read: ")
      else compute_kbps w.received.0 w.elapsed))

unfoldable pub run_upload : SpeedWorld → ℕ → Outcome Speed
run_upload w bytes_to_send =
    or_response "build request: " w.build_request
      (or_response "upload request: " w.do_request (compute_kbps bytes_to_send w.elapsed))

abbrev pub or_default_bytes : ℤ → ℕ
or_default_bytes (pos n) = if ltb 0 n then n else 2000000
or_default_bytes (negsuc n) = 2000000

unfoldable pub instance_speed_test : SpeedWorld → SpeedRequest → Outcome Speed
instance_speed_test w r =
    if same r.outbound_tag ""
    then ok (speed_error "outbound_tag is required")
    else if not w.has_box
    then ok (speed_error "core not started")
    else if not (w.has_outbound r.outbound_tag)
    then ok (speed_error (join "outbound not found: " r.outbound_tag))
    else if r.upload
    then run_upload w (or_default_bytes r.test_bytes)
    else run_download w

abbrev pub recovered_speed : Outcome Speed → Speed
recovered_speed (ok s) = s
recovered_speed (fail e) = speed_error e
recovered_speed panic = speed_error "panic"

-- The handler.
unfoldable pub speed_test : SpeedWorld → SpeedRequest → Speed
speed_test w r = recovered_speed (instance_speed_test w r)
