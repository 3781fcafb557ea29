-- ===== src/Hcore/UrlTestConfig.antt =====
-- v2/hcore/url_test_config.go, the test of one configuration on an instance beside the tunnel, with the
-- guard and the classes of errors of v2/hcore/probe_helpers.go. The instance is closed when the call
-- returns, which is not a part of its answer.
pub mod Honest
use Prim.Native.String
use Prim.Native.String.{String, slice, len}
use inhive_core.Prelude.{
  ℕ, Bool, true, false, not, ◌&&◌, ◌||◌, List, [], ◌∷◌, Option, none, some, Outcome, panic, ok,
  fail, ◌>>=◌, same, has_part, join, if◌then◌else◌, ltb, ◌-◌,
}
use inhive_core.Share.Library.{ℤ, pos, negsuc}
use inhive_core.Share.Query.{is_one_of, is_positive}
use inhive_core.Hcore.Probe.{
  Network, ProbeUrl, or_default_url, probe_through_detour, is_deterministic_bring_up_error,
}

pub record TestedOutbound : Type 0 where
  pub outbound_type : String
  pub tag : String

pub record TestedOptions : Type 0 where
  pub endpoints : List String
  pub outbounds : List TestedOutbound

-- The answers during a test: the decoder, the start of an instance with whether its box is there, the
-- look-up of a tag, the network of the probe, whether the budget is over before an attempt, whether the
-- probe answers in its budget, and the name in an error that is a `net.DNSError`.
pub record TestWorld : Type 0 where
  pub decode : String → Outcome TestedOptions
  pub run_instance_raw : TestedOptions → Outcome Bool
  pub has_outbound : String → Bool
  pub network : Network
  pub is_over : Bool
  pub answers : Bool
  pub dns_name : String → Option String

pub record TestRequest : Type 0 where
  pub config_json : String
  pub url : String
  pub timeout_ms : ℤ

-- `UrlTestConfigResponse`.
pub record Verdict : Type 0 where
  pub delay_ms : ℕ
  pub error : String
  pub bring_up_failed : Bool
  pub config_rejected : Bool

abbrev pub not_tested : String → Bool → Verdict
not_tested error rejected = record {
  delay_ms = 0;
  error = error;
  bring_up_failed = true;
  config_rejected = rejected;
}

abbrev pub tested_dead : String → Verdict
tested_dead error = record {
  delay_ms = 0;
  error = error;
  bring_up_failed = false;
  config_rejected = false;
}

abbrev pub tested_alive : ℕ → Verdict
tested_alive delay = record {
  delay_ms = delay;
  error = "";
  bring_up_failed = false;
  config_rejected = false;
}

abbrev pub skip_types : List String
skip_types = "selector" ∷ ("urltest" ∷ ("loadbalance" ∷ []))

unfoldable pub first_exit : List TestedOutbound → String
first_exit [] = ""
first_exit (o ∷ os) = if is_one_of o.outbound_type skip_types then first_exit os else o.tag

abbrev pub exit_of : List String → List TestedOutbound → String
exit_of [] os = first_exit os
exit_of (e ∷ es) os = e

unfoldable pub probe_tag : TestedOptions → String
probe_tag opts = exit_of opts.endpoints opts.outbounds

abbrev pub default_timeout : ℤ
default_timeout = pos 5000

-- `splitProbeBudget`, in milliseconds.
unfoldable pub split_probe_budget : ℤ → List ℤ
split_probe_budget total = (if is_positive total then total else default_timeout) ∷ []

-- `probeThroughDetourGuarded`, which turns a panic into an error.
abbrev pub guarded : Outcome ℕ → Outcome ℕ
guarded panic = fail "panic"
guarded (fail e) = fail e
guarded (ok delay) = ok delay

unfoldable pub probe_through_detour_guarded : TestWorld → String → ℕ → Outcome ℕ
probe_through_detour_guarded w url expected =
    if w.answers
    then guarded (probe_through_detour w.network url true expected)
    else fail "probe budget exhausted"

-- `strings.TrimSuffix` with ".".
unfoldable pub trim_dot : String → String
trim_dot s = if same (slice s (len s - 1) (len s)) "." then slice s 0 (len s - 1) else s

abbrev pub hostname_of : Outcome ProbeUrl → String
hostname_of (ok u) = u.hostname
hostname_of (fail e) = ""
hostname_of panic = ""

unfoldable pub probe_url_host : TestWorld → String → String
probe_url_host w link = hostname_of (w.network.parse_url (or_default_url link))

abbrev pub names_host : Option String → String → String → Bool
names_host none msg host = has_part msg (join "lookup " host)
names_host (some name) msg host = same (trim_dot name) host

unfoldable pub is_probe_dns_failure : TestWorld → String → String → Bool
is_probe_dns_failure w msg host =
    if same host "" then false else names_host (w.dns_name msg) msg (trim_dot host)

-- The answer after all attempts, with the last error.
unfoldable pub after_attempts : TestWorld → String → Option String → Verdict
after_attempts w url none = tested_dead "zero delay"
after_attempts w url (some e) =
    if is_probe_dns_failure w e (probe_url_host w url) then not_tested e false else tested_dead e

abbrev pub attempted : Outcome ℕ → Verdict → (String → Verdict) → Verdict
attempted (ok delay) zero_delay failed = if ltb 0 delay then tested_alive delay else zero_delay
attempted (fail e) zero_delay failed = failed e
attempted panic zero_delay failed = failed "panic"

-- The loop over the budgets.
unfoldable pub attempts : TestWorld → String → List ℤ → Option String → Verdict
attempts w url [] last = after_attempts w url last
attempts w url (budget ∷ more) last =
    let again = attempts w url more in
    if w.is_over
    then after_attempts w url last
    else attempted (probe_through_detour_guarded w url 204) (again (some "zero delay"))
        (λ e. again (some e))

abbrev pub on_instance : TestWorld → String → ℤ → String → Outcome Bool → Verdict
on_instance w url timeout tag (ok true) =
    if w.has_outbound tag
    then attempts w url (split_probe_budget timeout) none
    else not_tested (join "main outbound not found: " tag) true
on_instance w url timeout tag (ok false) = not_tested "side-instance not ready" false
on_instance w url timeout tag (fail e) =
    not_tested (join "run instance: " e) (is_deterministic_bring_up_error (some e))
on_instance w url timeout tag panic = not_tested "panic" false

abbrev pub on_options : TestWorld → String → ℤ → Outcome TestedOptions → Verdict
on_options w url timeout (ok opts) =
    let tag = probe_tag opts in
    if same tag ""
    then not_tested "no exit outbound or endpoint in config" true
    else on_instance w url timeout tag (w.run_instance_raw opts)
on_options w url timeout (fail e) = not_tested (join "parse config: " e) true
on_options w url timeout panic = not_tested "panic" false

abbrev pub is_zero_timeout : ℤ → Bool
is_zero_timeout (pos n) = not (ltb 0 n)
is_zero_timeout (negsuc n) = false

unfoldable pub url_test_config : TestWorld → TestRequest → Verdict
url_test_config w r =
    let timeout = if is_zero_timeout r.timeout_ms then default_timeout else r.timeout_ms in
    if same r.config_json ""
    then not_tested "empty config_json" true
    else on_options w (or_default_url r.url) timeout (w.decode r.config_json)
