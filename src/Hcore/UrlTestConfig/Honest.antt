-- ===== src/Hcore/UrlTestConfig/Honest.antt =====
-- What a verdict of `UrlTestConfig` means.
use Prim.Native.String.{String}
use inhive_core.Prelude.{
  ℕ, Bool, true, false, none, some, Outcome, panic, ok, fail, same, ltb, ◌/◌, ◌≡◌, ◌≢◌, refl, sym,
  subst, ◌∙◌, arith, max, min, if_case, if_both,
}
use inhive_core.Share.Library.{ℤ}
use inhive_core.Hcore.Probe.{or_default_url, status_ok, probe_through_detour}
use inhive_core.Hcore.Probe.Bounds.{probe_through_detour-clamped}
use inhive_core.Hcore.UrlTestConfig.{
  TestedOptions, TestWorld, TestRequest, Verdict, not_tested, tested_dead, tested_alive, probe_tag,
  split_probe_budget, guarded, probe_through_detour_guarded, probe_url_host, is_probe_dns_failure,
  after_attempts, attempted, attempts, on_instance, on_options, url_test_config,
}

-- The site answered with 204 exactly.
abbrev pub Answered : TestWorld → String → Type 0
Answered w url = w.network.respond (or_default_url url) ≡ ok 204

-- An alive server: the site answered through it. A configuration that is rejected was not tested. A dead
-- server: the probe ran and failed, and not because the name of the site was unknown, or the budget was
-- over before the probe.
pub data IsHonest (w : TestWorld) (url : String) : Verdict → Type 0 where
  alive : {delay : ℕ} → delay ≢ 0 → Answered w url → IsHonest w url (tested_alive delay)
  untested : {error : String} {rejected : Bool} → IsHonest w url (not_tested error rejected)
  dead :
      {error : String}
      → probe_through_detour_guarded w url 204 ≡ fail error
      → is_probe_dns_failure w error (probe_url_host w url) ≡ false
      → IsHonest w url (tested_dead error)
  no_time : w.is_over ≡ true → IsHonest w url (tested_dead "zero delay")

guarded-ok : (r : Outcome ℕ) {delay : ℕ} → guarded r ≡ ok delay → r ≡ ok delay
guarded-ok (ok d) e = e
guarded-ok (fail m) e = cc (e)
guarded-ok panic e = cc (e)

status_ok-exact : (code : ℕ) → status_ok code 204 ≡ true → code ≡ 204
unfolding status_ok
status_ok-exact code e = ground arith

probed-Answered :
    (w : TestWorld) (url : String) {delay : ℕ}
    → probe_through_detour w.network url true 204 ≡ ok delay
    → (delay ≢ 0) × Answered w url
probed-Answered w url e =
    let (has, (code, answered, good), clamped) =
      probe_through_detour-clamped w.network url true 204 e in
    (
      λ z. at_least (w.network.elapsed w.network.needs_handshake / 1000000) (sym clamped ∙ z),
      subst (λ c. w.network.respond (or_default_url url) ≡ ok c) (status_ok-exact code good)
          answered,
    )
  where
    at_least : (t : ℕ) → max 1 (min 65535 t) ≢ 0
    at_least t e = ground arith

probe_through_detour_guarded-ok :
    (w : TestWorld) (url : String) {delay : ℕ}
    → probe_through_detour_guarded w url 204 ≡ ok delay
    → (delay ≢ 0) × Answered w url
unfolding probe_through_detour_guarded
probe_through_detour_guarded-ok w url {delay} e =
    if_case (λ (r : Outcome ℕ). r ≡ ok delay → (delay ≢ 0) × Answered w url) w.answers
      (guarded (probe_through_detour w.network url true 204)) (fail "probe budget exhausted")
      (λ a h. probed-Answered w url (guarded-ok (probe_through_detour w.network url true 204) h))
      (λ a h. cc (h)) e

after_attempts-IsHonest :
    (w : TestWorld) (url error : String)
    → probe_through_detour_guarded w url 204 ≡ fail error
    → IsHonest w url (after_attempts w url (some error))
unfolding after_attempts
after_attempts-IsHonest w url error e =
    if_case (IsHonest w url) (is_probe_dns_failure w error (probe_url_host w url))
      (not_tested error false) (tested_dead error) (λ b. untested) (λ b. dead e b)

attempted-IsHonest :
    (w : TestWorld) (url : String) (zero_delay : Verdict) (r : Outcome ℕ)
    → probe_through_detour_guarded w url 204 ≡ r
    → r ≢ panic
    → IsHonest w url (attempted r zero_delay (λ e. after_attempts w url (some e)))
attempted-IsHonest w url zero_delay (ok delay) h n =
    let probed = probe_through_detour_guarded-ok w url h in
    if_case (IsHonest w url) (ltb 0 delay) (tested_alive delay) zero_delay
      (λ b. alive probed.0 probed.1) (λ b. absurd (probed.0 (ground arith)))
attempted-IsHonest w url zero_delay (fail e) h n = after_attempts-IsHonest w url e h
attempted-IsHonest w url zero_delay panic h n = absurd (n refl)

guarded-settled : (r : Outcome ℕ) → guarded r ≢ panic
guarded-settled (ok d) e = cc (e)
guarded-settled (fail m) e = cc (e)
guarded-settled panic e = cc (e)

probe_through_detour_guarded-settled :
    (w : TestWorld) (url : String) → probe_through_detour_guarded w url 204 ≢ panic
unfolding probe_through_detour_guarded
probe_through_detour_guarded-settled w url =
    if_both (λ (r : Outcome ℕ). r ≢ panic) w.answers
      (guarded-settled (probe_through_detour w.network url true 204)) (λ e. cc (e))

attempts-IsHonest :
    (w : TestWorld) (url : String) (timeout : ℤ)
    → IsHonest w url (attempts w url (split_probe_budget timeout) none)
unfolding attempts split_probe_budget after_attempts
attempts-IsHonest w url timeout =
    if_case (IsHonest w url) w.is_over (tested_dead "zero delay") _ (λ b. no_time b)
      (λ b.
        attempted-IsHonest w url _ (probe_through_detour_guarded w url 204) refl
          (probe_through_detour_guarded-settled w url))

on_instance-IsHonest :
    (w : TestWorld) (url : String) (timeout : ℤ) (tag : String) (r : Outcome Bool)
    → IsHonest w url (on_instance w url timeout tag r)
on_instance-IsHonest w url timeout tag (ok true) =
    if_both (IsHonest w url) (w.has_outbound tag) (attempts-IsHonest w url timeout) untested
on_instance-IsHonest w url timeout tag (ok false) = untested
on_instance-IsHonest w url timeout tag (fail e) = untested
on_instance-IsHonest w url timeout tag panic = untested

on_options-IsHonest :
    (w : TestWorld) (url : String) (timeout : ℤ) (r : Outcome TestedOptions)
    → IsHonest w url (on_options w url timeout r)
on_options-IsHonest w url timeout (ok opts) =
    if_both (IsHonest w url) (same (probe_tag opts) "") untested
      (on_instance-IsHonest w url timeout (probe_tag opts) (w.run_instance_raw opts))
on_options-IsHonest w url timeout (fail e) = untested
on_options-IsHonest w url timeout panic = untested

-- A verdict says that a server is alive only if the site answered through it with 204 exactly. It says
-- that it is dead only if the probe ran and failed, other than by not finding the name of the site, or if
-- the budget was over before the probe. Each other answer says that the server was not tested.
pub url_test_config-IsHonest :
    (w : TestWorld) (r : TestRequest) → IsHonest w (or_default_url r.url) (url_test_config w r)
unfolding url_test_config
url_test_config-IsHonest w r =
    if_both (IsHonest w (or_default_url r.url)) (same r.config_json "") untested
      (on_options-IsHonest w (or_default_url r.url) _ (w.decode r.config_json))
