-- ===== src/Share/Tuic/Safe.antt =====
-- What the TUIC client of the engine relies on.
use inhive_core.Prelude.{
  arith, if◌then◌else◌, [], ◌∷◌, String, Bool, true, false, not, Option, none, some, ok, fail, IfOk,
  IfOk->>=, IfOk-use, IfOk_true, ◌≡◌, refl, ◌⊎◌, inl, inr, if_both, if_case, Bool-cases, same, ltb,
  ◌*◌, ◌||◌,
}
use inhive_core.Share.Library.{Library, ℤ, pos, negsuc}
use inhive_core.Share.Query.{Params, is_positive, wrapped_64, get_one_of_n, to_bool}
use inhive_core.Share.Url.{UrlSchema, parse_url}
use inhive_core.Share.Tuic.{
  TuicOutbound, tuic_singbox, tuic_parsed, tuic_outbound, looks_like_uuid, heartbeat_of,
  positive_or_default, heartbeat_seconds, default_heartbeat, parsed_heartbeat,
}

-- A period that a ticker takes: it is positive.
unfoldable pub IsTick : ℤ → Type 0
IsTick d = is_positive d ≡ true

positive_or_default-IsTick : (d : ℤ) → IsTick (positive_or_default d)
unfolding IsTick
positive_or_default-IsTick d = elim (Bool-cases (is_positive d)) [
  | inl e ↦ rw (e) e
  | inr e ↦ rw (e) refl
]

default-IsTick : IsTick default_heartbeat
unfolding IsTick
default-IsTick = refl

heartbeat_seconds-IsTick : (n : ℤ) → IsTick (heartbeat_seconds n)
heartbeat_seconds-IsTick (pos n) =
    if_both IsTick (ltb 0 n) (positive_or_default-IsTick (wrapped_64 (n * 1000000000)))
      default-IsTick
heartbeat_seconds-IsTick (negsuc n) = default-IsTick

parsed_heartbeat-IsTick : (secs duration : Option ℤ) → IsTick (parsed_heartbeat secs duration)
parsed_heartbeat-IsTick (some secs) duration = heartbeat_seconds-IsTick secs
parsed_heartbeat-IsTick none none = default-IsTick
parsed_heartbeat-IsTick none (some d) = positive_or_default-IsTick d

heartbeat_of-IsTick : (l : Library) (d : Params) → IsTick (heartbeat_of l d)
unfolding heartbeat_of
heartbeat_of-IsTick l d =
    let hb = get_one_of_n l d "" ("heartbeat" ∷ []) in
    if_both IsTick (same hb "") default-IsTick
      (parsed_heartbeat-IsTick (l.atoi hb) (l.parse_duration hb))

-- The two ways for UDP exclude each other.
abbrev pub OneUdpMode : Bool → String → Type 0
OneUdpMode stream mode = (stream ≡ false) ⊎ (mode ≡ "")

one_mode : (stream : Bool) (mode : String) → OneUdpMode stream (if stream then "" else mode)
one_mode true mode = inr refl
one_mode false mode = inl refl

abbrev pub TuicSafe : TuicOutbound → Type 0
TuicSafe o =
    IsTick o.heartbeat
    × OneUdpMode o.udp_over_stream o.udp_relay_mode
    × (looks_like_uuid o.uuid ≡ true)

tuic_outbound-TuicSafe :
    (l : Library) (u : UrlSchema) → looks_like_uuid u.username ≡ true → TuicSafe (tuic_outbound l u)
unfolding tuic_outbound
tuic_outbound-TuicSafe l u h =
    let d = u.params in
    (
      heartbeat_of-IsTick l d,
      one_mode (to_bool l (get_one_of_n l d "" ("udp_over_stream" ∷ [])) false)
          (get_one_of_n l d "" ("udp_relay_mode" ∷ ("udprelaymode" ∷ []))),
      h,
    )

tuic_parsed-TuicSafe : (l : Library) (u : UrlSchema) → IfOk TuicSafe (tuic_parsed l u)
unfolding tuic_parsed
tuic_parsed-TuicSafe l u =
    let v4 = same (get_one_of_n l u.params "" ("version" ∷ [])) "4" in
    if_case (IfOk TuicSafe) (v4 || not (looks_like_uuid u.username)) (fail _)
      (ok (tuic_outbound l u)) (λ e. tt) (λ e. tuic_outbound-TuicSafe l u (ground arith))

-- A TUIC outbound that a link is parsed to has a positive heartbeat, also where the link asks for a
-- number of seconds whose product overflows; its user has the shape of a UUID; and it names no relay
-- mode for UDP if it sends UDP over streams.
pub tuic_singbox-TuicSafe :
    (l : Library) (tuic_url : String) {o : TuicOutbound}
    → tuic_singbox l tuic_url ≡ ok o
    → TuicSafe o
unfolding tuic_singbox
tuic_singbox-TuicSafe l tuic_url e =
    IfOk-use TuicSafe
      (IfOk->>= (λ u. Unit {0}) TuicSafe (parse_url l tuic_url 443) (tuic_parsed l)
        (IfOk_true (parse_url l tuic_url 443)) (λ u h. tuic_parsed-TuicSafe l u))
      e
