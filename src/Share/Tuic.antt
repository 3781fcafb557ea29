-- ===== src/Share/Tuic.antt =====
-- xray2sing/ray2sing/tuic.go. Durations are nanoseconds.
pub mod Safe
use Prim.Native.String
use Prim.Native.String.{len}
use Prim.Native.Char.{code}
use inhive_core.Prelude.{
  ℕ, String, Bool, true, false, not, ◌&&◌, ◌||◌, List, [], ◌∷◌, Option, none, some, Outcome, ok,
  fail, ◌>>=◌, same, if◌then◌else◌, ltb, leb, ◌==◌, ◌*◌, ◌+◌, zero, suc,
}
use inhive_core.Share.Library.{Library, ℤ, pos, negsuc}
use inhive_core.Share.Query.{
  Params, get, get?, get_one_of_n, is_hex, is_positive, to_bool, wrapped_64,
}
use inhive_core.Share.Url.{UrlSchema, parse_url}

abbrev is_dash_place : ℕ → Bool
is_dash_place i = (i == 8) || ((i == 13) || ((i == 18) || (i == 23)))

-- The loop over the characters from a position.
unfoldable pub uuid_from : ℕ → String → Bool
uuid_from i String.[] = true
uuid_from i (String.◌∷◌ c s) =
    let good = if is_dash_place i then code c == 45 else is_hex (code c) in
    if good then uuid_from (suc i) s else false

unfoldable pub looks_like_uuid : String → Bool
looks_like_uuid s = (len s == 36) && uuid_from 0 s

pub record TuicOutbound : Type 0 where
  pub tag : String
  pub server : String
  pub server_port : ℕ
  pub uuid : String
  pub password : String
  pub congestion_control : String
  pub udp_relay_mode : String
  pub udp_over_stream : Bool
  pub zero_rtt_handshake : Bool
  pub heartbeat : ℤ
  pub server_name : String
  pub disable_sni : Bool
  pub insecure : Bool
  pub alpn : List String
  pub has_ech : Bool

abbrev pub default_heartbeat : ℤ
default_heartbeat = pos 10000000000

abbrev pub positive_or_default : ℤ → ℤ
positive_or_default d = if is_positive d then d else default_heartbeat

-- A number of seconds that is positive and stays so when it is multiplied.
abbrev pub heartbeat_seconds : ℤ → ℤ
heartbeat_seconds (pos n) =
    if ltb 0 n then positive_or_default (wrapped_64 (n * 1000000000)) else default_heartbeat
heartbeat_seconds (negsuc n) = default_heartbeat

abbrev pub parsed_duration : Option ℤ → ℤ
parsed_duration none = default_heartbeat
parsed_duration (some d) = positive_or_default d

abbrev pub parsed_heartbeat : Option ℤ → Option ℤ → ℤ
parsed_heartbeat (some secs) duration = heartbeat_seconds secs
parsed_heartbeat none duration = parsed_duration duration

unfoldable pub heartbeat_of : Library → Params → ℤ
heartbeat_of l d =
    let hb = get_one_of_n l d "" ("heartbeat" ∷ []) in
    if same hb "" then default_heartbeat else parsed_heartbeat (l.atoi hb) (l.parse_duration hb)

abbrev has_ech_value : Option String → Bool
has_ech_value none = false
has_ech_value (some v) = not (same v "0")

unfoldable pub tuic_outbound : Library → UrlSchema → TuicOutbound
tuic_outbound l u =
    let d = u.params in
    let stream = to_bool l (get_one_of_n l d "" ("udp_over_stream" ∷ [])) false in
    let alpn = get_one_of_n l d "" ("alpn" ∷ []) in
    let sni = if same (get d "sni") "" then u.hostname else get d "sni" in
    record {
      tag = u.name;
      server = u.hostname;
      server_port = u.port;
      uuid = u.username;
      password = u.password;
      congestion_control = get_one_of_n l d "" ("congestion_control" ∷ ("congestioncontrol" ∷ []));
      udp_relay_mode =
          if stream then "" else get_one_of_n l d "" ("udp_relay_mode" ∷ ("udprelaymode" ∷ []));
      udp_over_stream = stream;
      zero_rtt_handshake =
          to_bool l (get_one_of_n l d "" ("zero_rtt_handshake" ∷ ("zero_rtt" ∷ ("0rtt" ∷ []))))
            false;
      heartbeat = heartbeat_of l d;
      server_name = sni;
      disable_sni =
          to_bool l (get_one_of_n l d "" ("disable_sni" ∷ ("disablesni" ∷ []))) false
          || l.is_ip sni;
      insecure =
          to_bool l (get_one_of_n l d "" ("insecure" ∷ ("allowinsecure" ∷ ("allow_insecure" ∷ []))))
            false;
      alpn = if same alpn "" then [] else l.split alpn ",";
      has_ech = has_ech_value (get? d "ech");
    }

unfoldable pub tuic_parsed : Library → UrlSchema → Outcome TuicOutbound
tuic_parsed l u =
    if same (get_one_of_n l u.params "" ("version" ∷ [])) "4" || not (looks_like_uuid u.username)
    then fail
        "tuic v4 token links are not supported by the sing-box core (v5 uuid:password required)"
    else ok (tuic_outbound l u)

unfoldable pub tuic_singbox : Library → String → Outcome TuicOutbound
tuic_singbox l tuic_url = do u ← parse_url l tuic_url 443; tuic_parsed l u
