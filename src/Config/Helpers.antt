-- ===== src/Config/Helpers.antt =====
-- v2/config/builder_helpers.go, and `getHostnameIfNotIP` of builder_inbound.go.
pub mod Members
pub mod Duplicates
pub mod Addresses
use inhive_core.Prelude.{
  String, Bool, true, false, not, ◌||◌, Option, none, some, List, [], ◌∷◌, ◌++◌, Outcome, ok, fail,
  panic, same, has_prefix, has_part, join, select, if◌then◌else◌,
}
use inhive_core.Config.Env.{Env}

unfoldable pub contains : List String → String → Bool
contains [] item = false
contains (s ∷ slice) item = same s item || contains slice item

unfoldable pub is_blocked_ip : String → Bool
is_blocked_ip ip = has_prefix ip "10." || has_prefix ip "2001:4188:2:600:10"

abbrev pub is_empty : List String → Bool
is_empty [] = true
is_empty (_ ∷ _) = false

unfoldable pub is_blocked_domain : Env → String → Bool
is_blocked_domain env domain =
    if has_prefix domain "full:"
    then false
    else if has_part domain "instagram"
        || has_part domain "facebook"
        || has_part domain "telegram"
        || has_part domain "t.me"
    then true
    else is_empty (env.get_ips domain)

pub is_blocked_connection_test_url : Env → String → Bool
is_blocked_connection_test_url env d = elim (env.parse_url d) [
  | none ↦ false
  | some u ↦ is_blocked_domain env u.host
]

-- `removeDuplicateStr`; `seen` is the set of keys, whose order does not matter.
remove_duplicates_from : List String → List String → List String
remove_duplicates_from seen [] = []
remove_duplicates_from seen (item ∷ items) =
    if contains seen item
    then remove_duplicates_from seen items
    else item ∷ remove_duplicates_from (item ∷ seen) items

unfoldable pub remove_duplicate_str : List String → List String
unfolding remove_duplicates_from
remove_duplicate_str = remove_duplicates_from []

-- `getIPs`. The resolver answers for each domain with its addresses, or with none for an error; the
-- answers that pass are taken in the order of the domains. The cache is `ipMaps`.
abbrev pub IpCache : Type 0
IpCache = List (String × List String)

unfoldable pub cached : String → IpCache → List String
cached d [] = []
cached d ((k, ips) ∷ m) = if same k d then ips else cached d m

abbrev pub answers : Option (List String) → List String
answers none = []
answers (some ips) = select (λ ip. not (is_blocked_ip ip)) ips

unfoldable pub lookup_all : (String → Option (List String)) → List String → List String
lookup_all resolver [] = []
lookup_all resolver (d ∷ domains) = answers (resolver d) ++ lookup_all resolver domains

unfoldable pub get_ips :
    (String → Option (List String)) → List String → IpCache → Outcome (List String × IpCache)
unfolding lookup_all
get_ips resolver [] cache = panic
get_ips resolver (d ∷ domains) cache =
    let res = lookup_all resolver (d ∷ domains) in
    if is_empty res
    then (if is_empty (cached d cache)
        then ok (res, (d, res) ∷ cache)
        else ok (cached d cache, cache))
    else ok (res, (d, res) ∷ cache)

unfoldable pub get_hostname_if_not_ip : Env → String → Outcome String
get_hostname_if_not_ip env inp =
    if same inp ""
    then fail "empty hostname"
    else if env.is_ip (env.trim_brackets inp)
    then fail "not a hostname"
    else elim (env.parse_url (if has_part inp "://" then inp else join "http://" inp)) [
      | none ↦ ok inp
      | some u ↦ if env.is_ip (env.trim_brackets u.host) then fail "not a hostname" else ok u.host
    ]
