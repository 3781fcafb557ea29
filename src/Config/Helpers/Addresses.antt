-- ===== src/Config/Helpers/Addresses.antt =====
-- `getIPs` never answers with a blocked address, from the resolver or from its cache.
use inhive_core.Prelude.{
  refl, Outcome, String, false, not, Option, none, some, List, [], ◌∷◌, ok, ◌≡◌, All, All-append,
  same, select, if_both, Bool-cases, inl, inr,
}
use inhive_core.Config.Helpers.{
  is_blocked_ip, IpCache, cached, answers, lookup_all, get_ips, is_empty,
}

abbrev pub IsOpen : String → Type 0
IsOpen ip = is_blocked_ip ip ≡ false

abbrev pub IsOpenCache : IpCache → Type 0
IsOpenCache = All (λ (entry : String × List String). All IsOpen entry.1)

select-IsOpen : (ips : List String) → All IsOpen (select (λ ip. not (is_blocked_ip ip)) ips)
select-IsOpen [] = tt
select-IsOpen (ip ∷ ips) = elim (Bool-cases (is_blocked_ip ip)) [
  | inl blocked ↦ rw blocked (select-IsOpen ips)
  | inr open_ip ↦ rw open_ip (open_ip, select-IsOpen ips)
]

answers-IsOpen : (r : Option (List String)) → All IsOpen (answers r)
answers-IsOpen none = tt
answers-IsOpen (some ips) = select-IsOpen ips

lookup_all-IsOpen :
    (resolver : String → Option (List String)) (domains : List String)
    → All IsOpen (lookup_all resolver domains)
unfolding lookup_all
lookup_all-IsOpen resolver [] = tt
lookup_all-IsOpen resolver (d ∷ domains) =
    All-append IsOpen (answers (resolver d)) (lookup_all resolver domains)
      (answers-IsOpen (resolver d)) (lookup_all-IsOpen resolver domains)

cached-IsOpen : (d : String) (cache : IpCache) → IsOpenCache cache → All IsOpen (cached d cache)
unfolding cached
cached-IsOpen d [] h = tt
cached-IsOpen d ((k, ips) ∷ m) h = if_both (All IsOpen) (same k d) h.0 (cached-IsOpen d m h.1)

abbrev AnswersOpen : Outcome (List String × IpCache) → Type 0
AnswersOpen m = (r : List String × IpCache) × (m ≡ ok r) × (All IsOpen r.0 × IsOpenCache r.1)

opens : (r : List String × IpCache) → All IsOpen r.0 × IsOpenCache r.1 → AnswersOpen (ok r)
opens r h = (r, refl, h)

-- Asked for one domain or more, with a cache of open addresses, `getIPs` answers, with open addresses
-- only, and leaves such a cache.
pub get_ips-IsOpen :
    (resolver : String → Option (List String)) (d : String) (domains : List String)
    (cache : IpCache)
    → IsOpenCache cache
    → (r : List String × IpCache) × (get_ips resolver (d ∷ domains) cache ≡ ok r)
      × (All IsOpen r.0 × IsOpenCache r.1)
unfolding get_ips
get_ips-IsOpen resolver d domains cache h =
    let res = lookup_all resolver (d ∷ domains) in
    let fresh = lookup_all-IsOpen resolver (d ∷ domains) in
    let made : List String × IpCache = (res, (d, res) ∷ cache) in
    let old : List String × IpCache = (cached d cache, cache) in
    if_both AnswersOpen (is_empty res)
      (if_both AnswersOpen (is_empty (cached d cache)) (opens made (fresh, (fresh, h)))
        (opens old (cached-IsOpen d cache h, h)))
      (opens made (fresh, (fresh, h)))
