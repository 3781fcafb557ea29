-- ===== src/Hcore/Side/Inbounds.antt =====
-- The inbounds of a configuration of the app that is started beside the tunnel.
use inhive_core.Prelude.{
  ℕ, String, Bool, false, not, List, [], ◌∷◌, Option, none, some, Outcome, ok, ◌>>=◌, if◌then◌else◌,
  ◌≡◌, ◌≢◌, refl, sym, subst, ap, ◌⊎◌, inl, inr, All, select, IfOk, IfOk->>=, IfOk_true, if_case,
  Bool-cases, apart,
}
use inhive_core.Hcore.Side.{
  SideWorld, RawInbound, RawOptions, Listen, is_tun, has_listen, listens, repointed, without_tun,
  sanitized, sanitize_side_instance, side_experimental, start_raw_side_instance,
}
use inhive_core.Hcore.Side.Leaves.{Leaves, start_with-Leaves}

-- The first address that is listened on.
abbrev pub or_first : Option Listen → Option Listen → Option Listen
or_first none other = other
or_first (some l) other = some l

abbrev pub first_listen : List RawInbound → Option Listen
first_listen [] = none
first_listen (i ∷ is) = or_first i.listen (first_listen is)

abbrev pub tags : List RawInbound → List String
tags [] = []
tags (i ∷ is) = i.tag ∷ tags is

abbrev pub is_proxy : RawInbound → Bool
is_proxy i = not (is_tun i)

abbrev pub NoTun : List RawInbound → Type 0
NoTun is = All (λ (i : RawInbound). i.inbound_type ≢ "tun") is

-- No TUN, the first listener on a port of the machine's own address, if one listens, and the names.
abbrev pub HasInbounds : List String → List RawInbound × ℕ → Type 0
HasInbounds names (after, port) =
    NoTun after
    × ((first_listen after ≡ none)
        ⊎ (first_listen after ≡ some (record { address = some "127.0.0.1"; port = port })))
    × (tags after ≡ names)

abbrev names_of : Bool → RawInbound → List RawInbound → List String
names_of tun i is = tags (if not tun then i ∷ select is_proxy is else select is_proxy is)

without_tun-proxies :
    (is : List RawInbound)
    → NoTun (without_tun is) × (tags (without_tun is) ≡ tags (select is_proxy is))
unfolding without_tun
without_tun-proxies [] = (tt, refl)
without_tun-proxies (i ∷ is) =
    let rest = without_tun is in
    let ih = without_tun-proxies is in
    let P : Bool → Type 0 = λ b.
      NoTun (if b then rest else i ∷ rest)
      × (tags (if b then rest else i ∷ rest) ≡ names_of b i is) in
    elim (Bool-cases (is_tun i)) [
      | inl e ↦ subst P (sym e) ih
      | inr e ↦ subst P (sym e) ((apart i.inbound_type "tun" e, ih.0), ap (λ ts. i.tag ∷ ts) ih.1)
    ]

-- An inbound that listens, repointed, and what follows it.
repointed-HasInbounds :
    (random : Outcome ℕ) (i : RawInbound) (is : List RawInbound)
    → i.inbound_type ≢ "tun"
    → IfOk
        (HasInbounds (i.tag ∷ tags (select is_proxy is)))
        (random >>= λ port. ok (repointed port i ∷ without_tun is, port))
repointed-HasInbounds random i is h =
    IfOk->>= (λ (p : ℕ). Unit {0}) (HasInbounds (i.tag ∷ tags (select is_proxy is))) random
      (λ (port : ℕ). ok (repointed port i ∷ without_tun is, port)) (IfOk_true random)
      (λ port u. (
        (h, (without_tun-proxies is).0),
        inr refl,
        ap (λ ts. i.tag ∷ ts) (without_tun-proxies is).1,
      ))

or_first-none : (l other : Option Listen) → has_listen l ≡ false → or_first l other ≡ other
or_first-none none other e = refl
or_first-none (some l) other e = cc (e)

skipped-HasInbounds :
    (i : RawInbound) (names : List String) (r : List RawInbound × ℕ)
    → i.inbound_type ≢ "tun"
    → listens i ≡ false
    → HasInbounds names r
    → HasInbounds (i.tag ∷ names) (i ∷ r.0, r.1)
skipped-HasInbounds i names (after, port) h l k =
    let same_first : first_listen (i ∷ after) ≡ first_listen after =
      or_first-none i.listen (first_listen after) l in
    (
      (h, k.0),
      subst (λ x. (x ≡ none) ⊎ (x ≡ some (record { address = some "127.0.0.1"; port = port })))
          (sym same_first) k.1,
      ap (λ ts. i.tag ∷ ts) k.2,
    )

sanitized-HasInbounds :
    (random : Outcome ℕ) (is : List RawInbound)
    → IfOk (HasInbounds (tags (select is_proxy is))) (sanitized random is)
unfolding sanitized
sanitized-HasInbounds random [] = (tt, inl refl, refl)
sanitized-HasInbounds random (i ∷ is) =
    let more = sanitized random is in
    let names = tags (select is_proxy is) in
    let found : Outcome (List RawInbound × ℕ) =
      random >>= λ (port : ℕ). ok (repointed port i ∷ without_tun is, port) in
    let skipped : Outcome (List RawInbound × ℕ) =
      more >>= λ (r : List RawInbound × ℕ). ok (i ∷ r.0, r.1) in
    let P : Bool → Type 0 = λ b.
      IfOk (HasInbounds (names_of b i is))
        (if b then more else if listens i then found else skipped) in
    let whole : P (is_tun i) = elim (Bool-cases (is_tun i)) [
      | inl e ↦ subst P (sym e) (sanitized-HasInbounds random is)
      | inr e ↦ subst P (sym e) (
          if_case (IfOk (HasInbounds (i.tag ∷ names))) (listens i) found skipped
            (λ l. repointed-HasInbounds random i is (apart i.inbound_type "tun" e))
            (λ l.
              IfOk->>= (HasInbounds names) (HasInbounds (i.tag ∷ names)) more
                (λ (r : List RawInbound × ℕ). ok (i ∷ r.0, r.1)) (sanitized-HasInbounds random is)
                (λ r k. skipped-HasInbounds i names r (apart i.inbound_type "tun" e) l k)))
    ] in
    whole

-- The options that run beside the tunnel: the inbounds, no API, no cache file, no monitoring, and all else
-- as it was.
abbrev pub IsBeside : RawOptions → RawOptions × ℕ → Type 0
IsBeside before (after, port) =
    HasInbounds (tags (select is_proxy before.inbounds)) (after.inbounds, port)
    × (after.experimental ≡ some (side_experimental before.experimental))
    × (after.details ≡ before.details)

sanitize_side_instance-IsBeside :
    (random : Outcome ℕ) (opts : RawOptions)
    → IfOk (IsBeside opts) (sanitize_side_instance random opts)
unfolding sanitize_side_instance
sanitize_side_instance-IsBeside random opts =
    IfOk->>= (HasInbounds (tags (select is_proxy opts.inbounds))) (IsBeside opts)
      (sanitized random opts.inbounds)
      (λ (r : List RawInbound × ℕ). ok (
        record opts { experimental = some (side_experimental opts.experimental); inbounds = r.0 },
        r.1,
      ))
      (sanitized-HasInbounds random opts.inbounds) (λ r h. (h, refl, refl))

-- A configuration of the app that is started beside the tunnel runs without a TUN, with its first
-- listener on a port of 127.0.0.1, with all inbounds but the TUN ones in their order, without the API, the
-- cache file and the monitoring, and unchanged otherwise. A start that succeeds leaves one service more
-- open than before, and one that fails leaves as many as before.
start_raw_side_instance-Leaves :
    (w : SideWorld) (opts : RawOptions) (open_before : ℕ)
    → Leaves (IsBeside opts) open_before (start_raw_side_instance w (some opts) open_before)
unfolding start_raw_side_instance
start_raw_side_instance-Leaves w opts open_before =
    start_with-Leaves (IsBeside opts) w (sanitize_side_instance w.random_port opts) open_before
      (sanitize_side_instance-IsBeside w.random_port opts)
