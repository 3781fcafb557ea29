-- ===== src/Config/Formats/Ready.antt =====
-- The check of sing-box and the patch of WARP, for a configuration of any format.
use mathlib.Core.List.{Memᴰ}
use mathlib.Core.List.Memᴰ.{not-nil, cases_cons}
use inhive_core.Prelude.{
  String, Bool, true, false, List, [], ◌∷◌, Option, none, some, Outcome, panic, ok, fail, IfOk,
  IfOk->>=, ◌>>=◌, IfOk_true, Bool-cases, if_both, All, ◌≡◌, refl, ap, subst, sym, inl, inr,
}
use inhive_core.Config.Tags.{outbound_direct_fragment_tag}
use inhive_core.Config.SingBox.{
  Endpoint, EndpointType, warp, wire_guard, other_endpoint, EndpointOptions, warp_options,
  wire_guard_options, other_options, Options,
}
use inhive_core.Config.Settings.{InhiveOptions}
use inhive_core.Config.Env.{Env}
use inhive_core.Config.Warp.{patch_options, patch_warp}
use inhive_core.Config.Formats.Library.{
  Json, null, scalar, text, array, object, no_items, item, Fields, Clash, Formats,
}
use inhive_core.Config.Formats.{
  on_error, or_named, patch_tasks, add_result, batch_results, patch_config_options,
  patch_config_str, marshalled, patched_object, try_container, single_object, is_endpoint_type,
  parse_singbox_json, no_format, converted_clash, from_proxies, from_clash, from_links,
  other_formats, first_format, or_default_options, parse_config_content,
}

-- A WARP endpoint has no server of its own, and its profile is fetched through the fragmenting outbound.
abbrev pub IsFetched : EndpointType → EndpointOptions → Type 0
IsFetched warp (warp_options w) =
    (w.server ≡ "") × (w.server_port ≡ 0) × (w.profile_detour ≡ outbound_direct_fragment_tag)
IsFetched _ _ = Unit

abbrev pub Fetched : Endpoint → Type 0
Fetched e = IsFetched e.endpoint_type e.options

-- An answer of a batch is the result of a function that was registered under its key.
abbrev pub RunsTasks : (List (String × Endpoint) → String → Option Endpoint) → Type 0
RunsTasks run =
    (tasks : List (String × Endpoint)) (k : String) (e : Endpoint)
    → run tasks k ≡ some e
    → Memᴰ (k, e) tasks

patch_options-IsFetched :
    (env : Env) (t : EndpointType) (o : EndpointOptions)
    → IsFetched t (patch_options env outbound_direct_fragment_tag false t o)
unfolding patch_options
patch_options-IsFetched env warp (warp_options w) = (refl, refl, refl)
patch_options-IsFetched env warp (wire_guard_options w) = tt
patch_options-IsFetched env warp (other_options w) = tt
patch_options-IsFetched env wire_guard o = tt
patch_options-IsFetched env (other_endpoint name) o = tt

patch_warp-Fetched :
    (env : Env) (e : Endpoint) → Fetched (patch_warp env outbound_direct_fragment_tag false e)
unfolding patch_warp
patch_warp-Fetched env e = patch_options-IsFetched env e.endpoint_type e.options

patch_tasks-Fetched :
    (env : Env) (es : List Endpoint) (k : String) (e : Endpoint)
    → Memᴰ (k, e) (patch_tasks env es)
    → Fetched e
patch_tasks-Fetched env [] k e m = absurd (not-nil m)
patch_tasks-Fetched env (x ∷ xs) k e m = elim (cases_cons m) [
  | inl p ↦ subst Fetched (sym (ap (λ t. t.1) p)) (patch_warp-Fetched env x)
  | inr later ↦ patch_tasks-Fetched env xs k e later
]

add_result-Fetched :
    (answer : Option Endpoint) (rest : Outcome (List Endpoint))
    → ((e : Endpoint) → answer ≡ some e → Fetched e)
    → IfOk (All Fetched) rest
    → IfOk (All Fetched) (add_result answer rest)
add_result-Fetched none rest h k = tt
add_result-Fetched (some e) rest h k =
    IfOk->>= (All Fetched) (All Fetched) rest (λ more. ok (e ∷ more)) k (λ more d. (h e refl, d))

batch_results-Fetched :
    (result : String → Option Endpoint)
    → ((k : String) (e : Endpoint) → result k ≡ some e → Fetched e)
    → (es : List Endpoint) → IfOk (All Fetched) (batch_results result es)
unfolding batch_results
batch_results-Fetched result h [] = tt
batch_results-Fetched result h (e ∷ es) =
    add_result-Fetched (result e.tag) (batch_results result es) (h e.tag)
      (batch_results-Fetched result h es)

on_error-IfOk {ℓ κ} :
    {A : Type ℓ} (P : A → Type κ) (m : Outcome A) (next : String → Outcome A)
    → IfOk P m
    → ((e : String) → IfOk P (next e))
    → IfOk P (on_error m next)
on_error-IfOk P (ok a) next h k = h
on_error-IfOk P (fail e) next h k = k e
on_error-IfOk P panic next h k = tt

then-IfOk {ℓ κ μ} :
    {A : Type ℓ} {B : Type κ} (P : B → Type μ) (m : Outcome A) (next : A → Outcome B)
    → ((a : A) → IfOk P (next a))
    → IfOk P (m >>= next)
then-IfOk P m next h = IfOk->>= (λ a. Unit {0}) P m next (IfOk_true m) (λ a u. h a)

-- sing-box's own check accepts it, and the profile of every WARP endpoint in it is fetched so.
abbrev pub Ready : Formats → Options → Type 0
Ready f o = (f.check_config_options o ≡ true) × All Fetched o.endpoints

module _ (f : Formats) (runs : RunsTasks f.run_batch) (env : Env) where
  patch_config_options-Ready :
      (o : Options) (name : String) → IfOk (Ready f) (patch_config_options f env o name)
  unfolding patch_config_options
  patch_config_options-Ready o name =
      let result = f.run_batch (patch_tasks env o.endpoints) in
      IfOk->>= (All Fetched) (Ready f) (batch_results result o.endpoints) _
        (batch_results-Fetched result
          (λ k e p. patch_tasks-Fetched env o.endpoints k e (runs _ k e p)) o.endpoints)
        (λ ends h. elim (Bool-cases (f.check_config_options (record o { endpoints = ends }))) [
          | inl checked ↦ rw (checked) (checked, h)
          | inr refused ↦ rw (refused) tt
        ])

  patch_config_str-Ready :
      (content name : String) → IfOk (Ready f) (patch_config_str f env content name)
  patch_config_str-Ready content name =
      then-IfOk (Ready f) (or_named _ (f.unmarshal content))
        (λ o. patch_config_options f env o name) (λ o. patch_config_options-Ready o name)

  patched_object-Ready : (m : Fields) → IfOk (Ready f) (patched_object f env m)
  patched_object-Ready m =
      then-IfOk (Ready f) (marshalled f env m) (λ c. patch_config_str f env c "SingboxParser")
        (λ c. patch_config_str-Ready c "SingboxParser")

  try_container-Ready :
      (m : Fields) (container : String) (next : String → Outcome Options)
      → ((e : String) → IfOk (Ready f) (next e))
      → IfOk (Ready f) (try_container f env m container next)
  try_container-Ready m container next h =
      then-IfOk (Ready f) (marshalled f env _)
        (λ c. on_error (patch_config_str f env c "SingboxParser") next)
        (λ c.
          on_error-IfOk (Ready f) (patch_config_str f env c "SingboxParser") next
            (patch_config_str-Ready c "SingboxParser") h)

  single_object-Ready : (m : Fields) → IfOk (Ready f) (single_object f env m)
  unfolding single_object
  single_object-Ready m =
      if_both (IfOk (Ready f)) (is_endpoint_type f env m)
        (try_container-Ready m "endpoints" _
          (λ first. try_container-Ready m "outbounds" (λ second. fail first) (λ second. tt)))
        (try_container-Ready m "outbounds" (λ first. fail first) (λ first. tt))

  parse_singbox_json-Ready :
      (j : Json) (opt : InhiveOptions) (full : Bool)
      → IfOk (Ready f) (parse_singbox_json f env j opt full)
  unfolding parse_singbox_json
  parse_singbox_json-Ready null opt full = tt
  parse_singbox_json-Ready (scalar s) opt full = tt
  parse_singbox_json-Ready (text s) opt full = tt
  parse_singbox_json-Ready (array no_items) opt full = tt
  parse_singbox_json-Ready (array (item j js)) opt full = patched_object-Ready _
  parse_singbox_json-Ready (object m) opt full =
      if_both (IfOk (Ready f)) _ (single_object-Ready m) (patched_object-Ready _)

  no_format-Ready : (e : Option String) → IfOk (Ready f) (no_format e)
  no_format-Ready none = tt
  no_format-Ready (some e) = tt

  converted_clash-Ready : (c : Clash) → IfOk (Ready f) (converted_clash f env c)
  converted_clash-Ready c = then-IfOk (Ready f) (or_named _ (f.clash_to_sing c)) _ (λ converted.
      then-IfOk (Ready f) (or_named _ (f.patch_clash converted))
        (λ output. patch_config_str f env output "ClashParser")
        (λ output. patch_config_str-Ready output "ClashParser"))

  from_proxies-Ready :
      (c : Clash) (proxies : Option (List String)) (e : Option String)
      → IfOk (Ready f) (from_proxies f env c proxies e)
  from_proxies-Ready c none e = no_format-Ready e
  from_proxies-Ready c (some []) e = tt
  from_proxies-Ready c (some (p ∷ ps)) e = converted_clash-Ready c

  from_clash-Ready : (c : Option Clash) (e : Option String) → IfOk (Ready f) (from_clash f env c e)
  from_clash-Ready none e = no_format-Ready e
  from_clash-Ready (some c) e = from_proxies-Ready c c.proxies e

  from_links-Ready :
      (links : Outcome Options) (content : String) (e : Option String)
      → IfOk (Ready f) (from_links f env links content e)
  from_links-Ready (ok v2ray) content e = patch_config_options-Ready v2ray "V2rayParser"
  from_links-Ready (fail m) content e = from_clash-Ready (f.decode_clash content) e
  from_links-Ready panic content e = tt

  other_formats-Ready :
      (content : String) (opt : InhiveOptions) (e : Option String)
      → IfOk (Ready f) (other_formats f env content opt e)
  unfolding other_formats
  other_formats-Ready content opt e = from_links-Ready _ content e

  first_format-Ready :
      (j : Option Json) (content : String) (opt : InhiveOptions) (full : Bool)
      → IfOk (Ready f) (first_format f env j content opt full)
  first_format-Ready none content opt full = other_formats-Ready content opt none
  first_format-Ready (some j) content opt full =
      on_error-IfOk (Ready f) (parse_singbox_json f env j opt full) _
        (parse_singbox_json-Ready j opt full) (λ e. other_formats-Ready content opt (some e))

  -- If a batch answers only with results of its functions, each under its key, then what
  -- `parse_config_content` returns without an error passes the check of sing-box, in whatever format
  -- the content comes, and each endpoint of type WARP with WARP's options has no server and no port of
  -- its own, and the detour of its profile is the fragmenting direct outbound.
  pub parse_config_content-Ready :
      (content : String) (config_opt : Option InhiveOptions) (full : Bool)
      → IfOk (Ready f) (parse_config_content f env content config_opt full)
  unfolding parse_config_content
  parse_config_content-Ready content config_opt full =
      first_format-Ready (f.decode_json content) content (or_default_options config_opt) full
