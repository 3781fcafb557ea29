-- ===== src/Config/Formats/Keyed.antt =====
-- The endpoints that come back from the batch of v2/config/parser.go, which knows them by their tag.
use mathlib.Core.List.{Memᴰ}
use mathlib.Core.List.Memᴰ.{head, tail, not-nil, cases_cons}
use inhive_core.Prelude.{
  String, false, List, [], ◌∷◌, map, Option, none, some, Bool, true, if◌then◌else◌, fail, ok, ◌>>=◌,
  ◌≡◌, ◌≢◌, refl, ap, subst, sym, ◌∙◌, inl, inr, >>=-eq-ok,
}
use inhive_core.Config.Tags.{outbound_direct_fragment_tag}
use inhive_core.Config.SingBox.{Endpoint, Options}
use inhive_core.Config.Env.{Env}
use inhive_core.Config.Warp.{patch_warp}
use inhive_core.Config.Formats.Library.{Formats}
use inhive_core.Config.Formats.Ready.{RunsTasks}
use inhive_core.Config.Formats.{
  patch_tasks, add_result, batch_results, patch_config_options, validate_result,
}

abbrev pub HasNoTag : String → List Endpoint → Type 0
HasNoTag t [] = Unit
HasNoTag t (e ∷ es) = (t ≢ e.tag) × HasNoTag t es

abbrev pub AreDistinct : List Endpoint → Type 0
AreDistinct [] = Unit
AreDistinct (e ∷ es) = HasNoTag e.tag es × AreDistinct es

-- A batch answers for each key that a function was registered under.
abbrev pub AnswersAll : (List (String × Endpoint) → String → Option Endpoint) → Type 0
AnswersAll run =
    (tasks : List (String × Endpoint)) (k : String) (e : Endpoint)
    → Memᴰ (k, e) tasks
    → (answer : Endpoint) × (run tasks k ≡ some answer)

add_result-twice :
    (x y : Option Endpoint) {out : List Endpoint}
    → x ≡ y
    → add_result x (add_result y (ok [])) ≡ ok out
    → (e : Endpoint) × (out ≡ e ∷ e ∷ [])
add_result-twice none y p h = cc
add_result-twice (some e) none p h = cc
add_result-twice (some e) (some e') p h = (e, cc)

passed-eq {ℓ} :
    {A : Type ℓ} (test : Bool) {a r : A} (e : String)
    → (if test then ok a else fail e) ≡ ok r
    → r ≡ a
passed-eq true e h = cc
passed-eq false e h = cc

validate_result-endpoints :
    (f : Formats) (env : Env) (o : Options) (name : String) {r : Options}
    → validate_result f env o name ≡ ok r
    → r.endpoints ≡ o.endpoints
validate_result-endpoints f env o name h =
    ap (λ x. x.endpoints) (passed-eq (f.check_config_options o) _ h)

module _ (env : Env) where
  abbrev pub patched : Endpoint → Endpoint
  patched e = patch_warp env outbound_direct_fragment_tag false e

  task_of :
      (es : List Endpoint) (e : Endpoint) → Memᴰ e es → Memᴰ (e.tag, patched e) (patch_tasks env es)
  task_of [] e m = absurd (not-nil m)
  task_of (x ∷ xs) e m = elim (cases_cons m) [
    | inl p ↦ head (ap (λ y. (y.tag, patched y)) p)
    | inr later ↦ tail (task_of xs e later)
  ]

  no_task :
      (es : List Endpoint) (t : String) (e : Endpoint)
      → HasNoTag t es
      → Memᴰ (t, e) (patch_tasks env es)
      → ⊥
  no_task [] t e h m = not-nil m
  no_task (x ∷ xs) t e h m = elim (cases_cons m) [
    | inl p ↦ h.0 (ap (λ task. task.0) p)
    | inr later ↦ no_task xs t e h.1 later
  ]

  no_member : (es : List Endpoint) (e : Endpoint) → HasNoTag e.tag es → Memᴰ e es → ⊥
  no_member es e h m = no_task es e.tag (patched e) h (task_of es e m)

  task_unique :
      (es : List Endpoint) (e answer : Endpoint)
      → AreDistinct es
      → Memᴰ e es
      → Memᴰ (e.tag, answer) (patch_tasks env es)
      → answer ≡ patched e
  task_unique [] e answer d m k = absurd (not-nil m)
  task_unique (x ∷ xs) e answer d m k = elim (cases_cons m) [
    | inl p ↦ elim (cases_cons k) [
      | inl q ↦ ap (λ task. task.1) q ∙ ap patched (sym p)
      | inr later ↦ absurd (
          no_task xs x.tag answer d.0
            (subst (λ y. Memᴰ (y.tag, answer) (patch_tasks env xs)) p later))
    ]
    | inr member ↦ elim (cases_cons k) [
      | inl q ↦
          absurd
            (no_member xs e (subst (λ t. HasNoTag t xs) (sym (ap (λ task. task.0) q)) d.0) member)
      | inr later ↦ task_unique xs e answer d.1 member later
    ]
  ]

  -- The answer for an endpoint of a list with distinct tags.
  answer_of :
      (run : List (String × Endpoint) → String → Option Endpoint) (es : List Endpoint)
      (e : Endpoint)
      → RunsTasks run
      → AnswersAll run
      → AreDistinct es
      → Memᴰ e es
      → run (patch_tasks env es) e.tag ≡ some (patched e)
  answer_of run es e runs answers d m =
      let found = answers (patch_tasks env es) e.tag (patched e) (task_of es e m) in
      found.1 ∙ ap some (task_unique es e found.0 d m (runs _ e.tag found.0 found.1))

  batch_results-map :
      (result : String → Option Endpoint) (es : List Endpoint)
      → ((e : Endpoint) → Memᴰ e es → result e.tag ≡ some (patched e))
      → batch_results result es ≡ ok (map patched es)
  unfolding batch_results
  batch_results-map result [] h = refl
  batch_results-map result (e ∷ es) h =
      let rest = batch_results-map result es (λ x m. h x (tail m)) in
      ap (λ answer. add_result answer (batch_results result es)) (h e (head refl))
      ∙ ap (add_result (some (patched e))) rest

  module _ (f : Formats) where
    -- If a batch answers for each key of its functions, and only with results of functions that are
    -- registered under the key, then on endpoints with distinct tags `patchConfigOptions` patches each
    -- endpoint in its place, changes nothing else and leaves the answer to the check of sing-box.
    pub patch_config_options-map :
        (o : Options) (name : String)
        → RunsTasks f.run_batch
        → AnswersAll f.run_batch
        → AreDistinct o.endpoints
        → patch_config_options f env o name
          ≡ validate_result f env (record o { endpoints = map patched o.endpoints }) name
    unfolding patch_config_options
    patch_config_options-map o name runs answers d =
        ap (λ ends. ends >>= λ es. validate_result f env (record o { endpoints = es }) name)
          (batch_results-map (f.run_batch (patch_tasks env o.endpoints)) o.endpoints
            (λ e m. answer_of f.run_batch o.endpoints e runs answers d m))

    -- If `patchConfigOptions` accepts a configuration whose endpoints are two with the same tag, then
    -- both endpoints of the result are the same one.
    pub patch_config_options-merged :
        (o : Options) (name : String) (a b : Endpoint) {r : Options}
        → o.endpoints ≡ a ∷ b ∷ []
        → a.tag ≡ b.tag
        → patch_config_options f env o name ≡ ok r
        → (e : Endpoint) × (r.endpoints ≡ e ∷ e ∷ [])
    unfolding patch_config_options batch_results
    patch_config_options-merged o name a b es tags done =
        let result = f.run_batch (patch_tasks env o.endpoints) in
        let split = >>=-eq-ok (batch_results result o.endpoints) _ done in
        let two = subst (λ xs. batch_results result xs ≡ ok split.0) es split.1 in
        let both = add_result-twice (result a.tag) (result b.tag) (ap result tags) two in
        (both.0, validate_result-endpoints f env _ name split.2 ∙ both.1)
