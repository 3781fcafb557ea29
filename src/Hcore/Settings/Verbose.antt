-- ===== src/Hcore/Settings/Verbose.antt =====
-- The filter of the log's view stays out of the table.
use inhive_core.Prelude.{
  String, Bool, true, false, some, ok, ap, sym, ◌∙◌, ◌≡◌, ◌≢◌, refl, same, same-ne, Bool-cases, inl,
  inr,
}
use inhive_core.Hcore.Settings.{
  Codec, Levels, current, merged, has_level, is_verbose_filter, in_memory, first_persisted, changed,
  persist, change_inhive_settings,
}

module _ {O : Type 0} (c : Codec O) where
  first_persisted-set :
      (s : Levels O) → s.persisted ≢ "" → (first_persisted c s).persisted ≡ s.persisted
  unfolding first_persisted
  first_persisted-set s h = rw (same-ne s.persisted "" h) refl

  -- A filter changes the memory only.
  changed-verbose :
      (saves : Bool) (json : String) (o : O) (s : Levels O)
      → is_verbose_filter c json o ≡ true
      → changed c saves true json o s ≡ (in_memory c o s, ok tt)
  unfolding changed
  changed-verbose saves json o s h = elim (Bool-cases (same json "")) [
    | inl e ↦ rw (e) refl
    | inr e ↦ rw (e, h) refl
  ]

  not_verbose :
      (json : String) (o : O) → has_level (c.keys json) ≡ false → is_verbose_filter c json o ≡ false
  unfolding is_verbose_filter
  not_verbose json o h = elim (Bool-cases (same json "")) [
    | inl e ↦ rw (e) refl
    | inr e ↦ rw (e, h) refl
  ]

  -- A setting without a level is stored with the level that was persisted.
  changed-stored :
      (json : String) (o : O) (s : Levels O) (level text : String)
      → json ≢ ""
      → has_level (c.keys json) ≡ false
      → s.persisted ≡ level
      → c.marshal (c.with_level level o) ≡ some text
      → (changed c true true json o s).0.stored ≡ some text
  unfolding changed persist in_memory
  changed-stored json o s level text j k p m =
      rw (same-ne json "" j, not_verbose json o k, k, p, m) refl

  change-filtered :
      (saves : Bool) (s : Levels O) (filter : String) (o : O)
      → merged c filter (current c s.options) ≡ some o
      → is_verbose_filter c filter o ≡ true
      → change_inhive_settings c saves true filter s ≡ (in_memory c o (first_persisted c s), ok tt)
  unfolding change_inhive_settings
  change-filtered saves s filter o e v =
      rw (e) (changed-verbose saves filter o (first_persisted c s) v)

  change-stored :
      (s : Levels O) (json : String) (o : O) (level text : String)
      → s.persisted ≡ level
      → level ≢ ""
      → json ≢ ""
      → has_level (c.keys json) ≡ false
      → merged c json (current c s.options) ≡ some o
      → c.marshal (c.with_level level o) ≡ some text
      → (change_inhive_settings c true true json s).0.stored ≡ some text
  unfolding change_inhive_settings
  change-stored s json o level text q p j k e m = rw (e) (
      changed-stored json o (first_persisted c s) level text j k
        (first_persisted-set s (λ r. p (sym q ∙ r)) ∙ q) m)

  kept-persisted :
      (s : Levels O) (o : O)
      → s.persisted ≢ ""
      → (in_memory c o (first_persisted c s)).persisted ≡ s.persisted
  unfolding in_memory
  kept-persisted s o p = first_persisted-set s p

  new-options : (s : Levels O) (o : O) → (in_memory c o s).options ≡ some o
  unfolding in_memory
  new-options s o = refl

  -- When the view of the log asks for debug or trace lines, and after it a setting without a level is
  -- changed and stored, then the stored settings have the level that was persisted before the view asked.
  change_inhive_settings-stored :
      (saves : Bool) (s : Levels O) (filter json : String) (o o' : O) (text : String)
      → s.persisted ≢ ""
      → merged c filter (current c s.options) ≡ some o
      → is_verbose_filter c filter o ≡ true
      → json ≢ ""
      → has_level (c.keys json) ≡ false
      → merged c json o ≡ some o'
      → c.marshal (c.with_level s.persisted o') ≡ some text
      → let filtered = (change_inhive_settings c saves true filter s).0 in
        (change_inhive_settings c true true json filtered).0.stored ≡ some text
  change_inhive_settings-stored saves s filter json o o' text p e v j k e' m =
      let s' = in_memory c o (first_persisted c s) in
      let now = ap (λ x. merged c json (current c x)) (new-options (first_persisted c s) o) ∙ e' in
      rw (change-filtered saves s filter o e v)
        (change-stored s' json o' s.persisted text (kept-persisted s o p) p j k now m)
