-- ===== src/Hcore/LastStart/Replay.antt =====
-- A saved request is the one that a later start without a configuration repeats.
use inhive_core.Prelude.{
  String, true, false, List, [], ◌∷◌, Option, none, some, ok, ◌≡◌, ◌≢◌, refl, sym, ap, ◌∙◌, apart,
}
use inhive_core.Hcore.State.{StartRequest}
use inhive_core.Hcore.LastStart.{
  Value, text, Table, is_empty_request, update_insert, unless_failed, save_last_start_request,
  load_saved, load_last_start_request_if_needed,
}

-- What a key-value table promises of a write that reports no error.
pub record IsTable {S : Type 0} (t : Table S) : Type 0 where
  pub get-set :
      (s : S) (k : String) (v : Value) → (t.set s k v).1 ≡ none → t.get (t.set s k v).0 k ≡ ok v
  pub get-set_other :
      (s : S) (k l : String) (v : Value) → l ≢ k → t.get (t.set s k v).0 l ≡ t.get s l

abbrev path_key : String
path_key = "lastStartRequestPath"

abbrev content_key : String
content_key = "lastStartRequestContent"

abbrev name_key : String
name_key = "lastStartRequestName"

abbrev rows_of : StartRequest → List (String × Value)
rows_of r =
    (path_key, text r.config_path)
    ∷ (content_key, text r.config_content)
    ∷ (name_key, text r.config_name)
    ∷ []

-- What is repeated of a request: its path, content and name, read as a raw configuration.
abbrev pub replayed : StartRequest → StartRequest
replayed r = record {
  config_path = r.config_path;
  config_content = r.config_content;
  disable_memory_limit = false;
  delay_start = false;
  enable_raw_config = true;
  config_name = r.config_name;
  ping_only = false;
}

module _ {S : Type 0} (t : Table S) (law : IsTable t) where
  update_insert-nil : (s : S) → (update_insert t s []).0 ≡ s
  unfolding update_insert
  update_insert-nil s = refl

  update_insert-step :
      (s : S) (k : String) (v : Value) (rows : List (String × Value))
      → (update_insert t s ((k, v) ∷ rows)).1 ≡ none
      → ((t.set s k v).1 ≡ none)
        × (update_insert t s ((k, v) ∷ rows) ≡ update_insert t (t.set s k v).0 rows)
  unfolding update_insert
  update_insert-step s k v rows e = go (t.set s k v) e
    where
      go :
          (m : S × Option String)
          → (unless_failed m (λ s'. update_insert t s' rows)).1 ≡ none
          → (m.1 ≡ none)
            × (unless_failed m (λ s'. update_insert t s' rows) ≡ update_insert t m.0 rows)
      go (s', none) h = (refl, refl)
      go (s', some x) h = cc

  load_saved-saved :
      (s : S) (r : StartRequest)
      → let rows = rows_of r in
        (update_insert t s rows).1 ≡ none
        → load_saved t (update_insert t s rows).0 ≡ ok (replayed r)
  unfolding load_saved
  load_saved-saved s r saved =
      let path = text r.config_path in
      let content = text r.config_content in
      let name = text r.config_name in
      let s1 = (t.set s path_key path).0 in
      let s2 = (t.set s1 content_key content).0 in
      let (ok1, e1) = update_insert-step s path_key path _ saved in
      let (ok2, e2) =
        update_insert-step s1 content_key content _ (sym (ap (λ m. m.1) e1) ∙ saved) in
      let (ok3, e3) =
        update_insert-step s2 name_key name [] (sym (ap (λ m. m.1) (e1 ∙ e2)) ∙ saved) in
      let s3 = (t.set s2 name_key name).0 in
      let end : (update_insert t s (rows_of r)).0 ≡ s3 =
        ap (λ m. m.0) (e1 ∙ (e2 ∙ e3)) ∙ update_insert-nil s3 in
      let path_read : t.get s3 path_key ≡ ok path =
        law.get-set_other s2 name_key path_key name (apart path_key name_key refl)
        ∙ (law.get-set_other s1 content_key path_key content (apart path_key content_key refl)
            ∙ law.get-set s path_key path ok1) in
      let content_read : t.get s3 content_key ≡ ok content =
        law.get-set_other s2 name_key content_key name (apart content_key name_key refl)
        ∙ law.get-set s1 content_key content ok2 in
      ap (load_saved t) end ∙ (rw (path_read, content_read, law.get-set s2 name_key name ok3))

  -- If a request that is not for pings only, and that has a configuration, is saved without an error,
  -- then a start without a request, or with an empty one, repeats its path, content and name, and reads
  -- the content as a raw configuration.
  pub save-load :
      (s : S) (r empty : StartRequest)
      → r.ping_only ≡ false
      → is_empty_request r ≡ false
      → is_empty_request empty ≡ true
      → (save_last_start_request t s r).1 ≡ none
      → let s' = (save_last_start_request t s r).0 in
        (load_last_start_request_if_needed t s' none ≡ ok (replayed r))
        × (load_last_start_request_if_needed t s' (some empty) ≡ ok (replayed r))
  unfolding save_last_start_request load_last_start_request_if_needed
  save-load s r empty real full bare saved =
      let done : (update_insert t s (rows_of r)).1 ≡ none = rw (real, full) at saved in
      let read = load_saved-saved s r done in (rw (real, full) read, rw (real, full, bare) read)
