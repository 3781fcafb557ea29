-- ===== src/Hcore/CoreLog/Rotation.antt =====
-- What a log without failures holds, and the size that it rotates at.
use inhive_core.Prelude.{
  ℕ, ◌≤◌, ◌+◌, String, true, false, List, [], ◌∷◌, ◌++◌, some, ◌≡◌, ap, sym, subst, ◌∙◌, arith,
  append_assoc, append-nil, map, if_case, false≢true, not, leb, refl, if◌then◌else◌,
}
use inhive_core.Hcore.CoreLog.{
  CoreLogWriter, FileSystem, append, after_write, write_locked, core_log_append, log_step, log_run,
  core_log_max_bytes,
}

-- The log is open, has the lines, knows the size of its file, and the file is not overgrown.
abbrev pub Holds : List String → CoreLogWriter → Type 0
Holds lines w =
    (w.is_open ≡ true)
    × (w.written ≡ lines)
    × (w.file_size ≡ w.size)
    × (w.file_size ≤ core_log_max_bytes)

module _ (fs : FileSystem) (all_written : (line : String) → (n : ℕ) × (fs.writes line ≡ some n))
    (renamed : fs.renames ≡ true) (reopened : fs.reopens ≡ true) where
  after_write-Holds :
      (lines : List String) (w : CoreLogWriter) (line : String) (n : ℕ)
      → Holds lines w
      → Holds (lines ++ (line ∷ [])) (after_write fs w line (some n))
  after_write-Holds lines w line n h =
      let P = Holds (lines ++ (line ∷ [])) in
      let w' = record w {
        size = w.size + n;
        file_size = w.file_size + n;
        written = w.written ++ (line ∷ []);
      } in
      let moved = record w' { file_size = if fs.renames then 0 else w.file_size + n } in
      let empty : moved.file_size ≡ 0 = rw (renamed) refl in
      let more = ap (λ xs. xs ++ (line ∷ [])) h.1 in
      if_case P (leb (w.size + n) core_log_max_bytes) w' _
        (λ fits. (h.0, more, omega (arith, h.2), ground (arith, h.2)))
        (λ e.
          if_case P fs.reopens (record moved { size = 0 }) (record moved { is_open = false })
            (λ r. (h.0, more, empty, omega (arith, empty)))
            (λ r. absurd (false≢true (sym r ∙ reopened))))

  write_locked-Holds :
      (lines : List String) (w : CoreLogWriter) (line : String)
      → Holds lines w
      → Holds (lines ++ (line ∷ [])) (write_locked fs w line)
  unfolding write_locked
  write_locked-Holds lines w line h =
      let P = Holds (lines ++ (line ∷ [])) in
      let n = all_written line in
      if_case P (not w.is_open) w (after_write fs w line (fs.writes line))
        (λ closed. absurd (false≢true (sym (ap not h.0) ∙ closed)))
        (λ o.
          subst (λ r. P (after_write fs w line r)) (sym n.1) (after_write-Holds lines w line n.0 h))

  append-Holds :
      (lines : List String) (w : CoreLogWriter) (line : String)
      → Holds lines w
      → Holds (lines ++ (line ∷ [])) (core_log_append fs line w)
  unfolding core_log_append
  append-Holds lines w line h =
      if_case (Holds (lines ++ (line ∷ []))) w.is_open (write_locked fs w line) _
        (λ o. write_locked-Holds lines w line h) (λ closed. absurd (false≢true (sym closed ∙ h.0)))

  -- If every write succeeds, and a file that has grown too large can be renamed and opened again, then an
  -- open log that knows the size of its file, of 5 MiB at most, gets every line appended to it, in order,
  -- stays open, and its file has at most 5 MiB.
  pub log_run-Holds :
      (more lines : List String) (w : CoreLogWriter)
      → Holds lines w
      → Holds (lines ++ more) (log_run w (map (append fs) more))
  unfolding log_run log_step
  log_run-Holds [] lines w h = subst (λ xs. Holds xs w) (sym (append-nil lines)) h
  log_run-Holds (line ∷ more) lines w h =
      subst (λ xs. Holds xs (log_run (core_log_append fs line w) (map (append fs) more)))
        (append_assoc lines (line ∷ []) more)
        (log_run-Holds more (lines ++ (line ∷ [])) (core_log_append fs line w)
          (append-Holds lines w line h))
