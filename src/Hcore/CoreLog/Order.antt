-- ===== src/Hcore/CoreLog/Order.antt =====
-- The lines of the log, written or waiting, in the order in which they were appended.
use inhive_core.Prelude.{
  ◌≤◌, String, false, not, List, [], ◌∷◌, ◌++◌, ◌≡◌, refl, ap, sym, subst, ◌∙◌, ◌⊎◌, inl, inr,
  arith, false≢true, ◌&&◌, append_assoc, append-nil, length, length-append, ltb, if◌then◌else◌,
  same, join, if_both, if_case,
}
use inhive_core.Hcore.CoreLog.{
  CoreLogWriter, FileSystem, LogEvent, set_up, append, fresh_log, write_locked, write_all, opened,
  init_core_log, core_log_append, log_step, log_run, core_log_backlog_cap,
}

-- The first list is the second one with some elements left out.
pub data Subsequence : List String → List String → Type 0 where
  empty : Subsequence [] []
  kept : {x : String} {xs ys : List String} → Subsequence xs ys → Subsequence (x ∷ xs) (x ∷ ys)
  left_out : {y : String} {xs ys : List String} → Subsequence xs ys → Subsequence xs (y ∷ ys)

Subsequence-self : (xs : List String) → Subsequence xs xs
Subsequence-self [] = empty
Subsequence-self (x ∷ xs) = kept (Subsequence-self xs)

Subsequence-append :
    {xs ys xs' ys' : List String}
    → Subsequence xs ys
    → Subsequence xs' ys'
    → Subsequence (xs ++ xs') (ys ++ ys')
Subsequence-append empty t = t
Subsequence-append (kept s) t = kept (Subsequence-append s t)
Subsequence-append (left_out s) t = left_out (Subsequence-append s t)

Subsequence-trans :
    {xs ys zs : List String} → Subsequence xs ys → Subsequence ys zs → Subsequence xs zs
Subsequence-trans empty t = t
Subsequence-trans s (left_out t) = left_out (Subsequence-trans s t)
Subsequence-trans (kept s) (kept t) = kept (Subsequence-trans s t)
Subsequence-trans (left_out s) (kept t) = left_out (Subsequence-trans s t)

without_last : (xs : List String) (x : String) → Subsequence xs (xs ++ (x ∷ []))
without_last [] x = left_out empty
without_last (y ∷ xs) x = kept (without_last xs x)

write_locked-written :
    (fs : FileSystem) (w : CoreLogWriter) (line : String)
    → ((write_locked fs w line).written ≡ w.written)
      ⊎ ((write_locked fs w line).written ≡ w.written ++ (line ∷ []))
unfolding write_locked
write_locked-written fs w line = ground arith

write_locked-backlog :
    (fs : FileSystem) (w : CoreLogWriter) (line : String)
    → (write_locked fs w line).backlog ≡ w.backlog
unfolding write_locked
write_locked-backlog fs w line = ground arith

write_locked-Subsequence :
    (fs : FileSystem) (w : CoreLogWriter) (line : String)
    → Subsequence (write_locked fs w line).written (w.written ++ (line ∷ []))
write_locked-Subsequence fs w line = elim (write_locked-written fs w line) [
  | inl e ↦ rw (e) (without_last w.written line)
  | inr e ↦ rw (e) (Subsequence-self (w.written ++ (line ∷ [])))
]

write_all-Subsequence :
    (fs : FileSystem) (w : CoreLogWriter) (lines : List String)
    → Subsequence (write_all fs w lines).written (w.written ++ lines)
unfolding write_all
write_all-Subsequence fs w [] = rw (append-nil w.written) (Subsequence-self w.written)
write_all-Subsequence fs w (line ∷ lines) =
    let now = Subsequence-append (write_locked-Subsequence fs w line) (Subsequence-self lines) in
    Subsequence-trans (write_all-Subsequence fs (write_locked fs w line) lines) (
      subst (Subsequence ((write_locked fs w line).written ++ lines))
        (append_assoc w.written (line ∷ []) lines) now)

abbrev pub appended : List LogEvent → List String
appended [] = []
appended (set_up fs dir ∷ es) = appended es
appended (append fs line ∷ es) = line ∷ appended es

-- Lines wait only while no file is open, two hundred at most, and with those written they are in order.
abbrev pub IsOrdered : List String → CoreLogWriter → Type 0
IsOrdered lines w =
    Subsequence (w.written ++ w.backlog) lines
    × ((w.is_open ≡ false) ⊎ (w.backlog ≡ []))
    × (length w.backlog ≤ core_log_backlog_cap)

nothing : (xs : List String) → Subsequence [] xs
nothing [] = empty
nothing (x ∷ xs) = left_out (nothing xs)

IsOrdered-more :
    (lines more : List String) (w : CoreLogWriter) → IsOrdered lines w → IsOrdered (lines ++ more) w
IsOrdered-more lines more w h = (
  subst (λ xs. Subsequence xs (lines ++ more)) (append-nil (w.written ++ w.backlog))
      (Subsequence-append h.0 (nothing more)),
  h.1,
  h.2,
)

write_locked-IsOrdered :
    (fs : FileSystem) (lines : List String) (w : CoreLogWriter) (line : String)
    → w.backlog ≡ []
    → IsOrdered lines w
    → IsOrdered (lines ++ (line ∷ [])) (write_locked fs w line)
write_locked-IsOrdered fs lines w line e h =
    let w' = write_locked fs w line in
    let none_left : w'.backlog ≡ [] = write_locked-backlog fs w line ∙ e in
    let old : Subsequence w.written lines =
      subst (λ xs. Subsequence xs lines) (ap (λ b. w.written ++ b) e ∙ append-nil w.written) h.0 in
    let new =
      Subsequence-trans (write_locked-Subsequence fs w line)
        (Subsequence-append old (Subsequence-self (line ∷ []))) in
    (
      subst (λ xs. Subsequence xs (lines ++ (line ∷ [])))
          (sym (ap (λ b. w'.written ++ b) none_left ∙ append-nil w'.written)) new,
      inr none_left,
      omega (arith, ap length none_left),
    )

core_log_append-IsOrdered :
    (fs : FileSystem) (lines : List String) (line : String) (w : CoreLogWriter)
    → IsOrdered lines w
    → IsOrdered (lines ++ (line ∷ [])) (core_log_append fs line w)
unfolding core_log_append
core_log_append-IsOrdered fs lines line w h =
    let P = IsOrdered (lines ++ (line ∷ [])) in
    let waiting = record w { backlog = w.backlog ++ (line ∷ []) } in
    let room = ltb (length w.backlog) core_log_backlog_cap in
    if_case P w.is_open (write_locked fs w line) (if room then waiting else w)
      (λ o. elim h.1 [
        | inl closed ↦ absurd (false≢true (sym closed ∙ o))
        | inr e ↦ write_locked-IsOrdered fs lines w line e h
      ])
      (λ closed.
        if_case P room waiting w
          (λ r. (
            subst (λ xs. Subsequence xs (lines ++ (line ∷ [])))
                (append_assoc w.written w.backlog (line ∷ []))
                (Subsequence-append h.0 (Subsequence-self (line ∷ []))),
            inl closed,
            ground (arith, length-append w.backlog (line ∷ [])),
          ))
          (λ full. IsOrdered-more lines (line ∷ []) w h))

init_core_log-IsOrdered :
    (fs : FileSystem) (dir : String) (lines : List String) (w : CoreLogWriter)
    → IsOrdered lines w
    → IsOrdered lines (init_core_log fs dir w)
unfolding init_core_log
init_core_log-IsOrdered fs dir lines w h =
    let path = join dir "/core.log" in
    let closed = record w { is_open = false } in
    let o = opened fs path closed in
    if_both (IsOrdered lines) (w.is_open && same w.path path) h (
      if_both (IsOrdered lines) (not (fs.makes_directory && fs.opens)) {x = closed}
        {y = record (write_all fs o w.backlog) { backlog = [] }} (h.0, inl refl, h.2)
        (
          subst (λ xs. Subsequence xs lines) (sym (append-nil (write_all fs o w.backlog).written))
              (Subsequence-trans (write_all-Subsequence fs o w.backlog) h.0),
          inr refl,
          omega arith,
        ))

run-IsOrdered :
    (es : List LogEvent) (lines : List String) (w : CoreLogWriter)
    → IsOrdered lines w
    → IsOrdered (lines ++ appended es) (log_run w es)
unfolding log_run log_step
run-IsOrdered [] lines w h = subst (λ xs. IsOrdered xs w) (sym (append-nil lines)) h
run-IsOrdered (set_up fs dir ∷ es) lines w h =
    run-IsOrdered es lines (init_core_log fs dir w) (init_core_log-IsOrdered fs dir lines w h)
run-IsOrdered (append fs line ∷ es) lines w h =
    subst (λ xs. IsOrdered xs (log_run (core_log_append fs line w) es))
      (append_assoc lines (line ∷ []) (appended es))
      (run-IsOrdered es (lines ++ (line ∷ [])) (core_log_append fs line w)
        (core_log_append-IsOrdered fs lines line w h))

-- Whatever the file system answers, the lines written, in all files, and after them those that wait, are
-- the appended ones in their order, with some left out at most. Lines wait only while no file is open, and
-- two hundred of them at the most.
pub log_run-IsOrdered : (es : List LogEvent) → IsOrdered (appended es) (log_run fresh_log es)
log_run-IsOrdered es = run-IsOrdered es [] fresh_log (empty, inl refl, omega arith)
