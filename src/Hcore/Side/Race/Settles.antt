-- ===== src/Hcore/Side/Race/Settles.antt =====
-- The caller of `runInstanceCore` is answered, and no instance is left without an owner.
use inhive_core.Prelude.{
  ℕ, ◌<◌, ◌+◌, Bool, true, false, ◌≡◌, refl, sym, subst, ap, ◌⊎◌, inl, inr, arith,
}
use inhive_core.Hcore.Side.Race.{
  Built, Worker, building, offering, ended, Caller, waiting, returned, Race, instances, exceeded,
  after_build, after_send, after_close, after_timeout, Step, builds, expires, sends, closes,
  times_out, Reach, start, later,
}

-- What is known of the instance: before it is built there is none; while the worker offers it, it is up;
-- then it belongs to the caller who has got it, or it is closed.
abbrev pub IsOwned : Worker → Caller → Bool → ℕ → Type 0
IsOwned building waiting expired live = live ≡ 0
IsOwned building (returned r) expired live = (live ≡ 0) × (r ≡ exceeded) × (expired ≡ true)
IsOwned (offering r) waiting expired live = live ≡ instances r
IsOwned (offering r) (returned q) expired live =
    (live ≡ instances r) × (q ≡ exceeded) × (expired ≡ true)
IsOwned ended waiting expired live = (live ≡ 0) × (expired ≡ true)
IsOwned ended (returned r) expired live = live ≡ instances r

abbrev Owned : Race → Type 0
Owned s = IsOwned s.worker s.caller s.expired s.live

IsOwned-build :
    (r : Built) (c : Caller) (x : Bool) (n : ℕ)
    → IsOwned building c x n
    → IsOwned (offering r) c x (instances r)
IsOwned-build r waiting x n h = refl
IsOwned-build r (returned q) x n h = (refl, h.1, h.2)

IsOwned-expiry : (w : Worker) (c : Caller) (x : Bool) (n : ℕ) → IsOwned w c x n → IsOwned w c true n
IsOwned-expiry building waiting x n h = h
IsOwned-expiry building (returned q) x n h = (h.0, h.1, refl)
IsOwned-expiry (offering r) waiting x n h = h
IsOwned-expiry (offering r) (returned q) x n h = (h.0, h.1, refl)
IsOwned-expiry ended waiting x n h = (h.0, refl)
IsOwned-expiry ended (returned q) x n h = h

IsOwned-close :
    (r : Built) (c : Caller) (x : Bool) (n : ℕ)
    → x ≡ true
    → IsOwned (offering r) c x n
    → IsOwned ended c x 0
IsOwned-close r waiting x n e h = (refl, e)
IsOwned-close r (returned q) x n e h = sym (ap instances h.1)

IsOwned-timeout :
    (w : Worker) (x : Bool) (n : ℕ)
    → x ≡ true
    → IsOwned w waiting x n
    → IsOwned w (returned exceeded) x n
IsOwned-timeout building x n e h = (h, refl, e)
IsOwned-timeout (offering r) x n e h = (h, refl, e)
IsOwned-timeout ended x n e h = h.0

Step-Owned : {s t : Race} → Step s t → Owned s → Owned t
Step-Owned (builds {s} r e) h =
    IsOwned-build r s.caller s.expired s.live (subst (λ w. IsOwned w s.caller s.expired s.live) e h)
Step-Owned (expires {s} e) h = IsOwned-expiry s.worker s.caller s.expired s.live h
Step-Owned (sends {s} r e f) h =
    subst (λ c. IsOwned (offering r) c s.expired s.live) f
      (subst (λ w. IsOwned w s.caller s.expired s.live) e h)
Step-Owned (closes {s} r e f) h =
    IsOwned-close r s.caller s.expired s.live f
      (subst (λ w. IsOwned w s.caller s.expired s.live) e h)
Step-Owned (times_out {s} e f) h =
    IsOwned-timeout s.worker s.expired s.live f
      (subst (λ c. IsOwned s.worker c s.expired s.live) e h)

Reach-Owned : {s : Race} → Reach s → Owned s
Reach-Owned start = refl
Reach-Owned (later r step) = Step-Owned step (Reach-Owned r)

-- The caller is answered, the worker has ended, and what is up is what the caller has got.
abbrev pub IsSettled : Race → Type 0
IsSettled s = (r : Built) × (s.caller ≡ returned r) × (s.worker ≡ ended) × (s.live ≡ instances r)

abbrev pub Goes : Race → Type 0
Goes s = (t : Race) × Step s t

Owned-Goes :
    (s : Race) (w : Worker) (c : Caller)
    → s.worker ≡ w
    → s.caller ≡ c
    → IsOwned w c s.expired s.live
    → IsSettled s ⊎ Goes s
Owned-Goes s building c e f h = inr (after_build exceeded s, builds exceeded e)
Owned-Goes s (offering r) waiting e f h = inr (after_send r s, sends r e f)
Owned-Goes s (offering r) (returned q) e f h = inr (after_close r s, closes r e h.2)
Owned-Goes s ended waiting e f h = inr (after_timeout s, times_out f h.1)
Owned-Goes s ended (returned r) e f h = inl (r, f, e, h)

abbrev worker_left : Worker → ℕ
worker_left building = 2
worker_left (offering r) = 1
worker_left ended = 0

abbrev caller_left : Caller → ℕ
caller_left waiting = 1
caller_left (returned r) = 0

abbrev clock_left : Bool → ℕ
clock_left true = 0
clock_left false = 1

-- The steps that are left at the most, four at the start.
abbrev pub left : Race → ℕ
left s = worker_left s.worker + (caller_left s.caller + clock_left s.expired)

Step-left : {s t : Race} → Step s t → left t < left s
Step-left (builds r e) = omega (arith, ap worker_left e)
Step-left (expires e) = omega (arith, ap clock_left e)
Step-left (sends r e f) = omega (arith, ap worker_left e, ap caller_left f)
Step-left (closes r e f) = omega (arith, ap worker_left e)
Step-left (times_out e f) = omega (arith, ap caller_left e)

-- In every interleaving: the run goes on until the caller is answered and the worker has ended, after
-- four steps at the most, and then the instance that is up, if one is, is the one that the caller has
-- got. Once the deadline has passed, a caller that waits is answered by its own step, also while the
-- worker hangs.
pub Reach-settles :
    {s : Race}
    → Reach s
    → (IsSettled s ⊎ Goes s)
      × ((t : Race) → Step s t → left t < left s)
      × (s.caller ≡ waiting → s.expired ≡ true → Step s (after_timeout s))
Reach-settles {s} r = (
  Owned-Goes s s.worker s.caller refl refl (Reach-Owned r),
  λ t step. Step-left step,
  λ e f. times_out e f,
)
