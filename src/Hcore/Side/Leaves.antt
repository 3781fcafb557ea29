-- ===== src/Hcore/Side/Leaves.antt =====
-- What the start of an instance beside the tunnel leaves open.
use inhive_core.Prelude.{
  ℕ, suc, arith, Bool, true, false, Outcome, panic, ok, fail, ◌≡◌, refl, IfOk,
}
use inhive_core.Hcore.Side.{SideWorld, start_with, checked_start, started, settled}

-- What a start leaves open: one service more after a success, as many as before after an error.
abbrev pub Leaves {ℓ} : {A : Type ℓ} → (A → Type 0) → ℕ → Outcome A × ℕ → Type 0
Leaves P before (ok a, n) = P a × (n ≡ suc before)
Leaves P before (fail e, n) = n ≡ before
Leaves P before (panic, n) = Unit

pub start_with-Leaves {ℓ} :
    {A : Type ℓ} (P : A → Type 0) (w : SideWorld) (a : Outcome A) (before : ℕ)
    → IfOk P a
    → Leaves P before (start_with w a before)
start_with-Leaves P w (fail e) before h = refl
start_with-Leaves P w panic before h = tt
start_with-Leaves P w (ok a) before h = checked w.check
  where
    settles : (b : Bool) → Leaves P before (settled b a (suc before))
    settles true = (h, refl)
    settles false = omega arith

    starts : (r : Outcome (Unit {0})) → Leaves P before (started w.settles r a (suc before))
    starts (ok u) = settles w.settles
    starts (fail e) = omega arith
    starts panic = tt

    checked : (r : Outcome (Unit {0})) → Leaves P before (checked_start w r a before)
    checked (ok u) = starts w.starts
    checked (fail e) = refl
    checked panic = tt
