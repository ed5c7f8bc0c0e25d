-- ===== src/Vhost/Laws.antt =====
-- Reasoning about runs: what holds of a result and of the world that it leaves.

use sandboxer.Vhost.{Fault, terminal, plain, Result, ok, failed, Run, ◌>>=◌}

-- `P` holds of a value and the world after it, and `Q` of a failure and the world after it.
pub data Yields {W A : Type 0} (P : A → W → Type 0) (Q : Fault → W → Type 0)
    : Result A × W → Type 0 where
  yields : {a : A} {w : W} → P a w → Yields P Q (ok a, w)
  fails : {e : Fault} {w : W} → Q e w → Yields P Q (failed e, w)

abbrev pub IsTerminal : {W : Type 0} → Fault → W → Type 0
IsTerminal (terminal c) w = Unit
IsTerminal (plain c) w = ⊥

module _ {W A B : Type 0} {P : A → W → Type 0} {R : B → W → Type 0} {Q : Fault → W → Type 0} where
  bind_result :
      (r : Result A × W) (f : A → Run W B)
      → Yields P Q r
      → ((a : A) (w : W) → P a w → Yields R Q (f a w))
      → Yields R Q (elim r.0 as (λ x. Result B × W) [ ok a ↦ f a r.1 | failed e ↦ (failed e, r.1) ])
  bind_result (ok a, w) f (yields h) k = k a w h
  bind_result (failed e, w) f (fails h) k = fails h

  pub >>=-Yields :
      (m : Run W A) (f : A → Run W B) (w : W)
      → Yields P Q (m w)
      → ((a : A) (w' : W) → P a w' → Yields R Q (f a w'))
      → Yields R Q ((m >>= f) w)
  >>=-Yields m f w h k = bind_result (m w) f h k

pub weaken :
    {W A : Type 0} {P P' : A → W → Type 0} {Q Q' : Fault → W → Type 0} (r : Result A × W)
    → Yields P Q r
    → ((a : A) (w : W) → P a w → P' a w)
    → ((e : Fault) (w : W) → Q e w → Q' e w)
    → Yields P' Q' r
weaken (ok a, w) (yields h) f g = yields (f a w h)
weaken (failed e, w) (fails h) f g = fails (g e w h)

module _ {W A B : Type 0} (K : W → Type 0) where
  bind_stays :
      (r : Result A × W) (f : A → Run W B)
      → K r.1
      → ((a : A) (w : W) → K w → K (f a w).1)
      → K (elim r.0 as (λ x. Result B × W) [ ok a ↦ f a r.1 | failed e ↦ (failed e, r.1) ]).1
  bind_stays (ok a, w) f k step = step a w k
  bind_stays (failed e, w) f k step = k

  pub >>=-stays :
      (m : Run W A) (f : A → Run W B) (w : W)
      → K (m w).1
      → ((a : A) (w' : W) → K w' → K (f a w').1)
      → K ((m >>= f) w).1
  >>=-stays m f w k step = bind_stays (m w) f k step
