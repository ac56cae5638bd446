-- ===== src/Shield/Orbital.antt =====
-- shield/: what a safe certificate of the non-terrestrial Shield means, and what the projection onto the
-- power-flux-density ceiling does.
use preceptual_ai_5g_dynamic.Prelude.{true, ◌≡◌}
use preceptual_ai_5g_dynamic.Prelude.Int.{ℤ}
use preceptual_ai_5g_dynamic.Prelude.Flt.{Flt, fin, le_flt}
use preceptual_ai_5g_dynamic.Prelude.Outcome.{ok}
use preceptual_ai_5g_dynamic.Shield.Action.{Action}
use preceptual_ai_5g_dynamic.Shield.Ntn.{Satellite, compute_pfd}

-- the flux at the surface is at most the ceiling
abbrev pub PfdBelow : Satellite → ℤ → Action → Type 0
PfdBelow s max_pfd a = (pfd : Flt) × (compute_pfd s a ≡ ok pfd) × (le_flt pfd (fin max_pfd) ≡ true)
