-- ===== src/Tests/Values.antt =====
-- Values and their types.
use memory_tools.Prelude.{refl, false}
use memory_tools.Types.{Floats}

-- Floats of which none is below another.
abbrev pub floats : Floats
floats = record { less = λ t a b. false; less_asymm = λ t a b h. refl }
