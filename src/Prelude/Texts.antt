-- ===== src/Prelude/Texts.antt =====
-- Texts that the Boolean test tells apart.
use Prim.Native.String.{String}
use mathlib.Core.Path.{◌≡◌}
use mathlib.Core.Logic.{◌≢◌}
use mathlib.Core.Bool.{false}
use native.Mathlib.Omega.{arith}
use text.Mathlib.Text.{◌==◌}
use text.Mathlib.TextEquality.{eq_iff}

pub different : (a b : String) → (a == b) ≡ false → a ≢ b
different a b no_ e = ground (arith, eq_iff a b)
