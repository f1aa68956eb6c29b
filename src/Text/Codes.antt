-- ===== src/Text/Codes.antt =====
-- The bytes of a literal.
use Prim.Native.Char.{code}
use Prim.Native.String.{String}
use thirft_proxy.Prelude.{ℕ, List, [], ◌∷◌}

abbrev pub codes : String → List ℕ
codes String.[] = []
codes (String.◌∷◌ c s) = code c ∷ codes s
