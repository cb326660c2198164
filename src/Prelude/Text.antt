-- ===== src/Prelude/Text.antt =====
-- Python's reading of texts: truth, `or`, and the prefix of a given length.
use Prim.Native.Nat.{ℕ, zero, suc}
use Prim.Native.String.{String, ◌++◌ as str_append, len}
use mathlib.Core.List.{List, [], ◌∷◌}
use mathlib.Core.Bool.{Bool, not}
use mathlib.Core.Option.{Option, none, some}
use text.Mathlib.Text.{◌==◌ as str_eq}
use soomsuite_agent.Prelude.Tests.{if◌then◌else◌}

-- `text[:n]`
unfoldable pub str_take : ℕ → String → String
str_take zero s = ""
str_take (suc n) String.[] = ""
str_take (suc n) (String.◌∷◌ c s) = String.◌∷◌ c (str_take n s)

-- `bool(text)`
abbrev pub non_empty : String → Bool
non_empty s = not (str_eq s "")

-- `text or None`
abbrev pub or_none : String → Option String
or_none s = if str_eq s "" then none else some s

-- `text or ""`
abbrev pub or_empty : Option String → String
or_empty none = ""
or_empty (some s) = s

-- `sep.join(texts)`
unfoldable pub join : String → List String → String
join sep [] = ""
join sep (s ∷ []) = s
join sep (s ∷ t ∷ rest) = str_append s (str_append sep (join sep (t ∷ rest)))

-- `len(text)`
abbrev pub str_length : String → ℕ
str_length = len
