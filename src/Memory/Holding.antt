-- ===== src/Memory/Holding.antt =====
-- Memory that holds given characters, for the tests.
use kernalite.Base.{ℕ, ◌+◌, ◌-◌, Option, none, some, List, length, get_elem?, within, if◌then◌else◌}
use kernalite.Memory.{Mem}

abbrev byte_of : Option ℕ → ℕ
byte_of none = 0
byte_of (some c) = c

-- The characters lie from `p` on.
abbrev pub holding : ℕ → List ℕ → Mem → Mem
holding p cs m a = if within p (p + length cs) a then byte_of (get_elem? cs (a - p)) else m a
