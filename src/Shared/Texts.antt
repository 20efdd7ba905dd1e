-- ===== src/Shared/Texts.antt =====
-- Texts that are put together.
use Prim.Native.String.{String, ◌++◌}

abbrev pub join : String → String → String
join s t = s ++ t
