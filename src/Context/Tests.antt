-- ===== src/Context/Tests.antt =====
-- Scoped contexts at concrete inputs.
use zyrnix.Prelude.{List, [], ◌∷◌, codes}
use zyrnix.Context.{ContextMap}
use zyrnix.Context.Scope.{Use, sets}

abbrev outer : ContextMap
outer = (codes "user", codes "ann") ∷ []

abbrev uses : List Use
uses = sets (codes "id") (codes "7") ∷ sets (codes "user") (codes "bob") ∷ []
