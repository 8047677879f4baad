-- ===== src/Util/Tests.antt =====
-- `trim` at concrete inputs.
use zyrnix.Prelude.{◌≡◌, refl, [], codes}
use zyrnix.Util.{is_trimmed, find_first_not_of, find_last_not_of, position, trim}

trimmed : trim (codes " \ta b\n") ≡ codes "a b"
unfolding trim position find_first_not_of find_last_not_of is_trimmed
trimmed = refl

all_blank : trim (codes " \n") ≡ []
unfolding trim find_first_not_of is_trimmed
all_blank = refl
