-- ===== src/Redact/Tests.antt =====
-- Redaction at concrete inputs.
use zyrnix.Prelude.{none, some, [], ◌∷◌, ◌≡◌, refl, Text, codes, length, All}
use zyrnix.Redact.{find, find_from, replace, redact_loop, redact_one, redact}
use zyrnix.Redact.Occurrence.{redact_lem}

two_secrets :
    redact (codes "pin=12 key=ab1212") (codes "12" ∷ codes "ab" ∷ [])
    ≡ some (codes "pin=** key=******")
unfolding redact redact_one redact_loop find_from find replace
two_secrets = refl

redact_lem_example :
    (result : Text) × (redact (codes "pin=12") (codes "12" ∷ []) ≡ some result)
    × (length result ≡ 6)
    × All (λ r. find r result ≡ none) (codes "12" ∷ [])
redact_lem_example = redact_lem (codes "pin=12") (codes "12" ∷ []) (refl, tt)
