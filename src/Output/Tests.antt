-- ===== src/Output/Tests.antt =====
-- Sinks at concrete inputs.
use zyrnix.Prelude.{
  ℕ, ◌≡◌, refl, true, false, some, none, [], ◌∷◌, ◌++◌, map, Text, codes, if◌then◌else◌, ◌==◌,
}
use zyrnix.Level.{info}
use zyrnix.Logger.{Logger, SinkEntry, init, find_override}
use zyrnix.Logger.Logging.{visit, receive, overridden}
use zyrnix.Output.{
  Sink, Sinks, nil, cons, null_sink, stdout_sink, udp_sink, cloud_sink, multi_sink, open_udp, log,
}
use zyrnix.Output.Hidden.{clouds, taken, holding, visit-clouds}

abbrev time : ℕ → Text
time n = codes "12:00"

-- A socket for the second address only.
abbrev udp : Sink
udp = udp_sink (open_udp (some (1 ∷ 2 ∷ [])) (λ p. if p == 2 then some 7 else none))

abbrev inner : Sinks
inner = cons stdout_sink (cons (cloud_sink 4) nil)

abbrev outer : Sinks
outer = cons null_sink (cons (multi_sink inner) nil)

abbrev masking : Logger
masking = record (init (codes "a")) { redact_cloud_only = true }

abbrev entry : SinkEntry
entry = record {
  sink = some (record { is_cloud_sink = false; received = [] });
  name = codes "both";
  marked_for_removal = false;
  ref_count = 0;
}

visit-clouds_example :
    (visit masking info (codes "pin 7") (codes "***") 0 (holding entry [] (multi_sink outer))
      ≡ receive
          (holding entry [] (multi_sink outer))
          (record { name = codes "a"; level = info; message = codes "pin 7" }))
    × (taken (log time (multi_sink outer) (codes "a") info (codes "pin 7") [])
        ≡ taken [] ++ map (λ id. (id, codes "pin 7")) (clouds (multi_sink outer)))
    × (visit masking info (codes "pin 7") (codes "***") 0 (holding entry [] (cloud_sink 4))
        ≡ receive
            (holding entry [] (cloud_sink 4))
            (record { name = codes "a"; level = info; message = codes "***" }))
    × (taken (log time (cloud_sink 4) (codes "a") info (codes "***") [])
        ≡ taken [] ++ (4, codes "***") ∷ [])
unfolding overridden find_override init
visit-clouds_example =
    visit-clouds time masking info (codes "pin 7") (codes "***") 0 entry outer 4 [] [] refl refl
      refl refl
