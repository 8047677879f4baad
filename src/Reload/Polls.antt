-- ===== src/Reload/Polls.antt =====
-- Which of its polls make `ConfigWatcher` of src/config_watcher.cpp reload the configuration.
use zyrnix.Prelude.{
  ℕ, ◌≡◌, ◌≢◌, refl, ap, sym, ◌∙◌, Bool, true, false, Option, none, some, List, [], ◌∷◌,
  if◌then◌else◌, ◌==◌, Text, All, Bool-cases, Option-cases, inl, inr, arith, ==_iff,
}
use zyrnix.Reload.{HotReloadManager, reload}
use zyrnix.Reload.Watcher.{
  ConfigWatcher, Poll, init, start, first_seen, poll, watch_loop, start_watching,
}

-- The polls that saw a file whose time differs from the one that was seen before; the first that
-- saw one is not among them.
unfoldable pub changes : Option ℕ → List Poll → List Poll
changes before [] = []
changes before (p ∷ ps) = elim p.st_mtime [
  | none ↦ changes before ps
  | some t ↦
      let rest = changes (some t) ps in
      elim before [ none ↦ rest | some b ↦ if t == b then rest else p ∷ rest ]
]

changes-none :
    (before : Option ℕ) (p : Poll) (ps : List Poll)
    → p.st_mtime ≡ none
    → changes before (p ∷ ps) ≡ changes before ps
unfolding changes
changes-none before p ps e = rw (changes, e) refl

changes_first :
    (p : Poll) (ps : List Poll) (t : ℕ)
    → p.st_mtime ≡ some t
    → changes none (p ∷ ps) ≡ changes (some t) ps
unfolding changes
changes_first p ps t e = rw (changes, e) refl

changes_later :
    (p : Poll) (ps : List Poll) (b t : ℕ)
    → p.st_mtime ≡ some t
    → changes (some b) (p ∷ ps) ≡ (if t == b then changes (some t) ps else p ∷ changes (some t) ps)
unfolding changes
changes_later p ps b t e = simp e refl

-- A file's time is not the start of the epoch.
abbrev pub IsDated : Poll → Type 0
IsDated p = p.st_mtime ≢ some 0

-- The time seen before as the watcher holds it.
unfoldable pub held : Option ℕ → ℕ
held none = 0
held (some t) = t

poll_nothing : (w : ConfigWatcher) → poll w none ≡ (w, false)
unfolding poll
poll_nothing w = refl

poll_first :
    (w : ConfigWatcher) (t : ℕ)
    → w.last_mtime ≡ 0
    → poll w (some t) ≡ (record w { last_mtime = t }, false)
unfolding poll first_seen
poll_first w t h = simp h (rw ((==_iff t t).1 refl) refl)

poll_later :
    (w : ConfigWatcher) (t : ℕ)
    → w.last_mtime ≢ 0
    → poll w (some t)
      ≡ (if t == w.last_mtime then (w, false) else (record w { last_mtime = t }, true))
unfolding poll first_seen
poll_later w t h = elim (Bool-cases (w.last_mtime == 0)) [
  | inl e ↦ absurd (h ((==_iff w.last_mtime 0).0 e))
  | inr e ↦ rw (first_seen, e) refl
]

unfoldable pub manager : {A B : Type 0} → Option (A × B) → Option B
manager none = none
manager (some (a, b)) = some b

module _ {Long : Type 0} (stoull : Text → Option ℕ) (stol : Text → Option Long)
    (five_seconds : Long) where
  -- One reload after the other.
  unfoldable pub reload_each : HotReloadManager Long → List Poll → Option (HotReloadManager Long)
  reload_each m [] = some m
  reload_each m (p ∷ ps) = elim (reload stoull stol five_seconds m p.file p.now) [
    | none ↦ none
    | some n ↦ reload_each n ps
  ]

  kept-watch_loop :
      (w v : ConfigWatcher) (m : HotReloadManager Long) (p : Poll) (ps : List Poll)
      → poll w p.st_mtime ≡ (v, false)
      → watch_loop stoull stol five_seconds w m (p ∷ ps)
        ≡ watch_loop stoull stol five_seconds v m ps
  unfolding watch_loop
  kept-watch_loop w v m p ps h =
      ap
        (λ (q : ConfigWatcher × Bool).
          elim (if q.1 then reload stoull stol five_seconds m p.file p.now else some m) [
            | none ↦ none
            | some n ↦ watch_loop stoull stol five_seconds q.0 n ps
          ])
        h

  changed-watch_loop :
      (w v : ConfigWatcher) (m : HotReloadManager Long) (p : Poll) (ps : List Poll)
      → poll w p.st_mtime ≡ (v, true)
      → watch_loop stoull stol five_seconds w m (p ∷ ps)
        ≡ elim (reload stoull stol five_seconds m p.file p.now) [
          | none ↦ none
          | some n ↦ watch_loop stoull stol five_seconds v n ps
        ]
  unfolding watch_loop
  changed-watch_loop w v m p ps h =
      ap
        (λ (q : ConfigWatcher × Bool).
          elim (if q.1 then reload stoull stol five_seconds m p.file p.now else some m) [
            | none ↦ none
            | some n ↦ watch_loop stoull stol five_seconds q.0 n ps
          ])
        h

  reloaded-watch_loop :
      (w v : ConfigWatcher) (m : HotReloadManager Long) (p : Poll) (ps rest : List Poll)
      → poll w p.st_mtime ≡ (v, true)
      → ((n : HotReloadManager Long)
          → manager (watch_loop stoull stol five_seconds v n ps) ≡ reload_each n rest)
      → manager (watch_loop stoull stol five_seconds w m (p ∷ ps)) ≡ reload_each m (p ∷ rest)
  unfolding reload_each manager
  reloaded-watch_loop w v m p ps rest h ih =
      ap manager (changed-watch_loop w v m p ps h)
      ∙ elim (Option-cases (reload stoull stol five_seconds m p.file p.now)) [
        | inl e ↦ rw (reload_each, e) refl
        | inr (n, e) ↦ rw (reload_each, e) (ih n)
      ]

  -- A poll that saw a time, after none or after another.
  seen-watch_loop :
      (w : ConfigWatcher) (m : HotReloadManager Long) (before : Option ℕ) (p : Poll)
      (ps : List Poll) (t : ℕ)
      → w.last_mtime ≡ held before
      → before ≢ some 0
      → p.st_mtime ≡ some t
      → ((v : ConfigWatcher) (n : HotReloadManager Long)
          → v.last_mtime ≡ t
          → manager (watch_loop stoull stol five_seconds v n ps)
            ≡ reload_each n (changes (some t) ps))
      → manager (watch_loop stoull stol five_seconds w m (p ∷ ps))
        ≡ reload_each m (changes before (p ∷ ps))
  unfolding held
  seen-watch_loop w m none p ps t h b e ih =
      ap manager
        (kept-watch_loop w (record w { last_mtime = t }) m p ps (ap (poll w) e ∙ poll_first w t h))
      ∙ ih (record w { last_mtime = t }) m refl
      ∙ ap (reload_each m) (sym (changes_first p ps t e))
  seen-watch_loop w m (some c) p ps t h b e ih =
      let polled = ap (poll w) e ∙ poll_later w t (λ q. b (ap some (sym h ∙ q))) in
      elim (Bool-cases (t == w.last_mtime)) [
        | inl x ↦
            ap manager (kept-watch_loop w w m p ps (polled ∙ rw x refl))
            ∙ ih w m (sym ((==_iff t w.last_mtime).0 x))
            ∙ ap (reload_each m)
                (sym (changes_later p ps c t e ∙ rw (sym (ap (λ k. t == k) h) ∙ x) refl))
        | inr x ↦
            reloaded-watch_loop w (record w { last_mtime = t }) m p ps (changes (some t) ps)
              (polled ∙ rw x refl) (λ n. ih (record w { last_mtime = t }) n refl)
            ∙ ap (reload_each m)
                (sym (changes_later p ps c t e ∙ rw (sym (ap (λ k. t == k) h) ∙ x) refl))
      ]

  loop_reloads :
      (w : ConfigWatcher) (m : HotReloadManager Long) (before : Option ℕ) (ps : List Poll)
      → w.last_mtime ≡ held before
      → before ≢ some 0
      → All IsDated ps
      → manager (watch_loop stoull stol five_seconds w m ps) ≡ reload_each m (changes before ps)
  unfolding watch_loop manager reload_each changes held
  loop_reloads w m before [] h b ds = refl
  loop_reloads w m before (p ∷ ps) h b (d, ds) = elim (Option-cases p.st_mtime) [
    | inl e ↦
        ap manager (kept-watch_loop w w m p ps (ap (poll w) e ∙ poll_nothing w))
        ∙ loop_reloads w m before ps h b ds
        ∙ ap (reload_each m) (sym (changes-none before p ps e))
    | inr (t, e) ↦
        seen-watch_loop w m before p ps t h b e
          (λ v n k. loop_reloads v n (some t) ps k (λ q. d (e ∙ q)) ds)
  ]

-- Where no poll sees a time of zero, a manager that is started reloads at once, and then at the polls
-- that see another time than the last that was seen, in order and until an exception; the first poll
-- that sees the file only notes its time.
pub start_watching-changes :
    {Long : Type 0} (stoull : Text → Option ℕ) (stol : Text → Option Long) (five_seconds : Long)
    (m : HotReloadManager Long) (file : Option Text) (now : ℕ) (ps : List Poll)
    → All IsDated ps
    → manager (start_watching stoull stol five_seconds m file now ps)
      ≡ elim (reload stoull stol five_seconds m file now) [
        | none ↦ none
        | some n ↦ reload_each stoull stol five_seconds n (changes none ps)
      ]
unfolding start_watching manager start init held
start_watching-changes stoull stol five_seconds m file now ps h =
    elim (Option-cases (reload stoull stol five_seconds m file now)) [
      | inl e ↦ rw (start_watching, e) refl
      | inr (n, e) ↦
          rw (start_watching, e)
            (loop_reloads stoull stol five_seconds (record { running = true; last_mtime = 0 }) n
              none ps refl (λ q. absurd (ground (arith, q))) h)
    ]
