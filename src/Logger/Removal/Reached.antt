-- ===== src/Logger/Removal/Reached.antt =====
-- The states that `log`, `add_sink`, `remove_sink`, `clear_sinks` and `cleanup_removed_sinks` of
-- src/logger.cpp reach, with any number of threads that log.
use zyrnix.Prelude.{
  ℕ, zero, suc, ◌+◌, ◌≤◌, ◌≡◌, refl, sym, ap, ◌∙◌, true, some, List, [], ◌∷◌, ltb, arith, get_elem?,
  All, All-append, Bool-cases, ltb→lt, ==_iff, inl, inr, ◌⊎◌,
}
use zyrnix.Logger.{SinkEntry, cleanup_removed_sinks}
use zyrnix.Logger.Logging.{receive}
use zyrnix.Logger.Removal.{
  wait_for_sink_drain, max_wait_ms, Stage, between, guarding, logged, Visitor, Sinks, acquire,
  release, move, erase_marked, Step, enters, acquires, delivers, releases, passes, leaves, adds,
  marks, marks_at, erases, cleans, clears, Reach, here, next,
}
use zyrnix.Logger.Removal.Guarded.{
  guards, holders, holders_at, IsGuarded, guards-between, guards-other, changed-IsGuarded, at_rest,
  quiet-IsGuarded, receive-same, held_free,
}
use zyrnix.Logger.Removal.Unused.{some-inj, All-mark_first, All-mark_at, All-filter}

guards_self :
    (v : Visitor) (g : Stage)
    → v.stage ≡ g
    → guards v.index v ≡ elim g [ between ↦ 0 | guarding ↦ 1 | logged ↦ 1 ]
unfolding guards
guards_self v between h = rw (guards, h) refl
guards_self v guarding h = rw (guards, h, (==_iff v.index v.index).1 refl) refl
guards_self v logged h = rw (guards, h, (==_iff v.index v.index).1 refl) refl

-- Visitors that stand between sinks change nothing when they come, go or pass.
idle-IsGuarded :
    (s : Sinks) (vs : List Visitor)
    → IsGuarded s
    → ((i : ℕ) → holders i vs ≡ holders i s.visitors)
    → IsGuarded (record s { visitors = vs })
idle-IsGuarded s vs h k = record {
  counted = λ i e p. h.counted i e p ∙ sym (k i);
  unmarked = λ i p. h.unmarked i (omega (arith, p, k i));
}

Step-IsGuarded : {s t : Sinks} → Step s t → IsGuarded s → IsGuarded t
unfolding holders acquire release move erase_marked cleanup_removed_sinks
Step-IsGuarded (enters s message) h =
    let v : Visitor = record { index = 0; stage = between; message = message } in
    idle-IsGuarded s (v ∷ s.visitors) h (λ i. omega (arith, guards-between i v refl))
Step-IsGuarded (acquires s before v after e k b at m) h =
    let w : Visitor = record v { stage = guarding } in
    changed-IsGuarded s before v w after e (acquire e) h k at refl
      (omega (arith, guards_self v between b, guards_self w guarding refl))
      (λ j x. guards-other j w x) (λ p. m)
Step-IsGuarded (delivers s before v after e k b at) h =
    let w : Visitor = record v { stage = logged } in
    let (r, q) = receive-same e v.message in
    changed-IsGuarded s before v w after e (receive e v.message) h k at q
      (omega (arith, r, guards_self v guarding b, guards_self w logged refl))
      (λ j x. guards-other j w x)
      (λ p. held_free s before v after e h k at (guards_self v guarding b))
Step-IsGuarded (releases s before v after e k b at) h =
    let w : Visitor = record v { index = suc v.index; stage = between } in
    changed-IsGuarded s before v w after e (release e) h k at refl
      (omega (
        arith,
        guards_self v logged b,
        guards-between v.index w refl,
        h.counted v.index e at,
        ap (holders v.index) k,
        holders_at v.index before v after,
      ))
      (λ j x. guards-between j w refl)
      (λ p. absurd (omega (arith, p, guards-between v.index w refl)))
Step-IsGuarded (passes s before v after k b) h =
    let w : Visitor = record v { index = suc v.index } in
    idle-IsGuarded s _ h (λ i. omega (
      arith,
      guards-between i v b,
      guards-between i w b,
      holders_at i before w after,
      ap (holders i) k,
      holders_at i before v after,
    ))
Step-IsGuarded (leaves s before v after k b l) h =
    idle-IsGuarded s _ h
      (λ i. omega (arith, guards-between i v b, ap (holders i) k, holders_at i before v after))
Step-IsGuarded (adds s sink name k) h =
    quiet-IsGuarded s _ k (All-append _ s.sink_entries _ (at_rest s h k) (refl, tt))
Step-IsGuarded (marks s name k) h = quiet-IsGuarded s _ k (All-mark_first name _ (at_rest s h k))
Step-IsGuarded (marks_at s index k) h = quiet-IsGuarded s _ k (All-mark_at index _ (at_rest s h k))
Step-IsGuarded (erases s name k) h = quiet-IsGuarded s _ k (All-filter _ _ (at_rest s h k))
Step-IsGuarded (cleans s k) h = quiet-IsGuarded s _ k (All-filter _ _ (at_rest s h k))
Step-IsGuarded (clears s k) h = quiet-IsGuarded s [] k tt

Reach-IsGuarded : {s t : Sinks} → Reach s t → IsGuarded s → IsGuarded t
Reach-IsGuarded here h = h
Reach-IsGuarded (next r p) h = Step-IsGuarded p (Reach-IsGuarded r h)

wait_for_sink_drain-free :
    (left : ℕ) (observed : ℕ → ℕ) (waited_ms : ℕ)
    → observed waited_ms ≡ 0
    → wait_for_sink_drain left observed waited_ms ≡ waited_ms
unfolding wait_for_sink_drain
wait_for_sink_drain-free zero observed waited_ms h = refl
wait_for_sink_drain-free (suc left) observed waited_ms h = ground (arith, h)

-- The wait for a sink's guards ends, within its time, and only with no guard left or at that time.
wait_for_sink_drain_lem :
    (left : ℕ) (observed : ℕ → ℕ) (waited_ms : ℕ)
    → (wait_for_sink_drain left observed waited_ms ≤ left + waited_ms)
      × ((observed (wait_for_sink_drain left observed waited_ms) ≡ 0)
          ⊎ (wait_for_sink_drain left observed waited_ms ≡ left + waited_ms))
unfolding wait_for_sink_drain
wait_for_sink_drain_lem zero observed waited_ms = (omega arith, inr (omega arith))
wait_for_sink_drain_lem (suc left) observed waited_ms =
    elim (Bool-cases (ltb 0 (observed waited_ms))) [
      | inl e ↦
          let (b, c) = wait_for_sink_drain_lem left observed (suc waited_ms) in
          rw (wait_for_sink_drain, e)
            (omega (arith, b), elim c [ inl z ↦ inl z | inr z ↦ inr (omega (arith, z)) ])
      | inr e ↦ rw (wait_for_sink_drain, e) (omega arith, inl (ground (arith, e)))
    ]

marked_idle :
    (s : Sinks) (i : ℕ) (e : SinkEntry)
    → IsGuarded s
    → get_elem? s.sink_entries i ≡ some e
    → e.marked_for_removal ≡ true
    → holders i s.visitors ≡ 0
marked_idle s i e h at m = elim (Bool-cases (ltb 0 (holders i s.visitors))) [
  | inl b ↦
      let (c, q, f) = h.unmarked i (ltb→lt 0 _ b) in
      absurd (
        ground (
          arith,
          sym m ∙ ap (λ (d : SinkEntry). d.marked_for_removal) (some-inj e c (sym at ∙ q)) ∙ f,
        ))
  | inr b ↦ ground (arith, b)
]

-- From sinks that nobody uses, whatever the threads do that log, add, remove and clear: a sink that
-- is marked for its removal has no guard and no thread that is about to write to it or just did, so
-- that the wait for it ends at once.
pub Reach-drained :
    (entries : List SinkEntry) {t : Sinks} (i : ℕ) (e : SinkEntry) (observed : ℕ → ℕ)
    → All (λ c. c.ref_count ≡ 0) entries
    → Reach (record { sink_entries = entries; visitors = [] }) t
    → get_elem? t.sink_entries i ≡ some e
    → e.marked_for_removal ≡ true
    → observed 0 ≡ e.ref_count
    → (e.ref_count ≡ 0)
      × (holders i t.visitors ≡ 0)
      × (wait_for_sink_drain max_wait_ms observed 0 ≡ 0)
Reach-drained entries {t} i e observed z r at m o =
    let h : IsGuarded t =
      Reach-IsGuarded r
        (quiet-IsGuarded (record { sink_entries = entries; visitors = [] }) entries refl z) in
    let idle : holders i t.visitors ≡ 0 = marked_idle t i e h at m in
    let count : e.ref_count ≡ 0 = h.counted i e at ∙ idle in
    (count, idle, wait_for_sink_drain-free max_wait_ms observed 0 (o ∙ count))
