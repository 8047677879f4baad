-- ===== src/Compressed/Tuning.antt =====
-- The level that the automatic tuning chooses.
use zyrnix.Prelude.{ℕ, ◌+◌, ◌<◌, ◌≤◌, ◌≡◌, inl, inr, refl, ◌⊎◌, ◌==◌, if◌then◌else◌, arith}
use zyrnix.Compressed.{
  CompressedFileSink, max_level, calculate_optimal_level, retune, update_compression_level,
}

-- A level that the compressor takes, and is used.
pub record IsTuned (s : CompressedFileSink) : Type 0 where
  pub least : 1 ≤ s.current_level
  pub most : s.current_level ≤ max_level s.options.type
  pub used : s.options.level ≡ s.current_level

optimal_within :
    (s : CompressedFileSink)
    → 1 ≤ s.current_level
    → s.current_level ≤ max_level s.options.type
    → (1 ≤ calculate_optimal_level s)
      × (calculate_optimal_level s ≤ max_level s.options.type)
      × (calculate_optimal_level s ≤ s.current_level + 1)
      × (s.current_level ≤ calculate_optimal_level s + 1)
unfolding calculate_optimal_level
optimal_within s h k = ground arith

-- The record with the chosen level, whichever way its options are written.
retuned_used :
    (s : CompressedFileSink) (n : ℕ)
    → s.options.level ≡ s.current_level
    → (let o = if n == s.current_level then s.options else record s.options { level = n } in
        (o.level ≡ n) × (o.type ≡ s.options.type))
retuned_used s n h = ground arith

retune-IsTuned :
    (s : CompressedFileSink)
    → IsTuned s
    → (let t = retune s in
        IsTuned t
        × (t.current_level ≤ s.current_level + 1)
        × (s.current_level ≤ t.current_level + 1))
unfolding retune
retune-IsTuned s v =
    let w = optimal_within s v.least v.most in
    let u = retuned_used s (calculate_optimal_level s) v.used in
    (record { least = w.0; most = rw u.1 w.1; used = u.0 }, w.2, w.3)

update_compression_level-retune :
    (s : CompressedFileSink)
    → ((s.compression_count < 3) × (update_compression_level s ≡ s))
      ⊎ ((3 ≤ s.compression_count) × (update_compression_level s ≡ retune s))
unfolding update_compression_level
update_compression_level-retune s = ground arith

-- The tuning keeps the level within the compressor's range and in use, and moves it by one at most;
-- before the third compression it leaves it alone.
pub update_compression_level-IsTuned :
    (s : CompressedFileSink)
    → IsTuned s
    → (let t = update_compression_level s in
        IsTuned t
        × (t.current_level ≤ s.current_level + 1)
        × (s.current_level ≤ t.current_level + 1)
        × (s.compression_count < 3 → t ≡ s))
update_compression_level-IsTuned s v = elim (update_compression_level-retune s) [
  | inl (k, e) ↦ rw e (v, omega arith, omega arith, λ _. refl)
  | inr (k, e) ↦ let r = retune-IsTuned s v in rw e (r.0, r.1, r.2, λ h. absurd (omega arith))
]
