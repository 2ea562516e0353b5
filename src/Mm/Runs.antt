-- ===== src/Mm/Runs.antt =====
-- The first-fit scan of `pages_alloc`.
use dragoon_kernel.Prelude.{
  ℕ, zero, suc, Bool, ◌≤◌, ◌≡◌, ◌<◌, ◌+◌, Option, if◌then◌else◌, arith, false, true, some, ◌==◌,
  none, ◌≢◌, dec_lt, ℕ_discrete, Bool-cases, inl, inr,
}
use dragoon_kernel.Mm.{scan_run, Bool, Option, false, true, some, none}

module _ (free : ℕ → Bool) (n : ℕ) where
  -- No run of `n` free pages starts at `q`: one of those pages is taken.
  abbrev pub Broken : ℕ → Type 0
  Broken q = (j : ℕ) × (q ≤ j) × (j < q + n) × (free j ≡ false)

  -- The loop's invariant at page `i`: the last `len` pages are free, and no run starts before them.
  record Scan (i start len : ℕ) : Type 0 where
    fits : len ≤ i
    short : len < n
    begins : 0 < len → start + len ≡ i
    free_run : (j : ℕ) → i ≤ j + len → j < i → free j ≡ true
    earlier : (q : ℕ) → q + len < i → Broken q

  -- A run of `n` free pages, and the first one.
  pub record IsRun (limit start : ℕ) : Type 0 where
    pub below : start + n ≤ limit
    pub all_free : (j : ℕ) → start ≤ j → j < start + n → free j ≡ true
    pub first : (q : ℕ) → q < start → Broken q

  Result : ℕ → Option ℕ → Type 0
  Result limit none = (q : ℕ) → q + n ≤ limit → Broken q
  Result limit (some start) = IsRun limit start

  begin : ℕ → ℕ → ℕ → ℕ
  begin i start len = if len == 0 then i else start

  longer :
      (i start len : ℕ)
      → Scan i start len
      → free i ≡ true
      → len + 1 ≢ n
      → Scan (i + 1) (begin i start len) (len + 1)
  unfolding begin
  longer i start len s f ne = record {
    fits = omega (arith, s.fits);
    short = omega (arith, s.short);
    begins = λ _. ground (arith, s.begins);
    free_run = λ j lo hi. elim (ℕ_discrete i j) [
      | yes here ↦ rw (← here) f
      | no past ↦ s.free_run j (omega arith) (omega arith)
    ];
    earlier = λ q lt. s.earlier q (omega arith);
  }

  broken : (i start len : ℕ) → Scan i start len → free i ≡ false → Scan (i + 1) start 0
  broken i start len s f = record {
    fits = omega arith;
    short = omega (arith, s.short);
    begins = λ h. absurd (omega arith);
    free_run = λ j lo hi. absurd (omega arith);
    earlier = λ q lt. elim (dec_lt (q + len) i) [
      | yes before ↦ s.earlier q before
      | no within ↦ (i, omega arith, omega (arith, s.short), f)
    ];
  }

  found :
      (i start len limit : ℕ)
      → Scan i start len
      → free i ≡ true
      → len + 1 ≡ n
      → i < limit
      → IsRun limit (begin i start len)
  unfolding begin
  found i start len limit s f e lt = record {
    below = omega (arith, here);
    all_free = λ j lo hi. elim (ℕ_discrete i j) [
      | yes here ↦ rw (← here) f
      | no past ↦ s.free_run j (omega (arith, here)) (omega (arith, here))
    ];
    first = λ q lt. s.earlier q (omega (arith, here));
  }
    where
      here : begin i start len + len ≡ i
      here = ground (arith, s.begins)

  scan_run-Result :
      (rounds i start len limit : ℕ)
      → i + rounds ≡ limit
      → Scan i start len
      → Result limit (scan_run free n rounds i start len)
  unfolding scan_run Result begin
  scan_run-Result zero i start len limit e s = λ q h. s.earlier q (omega (arith, s.short))
  scan_run-Result (suc rounds) i start len limit e s = elim (Bool-cases (free i)) [
    | inl f ↦ elim (Bool-cases (len + 1 == n)) [
      | inl last ↦ rw (f, scan_run, last) (found i start len limit s f (ground arith) (omega arith))
      | inr more ↦
          rw (f, scan_run, more)
            (scan_run-Result rounds (i + 1) (begin i start len) (len + 1) limit (omega arith)
              (longer i start len s f (ground arith)))
    ]
    | inr f ↦
        rw (f, scan_run)
          (scan_run-Result rounds (i + 1) start 0 limit (omega arith) (broken i start len s f))
  ]

  start_Scan : 0 < n → Scan 0 0 0
  start_Scan h = record {
    fits = omega arith;
    short = h;
    begins = λ q. absurd (omega arith);
    free_run = λ j lo hi. absurd (omega arith);
    earlier = λ q lt. absurd (omega arith);
  }

  -- The scan finds the first run of `n` free pages below the limit.
  pub scan_run-some :
      (limit start : ℕ) → 0 < n → scan_run free n limit 0 0 0 ≡ some start → IsRun limit start
  unfolding Result
  scan_run-some limit start h e =
      rw e at (scan_run-Result limit 0 0 0 limit (omega arith) (start_Scan h))

  -- It gives up only if there is none.
  pub scan_run-none :
      (limit : ℕ) → 0 < n → scan_run free n limit 0 0 0 ≡ none → (q : ℕ) → q + n ≤ limit → Broken q
  unfolding Result
  scan_run-none limit h e = rw e at (scan_run-Result limit 0 0 0 limit (omega arith) (start_Scan h))
