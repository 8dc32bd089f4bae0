-- ===== src/Surgical/Span/ContentEnd.antt =====
-- Where `_content_end` of src/companion/surgical.py stops.
use hactl_companion.Base.{
  ℕ, zero, suc, ◌+◌, ◌-◌, ◌≤◌, ◌<◌, max, ◌≡◌, ◌≢◌, ◌⊎◌, inl, inr, refl, sym, ◌∙◌, subst, ◌&&◌, true,
  false, none, some, arith, Text, newline, rfind, slice, get_elem?, leb, ltb, ◌==◌, Bool-cases,
  Option-cases,
}
use hactl_companion.Surgical.Span.{is_filler, line_start_before, content_end_loop, content_end}

below_suc : (hi j : ℕ) → j < suc hi → (j ≡ hi) ⊎ (j < hi)
below_suc hi j h = omega arith

module _ (s : Text) (c lo : ℕ) where
  rfind-suc :
      (hi : ℕ)
      → ((lo ≤ hi) × (get_elem? s hi ≡ some c) × (rfind s c lo (suc hi) ≡ some hi))
        ⊎ ((lo ≤ hi → get_elem? s hi ≢ some c) × (rfind s c lo (suc hi) ≡ rfind s c lo hi))
  unfolding rfind
  rfind-suc hi = elim (Option-cases (get_elem? s hi)) [
    | inl e ↦ inr (λ _ h. ground (arith, e, h), rw (e, rfind))
    | inr (d, e) ↦ elim (Bool-cases (leb lo hi && d == c)) [
      | inl t ↦ inl (ground (arith, t), ground (arith, t, e), rw (e, t, rfind))
      | inr t ↦ inr (λ le h. ground (arith, t, e, h, le), rw (e, t, rfind))
    ]
  ]

  -- `rfind` finds an occurrence, and none stands after it.
  pub rfind-some :
      (hi i : ℕ)
      → rfind s c lo hi ≡ some i
      → (lo ≤ i)
        × (i < hi)
        × (get_elem? s i ≡ some c)
        × ((j : ℕ) → i < j → j < hi → get_elem? s j ≢ some c)
  rfind-some zero i h = absurd (unfold rfind in cc)
  rfind-some (suc hi) i h = elim (rfind-suc hi) [
    | inl (le, e, f) ↦
        let same : hi ≡ i = ground (arith, f, h) in
        subst
          (λ k.
            (lo ≤ k)
            × (k < suc hi)
            × (get_elem? s k ≡ some c)
            × ((j : ℕ) → k < j → j < suc hi → get_elem? s j ≢ some c))
          same (le, omega arith, e, λ j a b _. absurd (omega arith))
    | inr (e, f) ↦
        let (a, b, x, none_after) = rfind-some hi i (sym f ∙ h) in
        (
          a,
          omega arith,
          x,
          λ j p q. elim (below_suc hi j q) [
            | inl same ↦ subst (λ k. get_elem? s k ≢ some c) (sym same) (e (omega arith))
            | inr lt ↦ none_after j p lt
          ],
        )
  ]

  pub rfind-none :
      (hi : ℕ) → rfind s c lo hi ≡ none → (j : ℕ) → lo ≤ j → j < hi → get_elem? s j ≢ some c
  rfind-none zero h j le lt = absurd (omega arith)
  rfind-none (suc hi) h j le lt = elim (rfind-suc hi) [
    | inl (_, e, f) ↦ cc
    | inr (e, f) ↦ elim (below_suc hi j lt) [
      | inl same ↦ subst (λ k. get_elem? s k ≢ some c) (sym same) (e (omega arith))
      | inr less ↦ rfind-none hi (sym f ∙ h) j le less
    ]
  ]

-- A line of `s[start:]`: from `start` or from behind a line break, with no line break before its last
-- character.
pub record IsLine (s : Text) (start m e : ℕ) : Type 0 where
  pub nonempty : m < e
  pub begins : (m ≡ start) ⊎ ((k : ℕ) × (m ≡ suc k) × (get_elem? s k ≡ some newline))
  pub whole : (j : ℕ) → m ≤ j → suc j < e → get_elem? s j ≢ some newline

line_start_before-IsLine :
    (s : Text) (start e : ℕ)
    → start < e
    → (start ≤ line_start_before s start e) × IsLine s start (line_start_before s start e) e
unfolding line_start_before
line_start_before-IsLine s start e lt = elim (Option-cases (rfind s newline start (e - 1))) [
  | inl f ↦ rw f (
    omega arith,
    record {
      nonempty = omega arith;
      begins = inl (omega arith);
      whole = λ j a b. rfind-none s newline start (e - 1) f j (omega arith) (omega arith);
    },
  )
  | inr (i, f) ↦
      let (a, b, x, none_after) = rfind-some s newline start (e - 1) i f in
      let at : max start (i + 1) ≡ suc i = omega arith in
      rw (f, at)
        (
          omega arith,
          record {
            nonempty = omega arith;
            begins = inr (i, refl, x);
            whole = λ j p q. none_after j (omega arith) (omega arith);
          },
        )
]

-- `s[e:limit]` is made of filler lines.
pub data Skipped (s : Text) (start : ℕ) (limit : ℕ) : ℕ → Type 0 where
  stop : Skipped s start limit limit
  skip :
      {m e : ℕ}
      → Skipped s start limit e
      → IsLine s start m e
      → is_filler (slice m e s) ≡ true
      → Skipped s start limit m

-- The end of an entry's own lines.
pub record IsContentEnd (s : Text) (start limit e : ℕ) : Type 0 where
  pub from_start : start ≤ e
  pub to_limit : e ≤ limit
  pub skipped : Skipped s start limit e
  pub last_line : (e ≡ start) ⊎ ((m : ℕ) × IsLine s start m e × (is_filler (slice m e s) ≡ false))

content_end_loop-IsContentEnd :
    (s : Text) (start limit fuel e : ℕ)
    → e ≤ start + fuel
    → start ≤ e
    → e ≤ limit
    → Skipped s start limit e
    → IsContentEnd s start limit (content_end_loop s start fuel e)
unfolding content_end_loop
content_end_loop-IsContentEnd s start limit zero e enough from to sk = record {
  from_start = from;
  to_limit = to;
  skipped = sk;
  last_line = inl (omega arith);
}
content_end_loop-IsContentEnd s start limit (suc fuel) e enough from to sk =
    elim (Bool-cases (ltb start e)) [
      | inr at ↦ rw at (record {
        from_start = from;
        to_limit = to;
        skipped = sk;
        last_line = inl (ground arith);
      })
      | inl more ↦
          let lt : start < e = ground arith in
          let m = line_start_before s start e in
          let (a, line) = line_start_before-IsLine s start e lt in
          let b : m < e = line.nonempty in
          elim (Bool-cases (is_filler (slice m e s))) [
            | inl filler ↦
                rw (more, filler)
                  (content_end_loop-IsContentEnd s start limit fuel m (omega arith) a (omega arith)
                    (skip sk line filler))
            | inr own ↦
                rw (more, own)
                  (record {
                    from_start = from;
                    to_limit = to;
                    skipped = sk;
                    last_line = inr (m, line, own);
                  })
          ]
    ]

-- `_content_end` stays between the entry's start and the next one's. What it leaves out is made of
-- blank lines and full-line comments, and the last line that it keeps, if any, is neither.
pub content_end-IsContentEnd :
    (s : Text) (start limit : ℕ)
    → start ≤ limit
    → IsContentEnd s start limit (content_end s start limit)
unfolding content_end
content_end-IsContentEnd s start limit h =
    content_end_loop-IsContentEnd s start limit limit limit (omega arith) h (omega arith) stop
