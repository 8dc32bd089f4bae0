-- ===== src/RefScan/Token/Laws.antt =====
-- When a substitution of tokens (src/companion/refscan.py) changes a text.
use hactl_companion.Base.{
  ℕ, zero, suc, ◌+◌, ◌-◌, ◌≤◌, ◌<◌, ◌≡◌, ◌≢◌, ◌∙◌, refl, sym, ap, Bool, true, false, not, [], ◌∷◌,
  ◌++◌, arith, Text, eq_text, eq_text_iff, eq_text_refl, starts_with, starts_with_split, length,
  take, drop, length-append, take-length-append, Bool-cases, inl, inr, ◌⊎◌,
}
use hactl_companion.RefScan.Token.{token_at, search_from, subn_from, search, subn}

length-starts_with : (s p : Text) → starts_with s p ≡ true → length p ≤ length s
length-starts_with s p h =
    let e = ap length (starts_with_split s p h) in
    omega (arith, length-append p (drop (length p) s))

compare-cases : (m n : ℕ) → (m ≡ n) ⊎ ((m < n) ⊎ (n < m))
compare-cases zero zero = inl refl
compare-cases zero (suc n) = inr (inl (omega arith))
compare-cases (suc m) zero = inr (inr (omega arith))
compare-cases (suc m) (suc n) = elim (compare-cases m n) [
  | inl e ↦ inl (ap suc e)
  | inr (inl h) ↦ inr (inl (omega arith))
  | inr (inr h) ↦ inr (inr (omega arith))
]

module _ (is_word : ℕ → Bool) (c : ℕ) (target replacement : Text) where
  abbrev token : Text
  token = c ∷ target

  token_at-starts :
      (before : Bool) (s : Text)
      → token_at is_word before token s ≡ true
      → starts_with s token ≡ true
  unfolding token_at
  token_at-starts before s h = ground (arith, h)

  unfound :
      (before : Bool) (s : Text)
      → search_from is_word before token s ≡ false
      → subn_from is_word 0 before token replacement s ≡ (s, 0)
  unfolding search_from subn_from
  unfound before [] h = refl
  unfound before (d ∷ s) h = ground (arith, h, unfound (is_word d) s)

  -- A longer replacement lengthens what is left of the text, and a shorter one shortens it.
  grows :
      (skip : ℕ) (before : Bool) (s : Text)
      → length token ≤ length replacement
      → length s ≤ length (subn_from is_word skip before token replacement s).0 + skip
  unfolding subn_from
  grows skip before [] le = omega arith
  grows (suc skip) before (d ∷ s) le = omega (arith, grows skip (is_word d) s le)
  grows zero before (d ∷ s) le = elim (Bool-cases (token_at is_word before token (d ∷ s))) [
    | inl e ↦ rw e (
        omega (
          arith,
          grows (length token - 1) (is_word d) s le,
          length-append replacement
              (subn_from is_word (length token - 1) (is_word d) token replacement s).0,
        ))
    | inr e ↦ rw e (omega (arith, grows 0 (is_word d) s le))
  ]

  shrinks :
      (skip : ℕ) (before : Bool) (s : Text)
      → length replacement ≤ length token
      → skip ≤ length s
      → length (subn_from is_word skip before token replacement s).0 + skip ≤ length s
  unfolding subn_from
  shrinks skip before [] le fits = omega arith
  shrinks (suc skip) before (d ∷ s) le fits =
      omega (arith, shrinks skip (is_word d) s le (omega arith))
  shrinks zero before (d ∷ s) le fits = elim (Bool-cases (token_at is_word before token (d ∷ s))) [
    | inl e ↦
        let room = length-starts_with (d ∷ s) token (token_at-starts before (d ∷ s) e) in
        rw e (
          omega (
            arith,
            shrinks (length token - 1) (is_word d) s le (omega (arith, room)),
            length-append replacement
                (subn_from is_word (length token - 1) (is_word d) token replacement s).0,
          ))
    | inr e ↦ rw e (omega (arith, shrinks 0 (is_word d) s le (omega arith)))
  ]

  matched_differs :
      (before : Bool) (d : ℕ) (s : Text)
      → token ≢ replacement
      → token_at is_word before token (d ∷ s) ≡ true
      → replacement ++ (subn_from is_word (length token - 1) (is_word d) token replacement s).0
        ≢ d ∷ s
  matched_differs before d s distinct e same =
      let next = (subn_from is_word (length token - 1) (is_word d) token replacement s).0 in
      let rest = drop (length token) (d ∷ s) in
      let starts = token_at-starts before (d ∷ s) e in
      let split : token ++ rest ≡ d ∷ s = starts_with_split (d ∷ s) token starts in
      let room = length-starts_with (d ∷ s) token starts in
      let total : length replacement + length next ≡ suc (length s) =
        sym (length-append replacement next) ∙ ap length same in
      elim (compare-cases (length token) (length replacement)) [
        | inl eq ↦ distinct (
            sym (take-length-append token rest)
            ∙ (ap (take (length token)) (split ∙ sym same)
                ∙ (ap (λ n. take n (replacement ++ next)) eq
                    ∙ take-length-append replacement next)))
        | inr (inl lt) ↦ omega (arith, total, grows (length token - 1) (is_word d) s (omega arith))
        | inr (inr gt) ↦ omega (
          arith,
          total,
          shrinks (length token - 1) (is_word d) s (omega arith) (omega (arith, room)),
        )
      ]

  changed :
      (before : Bool) (s : Text)
      → token ≢ replacement
      → search_from is_word before token s ≡ true
      → (subn_from is_word 0 before token replacement s).0 ≢ s
  unfolding search_from subn_from
  changed before [] distinct h = λ same. cc h
  changed before (d ∷ s) distinct h = elim (Bool-cases (token_at is_word before token (d ∷ s))) [
    | inl e ↦ rw e (matched_differs before d s distinct e)
    | inr e ↦
        rw e (λ same. changed (is_word d) s distinct (ground (arith, h, e)) (ground (arith, same)))
  ]

  -- A substitution changes a text exactly where the search finds the token in it, if the replacement
  -- is another text than the token, which is not empty.
  pub subn-search :
      (s : Text)
      → token ≢ replacement
      → eq_text (subn is_word token replacement s).0 s ≡ not (search is_word token s)
  unfolding subn search
  subn-search s distinct = elim (Bool-cases (search_from is_word false token s)) [
    | inl e ↦ ground (
      arith,
      e,
      changed false s distinct e,
      eq_text_iff (subn_from is_word 0 false token replacement s).0 s,
    )
    | inr e ↦ rw (e, unfound false s e) (eq_text_refl s)
  ]
