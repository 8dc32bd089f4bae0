-- ===== src/Surgical/Splice/Starts.antt =====
-- Where `_entry_line_starts` of src/companion/surgical.py puts the entries of a file, and the span that
-- one of them takes.
use mathlib.Core.Option.{some-injective}
use hactl_companion.Base.{
  ℕ, suc, ◌≡◌, ◌⊎◌, inl, inr, sym, subst, refl, Bool, true, false, some, List, [], ◌∷◌, ◌++◌, arith,
  Text, newline, rfind, get_elem?, any, ap, Bool-cases, Option-cases,
}
use hactl_companion.Yaml.{Seg, Node, scalar, sequence, mapping}
use hactl_companion.Surgical.Span.ContentEnd.{rfind-some}
use hactl_companion.Surgical.Splice.{
  eq_seg, dash_before, line_of, entry_start, put_start, collect_starts, entry_line_starts, span_of,
}

-- The offset is the first of a line.
abbrev pub IsLineStart : Text → ℕ → Type 0
IsLineStart s a = (a ≡ 0) ⊎ ((k : ℕ) × (a ≡ suc k) × (get_elem? s k ≡ some newline))

abbrev pub AllLineStarts : Text → List (Seg × ℕ) → Type 0
AllLineStarts s [] = Unit
AllLineStarts s ((w, a) ∷ starts) = IsLineStart s a × AllLineStarts s starts

line_of-IsLineStart : (s : Text) (content a : ℕ) → line_of s content ≡ some a → IsLineStart s a
unfolding line_of
line_of-IsLineStart s content a h = elim (Option-cases (rfind s newline 0 content)) [
  | inl e ↦ inl (ground (arith, e, h))
  | inr (i, e) ↦ inr (i, ground (arith, e, h), (rfind-some s newline 0 content i e).2)
]

entry_start-IsLineStart :
    (s : Text) (in_sequence : Bool) (content a : ℕ)
    → entry_start s in_sequence content ≡ some a
    → IsLineStart s a
unfolding entry_start
entry_start-IsLineStart s false content a h = line_of-IsLineStart s content a h
entry_start-IsLineStart s true content a h = elim (Option-cases (dash_before s content)) [
  | inl e ↦ absurd (ground (arith, e, h))
  | inr (at, e) ↦ line_of-IsLineStart s at a (ground (arith, e, h))
]

put_start-AllLineStarts :
    (s : Text) (w : Seg) (a : ℕ) (starts : List (Seg × ℕ))
    → IsLineStart s a
    → AllLineStarts s starts
    → AllLineStarts s (put_start w a starts)
unfolding put_start
put_start-AllLineStarts s w a [] h hs = (h, tt)
put_start-AllLineStarts s w a ((v, b) ∷ starts) h hs = elim (Bool-cases (eq_seg v w)) [
  | inl e ↦ rw e (h, hs.1)
  | inr e ↦ rw e (hs.0, put_start-AllLineStarts s w a starts h hs.1)
]

collect_starts-AllLineStarts :
    (s : Text) (in_sequence : Bool) (anchors starts found : List (Seg × ℕ))
    → AllLineStarts s starts
    → collect_starts s in_sequence anchors starts ≡ some found
    → AllLineStarts s found
unfolding collect_starts
collect_starts-AllLineStarts s q [] starts found hs h =
    subst (AllLineStarts s) (some-injective _ _ h) hs
collect_starts-AllLineStarts s q ((w, content) ∷ anchors) starts found hs h =
    elim (Option-cases (entry_start s q content)) [
      | inl e ↦ absurd (ground (arith, e, h))
      | inr (a, e) ↦
          collect_starts-AllLineStarts s q anchors (put_start w a starts) found
            (put_start-AllLineStarts s w a starts (entry_start-IsLineStart s q content a e) hs)
            (ground (arith, e, h))
    ]

pub entry_line_starts-AllLineStarts :
    (s : Text) (root : Node) (found : List (Seg × ℕ))
    → entry_line_starts s root ≡ some found
    → AllLineStarts s found
unfolding entry_line_starts
entry_line_starts-AllLineStarts s (scalar n) found h = cc
entry_line_starts-AllLineStarts s (sequence m flow ns) found h =
    collect_starts-AllLineStarts s true _ [] found tt h
entry_line_starts-AllLineStarts s (mapping m flow ps) found h =
    collect_starts-AllLineStarts s false _ [] found tt h

-- Where the next entry begins, or the end of the text.
abbrev pub next_start : List (Seg × ℕ) → ℕ → ℕ
next_start [] size = size
next_start ((u, b) ∷ starts) size = b

-- The entry is the first with its segment among the starts, and it reaches to the next one.
pub record IsSpan (w : Seg) (starts : List (Seg × ℕ)) (size start limit : ℕ) : Type 0 where
  pub before : List (Seg × ℕ)
  pub own : Seg
  pub after : List (Seg × ℕ)
  pub split_up : starts ≡ before ++ (own, start) ∷ after
  pub addressed : eq_seg own w ≡ true
  pub earlier : any (λ (e : Seg × ℕ). eq_seg e.0 w) before ≡ false
  pub up_to : limit ≡ next_start after size

IsSpan-later :
    (w v : Seg) (c : ℕ) (starts : List (Seg × ℕ)) (size a b : ℕ)
    → eq_seg v w ≡ false
    → IsSpan w starts size a b
    → IsSpan w ((v, c) ∷ starts) size a b
IsSpan-later w v c starts size a b other span = record {
  before = (v, c) ∷ span.before;
  own = span.own;
  after = span.after;
  split_up = ap (λ l. (v, c) ∷ l) span.split_up;
  addressed = span.addressed;
  earlier = ground (arith, other, span.earlier);
  up_to = span.up_to;
}

pub span_of-IsSpan :
    (w : Seg) (starts : List (Seg × ℕ)) (size a b : ℕ)
    → span_of w starts size ≡ some (a, b)
    → IsSpan w starts size a b
unfolding span_of
span_of-IsSpan w [] size a b h = absurd (cc h)
span_of-IsSpan w ((v, c) ∷ []) size a b h = elim (Bool-cases (eq_seg v w)) [
  | inl e ↦
      let at : c ≡ a = ground (arith, e, h) in
      let to : size ≡ b = ground (arith, e, h) in
      record {
        before = [];
        own = v;
        after = [];
        split_up = rw at refl;
        addressed = e;
        earlier = refl;
        up_to = sym to;
      }
  | inr e ↦ absurd (ground (arith, e, h))
]
span_of-IsSpan w ((v, c) ∷ (u, d) ∷ starts) size a b h = elim (Bool-cases (eq_seg v w)) [
  | inl e ↦
      let at : c ≡ a = ground (arith, e, h) in
      let to : d ≡ b = ground (arith, e, h) in
      record {
        before = [];
        own = v;
        after = (u, d) ∷ starts;
        split_up = rw at refl;
        addressed = e;
        earlier = refl;
        up_to = sym to;
      }
  | inr e ↦
      IsSpan-later w v c ((u, d) ∷ starts) size a b e
        (span_of-IsSpan w ((u, d) ∷ starts) size a b (ground (arith, e, h)))
]

-- The start of an entry is the first offset of a line.
pub AllLineStarts-own :
    (s : Text) (before after : List (Seg × ℕ)) (v : Seg) (a : ℕ)
    → AllLineStarts s (before ++ (v, a) ∷ after)
    → IsLineStart s a
AllLineStarts-own s [] after v a hs = hs.0
AllLineStarts-own s (e ∷ before) after v a hs = AllLineStarts-own s before after v a hs.1
