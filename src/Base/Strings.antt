-- ===== src/Base/Strings.antt =====
-- Python's `str` as a list of code points, with the methods of `str` that the sources call.
use Prim.Native.Char.{code}
use Prim.Native.String.{String}
use Prim.Native.Nat.{ℕ, zero, suc, ◌+◌, ◌-◌, ◌≤◌, ◌<◌, ◌/◌, ◌%◌}
use mathlib.Core.Path.{◌≡◌, refl}
use mathlib.Core.Logic.{◌↔◌}
use mathlib.Core.Bool.{Bool, true, false, ◌&&◌, ◌||◌}
use mathlib.Core.Option.{Option, none, some}
use mathlib.Core.List.{List, [], ◌∷◌, ◌++◌, map}
use native.Mathlib.Omega.{arith}
use hactl_companion.Base.Tests.{leb, ◌==◌, if◌then◌else◌}
use hactl_companion.Base.Lists.{length, get_elem?, take, drop, any, all}

abbrev pub Text : Type 0
Text = List ℕ

-- A literal of the source as code points.
abbrev pub codes : String → Text
codes String.[] = []
codes (String.◌∷◌ c s) = code c ∷ codes s

abbrev pub newline : ℕ
newline = 10

-- `s == t` and `s in ts`.
unfoldable pub eq_text : Text → Text → Bool
eq_text [] [] = true
eq_text [] (b ∷ t) = false
eq_text (a ∷ s) [] = false
eq_text (a ∷ s) (b ∷ t) = (a == b) && eq_text s t

pub eq_text_iff : (s t : Text) → (eq_text s t ≡ true) ↔ (s ≡ t)
unfolding eq_text
eq_text_iff [] [] = (λ _. refl, λ _. refl)
eq_text_iff [] (b ∷ t) = (λ h. cc, λ h. cc)
eq_text_iff (a ∷ s) [] = (λ h. cc, λ h. cc)
eq_text_iff (a ∷ s) (b ∷ t) = ground (arith, eq_text_iff s t)

pub eq_text_refl : (s : Text) → eq_text s s ≡ true
eq_text_refl s = (eq_text_iff s s).1 refl

unfoldable pub mem_text : Text → List Text → Bool
mem_text s ts = any (eq_text s) ts

-- `s.startswith(p)` and `s[len(p):]`.
unfoldable pub starts_with : Text → Text → Bool
starts_with s [] = true
starts_with [] (b ∷ p) = false
starts_with (a ∷ s) (b ∷ p) = (a == b) && starts_with s p

pub starts_with-append : (p s : Text) → starts_with (p ++ s) p ≡ true
unfolding starts_with
starts_with-append [] s = refl
starts_with-append (a ∷ p) s = ground (arith, starts_with-append p s)

pub starts_with_split : (s p : Text) → starts_with s p ≡ true → p ++ drop (length p) s ≡ s
unfolding starts_with
starts_with_split s [] h = refl
starts_with_split [] (b ∷ p) h = cc
starts_with_split (a ∷ s) (b ∷ p) h = ground (arith, starts_with_split s p)

-- `s[a:b]` with `0 <= a`.
abbrev pub slice : ℕ → ℕ → Text → Text
slice a b s = take (b - a) (drop a s)

-- The white space of `str.strip`.
unfoldable pub is_space : ℕ → Bool
is_space c =
    (leb 9 c && leb c 13)
    || (leb 28 c && leb c 32)
    || c == 0x85
    || c == 0xa0
    || c == 0x1680
    || (leb 0x2000 c && leb c 0x200a)
    || c == 0x2028
    || c == 0x2029
    || c == 0x202f
    || c == 0x205f
    || c == 0x3000

-- `not s.strip()`.
unfoldable pub is_blank : Text → Bool
is_blank s = all is_space s

unfoldable pub lstrip : Text → Text
lstrip [] = []
lstrip (c ∷ s) = let rest = lstrip s in if is_space c then rest else c ∷ s

unfoldable pub rstrip : Text → Text
rstrip [] = []
rstrip (c ∷ s) = let rest = rstrip s in if is_space c && is_blank (c ∷ s) then [] else c ∷ rest

unfoldable pub strip : Text → Text
unfolding lstrip rstrip is_blank is_space
strip s = rstrip (lstrip s)

-- `str.lower` on ASCII letters.
unfoldable pub lower : Text → Text
lower s = map (λ c. if leb 65 c && leb c 90 then c + 32 else c) s

-- `needle in s`.
unfoldable pub contains_text : Text → Text → Bool
contains_text needle [] = starts_with [] needle
contains_text needle (c ∷ s) = starts_with (c ∷ s) needle || contains_text needle s

-- `s.rfind(c, lo, hi)` for one character; `none` is -1.
unfoldable pub rfind : Text → ℕ → ℕ → ℕ → Option ℕ
rfind s c lo zero = none
rfind s c lo (suc h) =
    let rest = rfind s c lo h in
    elim (get_elem? s h) [ none ↦ rest | some d ↦ if leb lo h && (d == c) then some h else rest ]

-- `s.rfind(...) + 1`.
abbrev pub after : Option ℕ → ℕ
after none = 0
after (some i) = i + 1

-- `s.find(c, lo, hi)` for one character.
find_loop : Text → ℕ → ℕ → ℕ → Option ℕ
find_loop s c lo zero = none
find_loop s c lo (suc k) =
    let rest = find_loop s c (lo + 1) k in
    elim (get_elem? s lo) [ none ↦ none | some d ↦ if d == c then some lo else rest ]

pub find : Text → ℕ → ℕ → ℕ → Option ℕ
unfolding find_loop
find s c lo hi = find_loop s c lo (hi - lo)

find_loop_bounds : (s : Text) (c lo k i : ℕ) → find_loop s c lo k ≡ some i → (lo ≤ i) × (i < lo + k)
unfolding find_loop
find_loop_bounds s c lo zero i h = cc
find_loop_bounds s c lo (suc k) i h = ground (arith, find_loop_bounds s c (lo + 1) k i)

-- What `find` finds lies in the range searched.
pub find_bounds : (s : Text) (c lo hi i : ℕ) → find s c lo hi ≡ some i → (lo ≤ i) × (i < hi)
unfolding find
find_bounds s c lo hi i h = let (a, b) = find_loop_bounds s c lo (hi - lo) i h in (a, omega arith)

-- One more character before the pieces of `split`.
unfoldable pub split_step : Bool → ℕ → List Text → List Text
split_step true d ps = [] ∷ ps
split_step false d [] = (d ∷ []) ∷ []
split_step false d (p ∷ ps) = (d ∷ p) ∷ ps

-- `s.split(c)` for one character.
unfoldable pub split : ℕ → Text → List Text
split c [] = [] ∷ []
split c (d ∷ s) = split_step (d == c) d (split c s)

-- `sep.join(parts)`.
unfoldable pub join : Text → List Text → Text
join sep [] = []
join sep (p ∷ []) = p
join sep (p ∷ q ∷ ps) = p ++ sep ++ join sep (q ∷ ps)

unfoldable pub decimals : ℕ → ℕ → Text
decimals zero n = []
decimals (suc fuel) n =
    let more = decimals fuel (n / 10) in
    if leb n 9 then (48 + n) ∷ [] else more ++ (48 + n % 10) ∷ []

-- `str(n)`: `n + 1` rounds are enough.
unfoldable pub show_nat : ℕ → Text
unfolding decimals
show_nat n = decimals (suc n) n
