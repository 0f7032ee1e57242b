-- ===== src/Prelude/Text.antt =====
-- Text as a list of code points, for code that walks it: Python's `strip`, `startswith`, `endswith`,
-- `split` and `rpartition`.
use Prim.Native.Char.{code}
use Prim.Native.Nat.{ℕ}
use Prim.Native.String.{String}
use mathlib.Core.Path.{◌≡◌, refl, ap}
use mathlib.Core.Logic.{◌↔◌, inl, inr}
use mathlib.Core.Bool.{Bool, true, false, ◌&&◌, ◌||◌}
use mathlib.Core.Option.{Option, none, some}
use mathlib.Core.List.{List, [], ◌∷◌, ◌++◌, reverse}
use native.Mathlib.Omega.{arith}
use gigaevo_platform.Prelude.Tests.{leb, if◌then◌else◌, Bool-cases}
use gigaevo_platform.Prelude.Eq.{Eq, ◌==◌, nat_eq, beq_refl}

abbrev pub Text : Type 0
Text = List ℕ

abbrev pub codes : String → Text
codes String.[] = []
codes (String.◌∷◌ c s) = code c ∷ codes s

abbrev pub text_beq : Text → Text → Bool
text_beq [] [] = true
text_beq (a ∷ s) (b ∷ t) = a == b && text_beq s t
text_beq _ _ = false

pub text_beq_iff : (s t : Text) → (text_beq s t ≡ true) ↔ (s ≡ t)
text_beq_iff [] [] = (λ _. refl, λ _. refl)
text_beq_iff [] (b ∷ t) = (λ h. cc, λ h. cc)
text_beq_iff (a ∷ s) [] = (λ h. cc, λ h. cc)
text_beq_iff (a ∷ s) (b ∷ t) = ground (arith, text_beq_iff s t)

instance abbrev pub text_eq : Eq Text
text_eq = record { test = text_beq; test_iff = text_beq_iff }

-- `str.isspace` of one character.
abbrev pub is_space : ℕ → Bool
is_space c =
    leb 9 c && leb c 13
    || leb 28 c && leb c 32
    || c == 133
    || c == 160
    || c == 5760
    || leb 8192 c && leb c 8202
    || c == 8232
    || c == 8233
    || c == 8239
    || c == 8287
    || c == 12288

unfoldable pub lstrip : Text → Text
lstrip [] = []
lstrip (c ∷ s) = let rest = lstrip s in if is_space c then rest else c ∷ s

-- `s.strip()`
unfoldable pub strip : Text → Text
unfolding lstrip
strip s = reverse (lstrip (reverse (lstrip s)))

-- `s.startswith(p)`
abbrev pub starts_with : Text → Text → Bool
starts_with s [] = true
starts_with [] (a ∷ p) = false
starts_with (c ∷ s) (a ∷ p) = c == a && starts_with s p

-- `s.endswith(t)`
abbrev pub ends_with : Text → Text → Bool
ends_with [] t = text_beq [] t
ends_with (c ∷ s) t = text_beq (c ∷ s) t || ends_with s t

ends_with_self : (t : Text) → ends_with t t ≡ true
ends_with_self [] = refl
ends_with_self (c ∷ t) = rw (beq_refl (c ∷ t))

or_true : (b : Bool) → (b || true) ≡ true
or_true true = refl
or_true false = refl

pub ends_with-append : (p t : Text) → ends_with (p ++ t) t ≡ true
ends_with-append [] t = ends_with_self t
ends_with-append (c ∷ p) t = rw (ends_with-append p t) (or_true _)

pub ends_with-prefix : (s t : Text) → ends_with s t ≡ true → (p : Text) × (s ≡ p ++ t)
ends_with-prefix [] t h = ([], (text_beq_iff [] t).0 h)
ends_with-prefix (c ∷ s) t h = elim (Bool-cases (text_beq (c ∷ s) t)) [
  | inl same ↦ ([], (text_beq_iff (c ∷ s) t).0 same)
  | inr other ↦ let (p, e) = ends_with-prefix s t (rw other at h) in (c ∷ p, ap (λ r. c ∷ r) e)
]

-- `all(p(c) for c in s)`
abbrev pub all_chars : (ℕ → Bool) → Text → Bool
all_chars p [] = true
all_chars p (c ∷ s) = p c && all_chars p s

-- `s.rpartition(sep)` as the parts before and after the last separator, if there is one.
abbrev pub rpartition : ℕ → Text → Option (Text × Text)
rpartition sep [] = none
rpartition sep (c ∷ s) = elim (rpartition sep s) [
  | some (before, after) ↦ some (c ∷ before, after)
  | none ↦ if c == sep then some ([], s) else none
]

-- One more character of a word, or the end of it.
abbrev pub split_step : Bool → ℕ → Text → List Text → Text × List Text
split_step true c [] words = ([], words)
split_step true c (d ∷ word) words = ([], (d ∷ word) ∷ words)
split_step false c word words = (c ∷ word, words)

-- The first, unfinished word of a text and the words behind it.
abbrev pub split_words : (ℕ → Bool) → Text → Text × List Text
split_words space [] = ([], [])
split_words space (c ∷ s) =
    let (word, words) = split_words space s in split_step (space c) c word words

-- `s.split()`
unfoldable pub split : (ℕ → Bool) → Text → List Text
split space s =
    let (word, words) = split_words space s in elim word [ [] ↦ words | c ∷ w ↦ (c ∷ w) ∷ words ]

split_runs : split is_space (codes " GET  a:b  ") ≡ codes "GET" ∷ codes "a:b" ∷ []
unfolding split
split_runs = refl

rpartition_runs : rpartition b':' (codes "a:b:80") ≡ some (codes "a:b", codes "80")
rpartition_runs = refl

strip_runs : strip (codes "  a b ") ≡ codes "a b"
unfolding strip
strip_runs = refl
