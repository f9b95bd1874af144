-- ===== src/Base/Strip.antt =====
-- Pydantic's `str_strip_whitespace`: a text without the blanks at its two ends. The blanks are the
-- characters with the Unicode property White_Space.
use Prim.Native.String.{String, [], ◌∷◌, count}
use Prim.Native.String.count as count_lem
use Prim.Native.Char.{Char, code}
use ogaforeman.Base.{
  Option, none, some, List, map, ℕ, suc, ◌≤◌, ◌≡◌, refl, ap, ◌∙◌, Bool, false, ◌&&◌, ◌||◌, leb,
  ◌==◌, arith, if◌then◌else◌, Bool-cases, inl, inr,
}

abbrev is_between : ℕ → ℕ → ℕ → Bool
is_between low high n = leb low n && leb n high

unfoldable pub is_space : Char → Bool
is_space c =
    let n = code c in
    is_between 9 13 n
    || (n == 32
        || (n == 133
            || (n == 160
                || (n == 5760
                    || (is_between 8192 8202 n
                        || (is_between 8232 8233 n || (n == 8239 || (n == 8287 || n == 12288))))))))

unfoldable pub strip_start : String → String
strip_start [] = []
strip_start (c ∷ s) = let rest = strip_start s in if is_space c then rest else c ∷ s

-- A character and what is kept of the text after it.
unfoldable pub keep_end : Char → String → String
keep_end c [] = if is_space c then [] else c ∷ []
keep_end c (d ∷ s) = c ∷ (d ∷ s)

unfoldable pub strip_end : String → String
unfolding keep_end
strip_end [] = []
strip_end (c ∷ s) = keep_end c (strip_end s)

unfoldable pub strip : String → String
unfolding strip_start strip_end
strip s = strip_end (strip_start s)

abbrev pub strip_option : Option String → Option String
strip_option none = none
strip_option (some s) = some (strip s)

abbrev pub strip_all : List String → List String
strip_all texts = map strip texts

keep_end-again : (c : Char) (s : String) → strip_end s ≡ s → strip_end (keep_end c s) ≡ keep_end c s
unfolding keep_end strip_end
keep_end-again c [] h = elim (Bool-cases (is_space c)) [
  | inl e ↦ rw e refl
  | inr e ↦ rw (e, e) refl
]
keep_end-again c (d ∷ s) h = ap (keep_end c) h

strip_end-again : (s : String) → strip_end (strip_end s) ≡ strip_end s
unfolding strip_end
strip_end-again [] = refl
strip_end-again (c ∷ s) = keep_end-again c (strip_end s) (strip_end-again s)

-- A text that begins with no blank begins with none when its end is stripped.
keep_end-start :
    (c : Char) (s : String) → is_space c ≡ false → strip_start (keep_end c s) ≡ keep_end c s
unfolding keep_end strip_start
keep_end-start c [] h = rw (h, h) refl
keep_end-start c (d ∷ s) h = rw h refl

start-end-start : (s : String) → strip_start (strip_end (strip_start s)) ≡ strip_end (strip_start s)
unfolding strip_start strip_end
start-end-start [] = refl
start-end-start (c ∷ s) = elim (Bool-cases (is_space c)) [
  | inl e ↦ rw e (start-end-start s)
  | inr e ↦ rw e (keep_end-start c (strip_end s) e)
]

-- What was stripped stays as it is.
pub strip-strip : (s : String) → strip (strip s) ≡ strip s
unfolding strip
strip-strip s = ap strip_end (start-end-start s) ∙ strip_end-again (strip_start s)

pub strip_option-again : (o : Option String) → strip_option (strip_option o) ≡ strip_option o
strip_option-again none = refl
strip_option-again (some s) = ap some (strip-strip s)

count-keep_end : (c : Char) (s : String) → count (keep_end c s) ≤ suc (count s)
unfolding keep_end
count-keep_end c [] = elim (Bool-cases (is_space c)) [
  | inl e ↦ rw (e, count_lem.nil) (omega arith)
  | inr e ↦ rw (e, count_lem.cons c []) (omega arith)
]
count-keep_end c (d ∷ s) = rw (count_lem.cons c (d ∷ s)) (omega arith)

count-strip_end : (s : String) → count (strip_end s) ≤ count s
unfolding strip_end
count-strip_end [] = omega arith
count-strip_end (c ∷ s) =
    let tail = count-strip_end s in
    let all = count-keep_end c (strip_end s) in rw (count_lem.cons c s) (omega (arith, tail, all))

count-strip_start : (s : String) → count (strip_start s) ≤ count s
unfolding strip_start
count-strip_start [] = omega arith
count-strip_start (c ∷ s) = elim (Bool-cases (is_space c)) [
  | inl e ↦ let tail = count-strip_start s in rw (e, count_lem.cons c s) (omega (arith, tail))
  | inr e ↦ rw e (omega arith)
]

-- A text gets no longer.
pub count-strip : (s : String) → count (strip s) ≤ count s
unfolding strip
count-strip s = omega (arith, count-strip_end (strip_start s), count-strip_start s)
