-- ===== src/Text.antt =====
-- Python's str as code points: equality, literals, slices and the decimal digits of f-strings.
use Prim.Native.Char.{code}
use Prim.Native.String.{String}
use agentpause.Prelude.{
  ℕ, zero, suc, ◌+◌, ◌/◌, ◌%◌, Bool, true, false, ◌&&◌, List, [], ◌∷◌, ◌++◌, ◌≡◌, ◌↔◌, refl, arith,
  ◌==◌, if◌then◌else◌,
}
use agentpause.Prelude.Dict.{Eq}

abbrev pub Text : Type 0
Text = List ℕ

-- A literal of the source.
abbrev pub codes : String → Text
codes String.[] = []
codes (String.◌∷◌ c s) = code c ∷ codes s

abbrev pub text_eq : Text → Text → Bool
text_eq [] [] = true
text_eq [] (y ∷ ys) = false
text_eq (x ∷ xs) [] = false
text_eq (x ∷ xs) (y ∷ ys) = x == y && text_eq xs ys

pub text_eq_iff : (s t : Text) → (text_eq s t ≡ true) ↔ (s ≡ t)
text_eq_iff [] [] = (λ e. refl, λ e. refl)
text_eq_iff [] (y ∷ ys) = (λ e. cc, λ e. cc)
text_eq_iff (x ∷ xs) [] = (λ e. cc, λ e. cc)
text_eq_iff (x ∷ xs) (y ∷ ys) =
    let rest = text_eq_iff xs ys in (λ e. ground arith, λ e. ground arith)

instance abbrev pub text_instance : Eq Text
text_instance = record { beq = text_eq; beq_iff = text_eq_iff }

-- `s.replace(a, b)` for single characters
abbrev pub replace : ℕ → ℕ → Text → Text
replace a b [] = []
replace a b (c ∷ s) = (if c == a then b else c) ∷ replace a b s

-- the last character, or 0
abbrev pub last : Text → ℕ
last [] = 0
last (c ∷ []) = c
last (c ∷ d ∷ s) = last (d ∷ s)

pub last-append : (s : Text) (c : ℕ) (t : Text) → last (s ++ (c ∷ t)) ≡ last (c ∷ t)
last-append [] c t = refl
last-append (a ∷ []) c t = refl
last-append (a ∷ b ∷ s) c t = last-append (b ∷ s) c t

-- `separator.join(parts)`
abbrev pub join : Text → List Text → Text
join sep [] = []
join sep (s ∷ []) = s
join sep (s ∷ t ∷ ts) = s ++ (sep ++ join sep (t ∷ ts))

-- `str(n)`: the digits of `n`, most significant first, before those already written
pub digits : ℕ → ℕ → Text → Text
digits zero n acc = acc
digits (suc fuel) n acc =
    let acc' : Text = (48 + n % 10) ∷ acc in
    elim (n / 10 == 0) [ true ↦ acc' | false ↦ digits fuel (n / 10) acc' ]

unfoldable pub decimal : ℕ → Text
unfolding digits
decimal n = digits (suc n) n []

two_digits : decimal 42 ≡ codes "42"
unfolding decimal
two_digits = refl
