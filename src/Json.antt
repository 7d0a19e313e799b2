-- ===== src/Json.antt =====
-- JSON bodies as Python's `json` reads them, and the few operations the clients of a server use on
-- them. The text of a value that is no string, and the numbers in a string, are Python's own.
use agentpause.Prelude.{Bool, true, false, not, ◌&&◌, Option, none, some, [], ◌∷◌, if◌then◌else◌}
use agentpause.Prelude.Int.{ℤ, pos, leb_ℤ}
use agentpause.Number.{Float, truthy}
use agentpause.Errors.{Result, ok, raise, foreign}
use agentpause.Text.{Text, text_eq}

mutual
  pub data Json (F : Type 0) : Type 0 where
    null : Json F
    truth : Bool → Json F
    int : ℤ → Json F
    real : F → Json F
    str : Text → Json F
    array : Items F → Json F
    object : Fields F → Json F

  pub data Items (F : Type 0) : Type 0 where
    no_items : Items F
    item : Json F → Items F → Items F

  pub data Fields (F : Type 0) : Type 0 where
    no_fields : Fields F
    field : Text → Json F → Fields F → Fields F

-- What Python reads in a string and writes for a value.
pub record Reading (F : Type 0) : Type 0 where
  -- `int(s)` and `float(s)`, which may raise ValueError
  pub int_of : Text → Option ℤ
  pub float_of : Text → Option F
  -- `int(x)` of a float, which raises for NaN and the infinities
  pub int_of_real : F → Option ℤ
  -- `str(value)` of a value that is no string
  pub text_of : Json F → Text

abbrev is_empty : Text → Bool
is_empty [] = true
is_empty (c ∷ s) = false

module _ {F : Type 0} where
  unfoldable pub find : Text → Fields F → Option (Json F)
  find key no_fields = none
  find key (field k v rest) = elim (find key rest) [
    | some w ↦ some w
    | none ↦ if text_eq k key then some v else none
  ]

  -- `d.get(key, otherwise)` of a dict; anything else has no `get`
  unfoldable pub get : Text → Json F → Json F → Result F (Json F)
  get key otherwise (object d) = elim (find key d) [ none ↦ ok otherwise | some v ↦ ok v ]
  get key otherwise _ = raise foreign

  unfoldable pub text : Reading F → Json F → Text
  text r (str s) = s
  text r j = r.text_of j

module _ {F : Type 0} ⦃f : Float F⦄ where
  open f use {of_int, le}

  -- `bool(value)`
  unfoldable pub holds : Json F → Bool
  holds null = false
  holds (truth b) = b
  holds (int n) = not (leb_ℤ n (pos 0) && leb_ℤ (pos 0) n)
  holds (real x) = truthy x
  holds (str s) = not (is_empty s)
  holds (array no_items) = false
  holds (array (item x xs)) = true
  holds (object no_fields) = false
  holds (object (field k v d)) = true

  -- `a or b`
  unfoldable pub either : Json F → Json F → Json F
  unfolding holds
  either a b = if holds a then a else b

  unfoldable pub read_int : Option ℤ → Result F ℤ
  read_int none = raise foreign
  read_int (some n) = ok n

  -- `int(value)`: a TypeError of None or a container, a ValueError of a string that is no numeral
  unfoldable pub to_int : Reading F → Json F → Result F ℤ
  unfolding read_int
  to_int r (int n) = ok n
  to_int r (truth true) = ok (pos 1)
  to_int r (truth false) = ok (pos 0)
  to_int r (real x) = read_int (r.int_of_real x)
  to_int r (str s) = read_int (r.int_of s)
  to_int r _ = raise foreign

  -- `value == n`, where True is 1 and 1.0 is 1
  unfoldable pub equals : ℤ → Json F → Bool
  equals n (int m) = leb_ℤ m n && leb_ℤ n m
  equals n (truth true) = leb_ℤ (pos 1) n && leb_ℤ n (pos 1)
  equals n (truth false) = leb_ℤ (pos 0) n && leb_ℤ n (pos 0)
  equals n (real x) = le x (of_int n) && le (of_int n) x
  equals n _ = false
