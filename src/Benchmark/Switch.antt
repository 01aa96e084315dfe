-- ===== src/Benchmark/Switch.antt =====
-- A switch from an enumeration of another library to strings, as the list of its cases. A constant
-- of the enumeration is given by its name; a value that has no case is any other name.
use Prim.Native.String.{String}
use text.Mathlib.Text.{◌==◌}
use text.Mathlib.TextEquality.{eq_iff}
use sigmax.Base.{
  arith, List, [], ◌∷◌, Option, none, some, Bool, true, false, ◌&&◌, ◌||◌, not, ◌≡◌, refl, ap, sym,
  ◌∙◌,
}
use sigmax.Std.Map.{find?}
use sigmax.Logger.{Level, error}

abbrev pub Cases : Type 0
Cases = List (String × String)

-- The log lines of the switch and its string: the default logs an error.
abbrev pub chosen : String → Option String → List Level × String
chosen default none = (error ∷ [], default)
chosen default (some name) = ([], name)

unfoldable pub switch : Cases → String → String → List Level × String
unfolding find?
switch cases default constant = chosen default (find? constant cases)

unfoldable pub returns : String → Cases → Bool
returns name [] = false
returns name ((_, n) ∷ cases) = (n == name) || returns name cases

-- No two cases return the same string.
unfoldable pub distinct : Cases → Bool
unfolding returns
distinct [] = true
distinct ((_, n) ∷ cases) = not (returns n cases) && distinct cases

returns-found : (cases : Cases) (c n : String) → find? c cases ≡ some n → returns n cases ≡ true
unfolding find? returns
returns-found [] c n h = cc
returns-found ((j, m) ∷ cases) c n h =
    ground
      (arith, eq_iff j c, eq_iff m n, λ (k : find? c cases ≡ some n). returns-found cases c n k)

pub distinct-found :
    (cases : Cases) (c d n : String)
    → distinct cases ≡ true
    → find? c cases ≡ some n
    → find? d cases ≡ some n
    → c ≡ d
unfolding find? distinct
distinct-found [] c d n u h k = cc
distinct-found ((j, m) ∷ cases) c d n u h k = ground (
  arith,
  eq_iff j c,
  eq_iff j d,
  λ (e : find? c cases ≡ some n). returns-found cases c n e,
  λ (e : find? d cases ≡ some n). returns-found cases d n e,
  λ (v : distinct cases ≡ true) (e : find? c cases ≡ some n) (f : find? d cases ≡ some n).
      distinct-found cases c d n v e f,
)

-- In a switch whose cases return distinct strings, two constants that it knows and gives the same
-- string are the same.
pub switch-inj :
    (cases : Cases) (default c d : String)
    → distinct cases ≡ true
    → (switch cases default c).0 ≡ []
    → (switch cases default d).0 ≡ []
    → (switch cases default c).1 ≡ (switch cases default d).1
    → c ≡ d
unfolding switch
switch-inj cases default c d u = from (find? c cases) (find? d cases) refl refl
  where
    from :
        (x y : Option String)
        → find? c cases ≡ x
        → find? d cases ≡ y
        → (chosen default x).0 ≡ []
        → (chosen default y).0 ≡ []
        → (chosen default x).1 ≡ (chosen default y).1
        → c ≡ d
    from none y f g known known' e = cc
    from (some n) none f g known known' e = cc
    from (some n) (some m) f g known known' e = distinct-found cases c d n u f (g ∙ ap some (sym e))
