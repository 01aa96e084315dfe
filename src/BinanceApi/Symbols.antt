-- ===== src/BinanceApi/Symbols.antt =====
-- Reading the instruments back from the subscription message of src/sigmax/binance_api.cpp: the
-- string literals of a JSON text, and of each that names a stream what stands before the `@`.
use mathlib.Core.List.{append-nil, append_assoc}
use sigmax.Base.{
  ℕ, List, [], ◌∷◌, ◌++◌, ◌≡◌, refl, ap, ap₂, sym, ◌∙◌, Bool, true, false, All, arith, ◌==◌,
  if◌then◌else◌, Option, none, some,
}
use sigmax.Base.Text.{Text, codes}
use sigmax.BinanceApi.{add_instruments, message_head, message_tail, build_subscribe_message}
use sigmax.BinanceApi.Message.{is_unquoted, IsUnquoted}

-- The literals that are complete, and the one that is being read.
pub data Reader : Type 0 where
  outside : List Text → Reader
  inside : List Text → Text → Reader
  after_backslash : List Text → Text → Reader

abbrev pub read_outside : List Text → ℕ → Reader
read_outside found c = if c == b'"' then inside found [] else outside found

abbrev pub read_inside : List Text → Text → ℕ → Reader
read_inside found literal c =
    if c == b'"'
    then outside (found ++ (literal ∷ []))
    else (if c == b'\\' then after_backslash found literal else inside found (literal ++ (c ∷ [])))

abbrev pub read_next : Reader → ℕ → Reader
read_next (outside found) c = read_outside found c
read_next (inside found literal) c = read_inside found literal c
read_next (after_backslash found literal) c = inside found (literal ++ (c ∷ []))

unfoldable pub read_text : Reader → Text → Reader
read_text r [] = r
read_text r (c ∷ cs) = read_text (read_next r c) cs

abbrev pub complete : Reader → List Text
complete (outside found) = found
complete (inside found literal) = found
complete (after_backslash found literal) = found

-- What stands before the first `@`.
unfoldable pub before_at : Text → Option Text
before_at [] = none
before_at (c ∷ cs) =
    let rest = before_at cs in
    if c == b'@' then some [] else elim rest [ none ↦ none | some symbol ↦ some (c ∷ symbol) ]

abbrev pub add_symbol : Option Text → List Text → List Text
add_symbol none symbols = symbols
add_symbol (some symbol) symbols = symbol ∷ symbols

unfoldable pub symbols_of : List Text → List Text
symbols_of [] = []
symbols_of (literal ∷ literals) = add_symbol (before_at literal) (symbols_of literals)

-- The instruments that a message subscribes to.
unfoldable pub subscribed : Text → List Text
subscribed message = symbols_of (complete (read_text (outside []) message))

abbrev pub has_no_at : Text → Bool
has_no_at [] = true
has_no_at (c ∷ cs) = if c == b'@' then false else has_no_at cs

abbrev pub IsSymbol : Text → Type 0
IsSymbol text = IsUnquoted text × (has_no_at text ≡ true)

read_text-append :
    (r : Reader) (xs ys : Text) → read_text r (xs ++ ys) ≡ read_text (read_text r xs) ys
unfolding read_text
read_text-append r [] ys = refl
read_text-append r (x ∷ xs) ys = read_text-append (read_next r x) xs ys

read_text-unquoted :
    (found : List Text) (literal xs : Text)
    → IsUnquoted xs
    → read_text (inside found literal) xs ≡ inside found (literal ++ xs)
unfolding read_text
read_text-unquoted found literal [] h = ap (inside found) (sym (append-nil literal))
read_text-unquoted found literal (x ∷ xs) h = ground (
  arith,
  λ (t : is_unquoted xs ≡ true).
      read_text-unquoted found (literal ++ (x ∷ [])) xs t
      ∙ ap (inside found) (append_assoc literal (x ∷ []) xs),
)

before_at-stream :
    (name rest : Text) → has_no_at name ≡ true → before_at (name ++ (b'@' ∷ rest)) ≡ some name
unfolding before_at
before_at-stream [] rest h = refl
before_at-stream (c ∷ cs) rest h =
    ground (arith, λ (t : has_no_at cs ≡ true). before_at-stream cs rest t)

add_symbol-append :
    (o : Option Text) (xs ys : List Text) → add_symbol o (xs ++ ys) ≡ add_symbol o xs ++ ys
add_symbol-append none xs ys = refl
add_symbol-append (some symbol) xs ys = refl

symbols_of-append : (xs ys : List Text) → symbols_of (xs ++ ys) ≡ symbols_of xs ++ symbols_of ys
unfolding symbols_of
symbols_of-append [] ys = refl
symbols_of-append (x ∷ xs) ys =
    ap (add_symbol (before_at x)) (symbols_of-append xs ys)
    ∙ add_symbol-append (before_at x) (symbols_of xs) (symbols_of ys)

IsUnquoted-append : (xs ys : Text) → IsUnquoted xs → IsUnquoted ys → IsUnquoted (xs ++ ys)
IsUnquoted-append [] ys h k = k
IsUnquoted-append (x ∷ xs) ys h k =
    ground (arith, λ (t : is_unquoted xs ≡ true). IsUnquoted-append xs ys t k)

-- The literals of a message for the instruments.
abbrev streams : List Text → List Text
streams [] = []
streams (i ∷ is) = (i ++ codes "@bookTicker") ∷ streams is

symbols_of-streams : (is : List Text) → All IsSymbol is → symbols_of (streams is) ≡ is
unfolding symbols_of
symbols_of-streams [] h = refl
symbols_of-streams (i ∷ is) h =
    ap₂ add_symbol (before_at-stream i (codes "bookTicker") h.0.1) (symbols_of-streams is h.1)

read_text-entry :
    (found : List Text) (i : Text)
    → IsUnquoted i
    → read_text (outside found) (codes "\"" ++ (i ++ codes "@bookTicker\","))
      ≡ outside (found ++ ((i ++ codes "@bookTicker") ∷ []))
unfolding read_text
read_text-entry found i h =
    ap (read_text (inside found [])) (sym (append_assoc i (codes "@bookTicker") (codes "\",")))
    ∙ read_text-append (inside found []) (i ++ codes "@bookTicker") (codes "\",")
    ∙ ap (λ r. read_text r (codes "\","))
        (read_text-unquoted found [] (i ++ codes "@bookTicker")
          (IsUnquoted-append i (codes "@bookTicker") h refl))

read_text-instruments :
    (base : Text) (found : List Text) (is : List Text)
    → All IsSymbol is
    → read_text (outside []) base ≡ outside found
    → read_text (outside []) (add_instruments base is) ≡ outside (found ++ streams is)
unfolding add_instruments
read_text-instruments base found [] h e = e ∙ ap outside (sym (append-nil found))
read_text-instruments base found (i ∷ is) h e =
    read_text-instruments (base ++ entry) (found ++ ((i ++ codes "@bookTicker") ∷ [])) is h.1 (
      read_text-append (outside []) base entry
      ∙ ap (λ r. read_text r entry) e
      ∙ read_text-entry found i h.0.0)
    ∙ ap outside (append_assoc found ((i ++ codes "@bookTicker") ∷ []) (streams is))
  where
    entry : Text
    entry = codes "\"" ++ (i ++ codes "@bookTicker\",")

-- The literals before and after those of the instruments.
abbrev first_literals : List Text
first_literals = codes "method" ∷ codes "SUBSCRIBE" ∷ codes "params" ∷ []

read_text-head : read_text (outside []) message_head ≡ outside first_literals
unfolding read_text
read_text-head = refl

read_text-tail :
    (found : List Text)
    → read_text (outside found) message_tail ≡ outside (found ++ (codes "id" ∷ []))
unfolding read_text
read_text-tail found = refl

symbols_of-streams_between :
    (is : List Text)
    → All IsSymbol is
    → symbols_of (first_literals ++ streams is) ++ symbols_of (codes "id" ∷ []) ≡ is
unfolding symbols_of before_at
symbols_of-streams_between is h = append-nil (symbols_of (streams is)) ∙ symbols_of-streams is h

-- Reading the instruments back from the subscription message gives the instruments that it was
-- built from, in their order, if no name holds a quotation mark, a backslash or an `@`.
pub subscribed-build_subscribe_message :
    (instruments : List Text)
    → All IsSymbol instruments
    → subscribed (build_subscribe_message instruments) ≡ instruments
unfolding subscribed build_subscribe_message
subscribed-build_subscribe_message is h =
    ap (λ r. symbols_of (complete r))
      (read_text-append (outside []) (add_instruments message_head is) message_tail
        ∙ ap (λ r. read_text r message_tail)
            (read_text-instruments message_head first_literals is h read_text-head)
        ∙ read_text-tail (first_literals ++ streams is))
    ∙ symbols_of-append (first_literals ++ streams is) (codes "id" ∷ [])
    ∙ symbols_of-streams_between is h
