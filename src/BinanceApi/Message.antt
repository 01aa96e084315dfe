-- ===== src/BinanceApi/Message.antt =====
-- The subscription message of src/sigmax/binance_api.cpp as JSON: whether its brackets match, a
-- string literal being skipped.
use sigmax.Base.{
  ℕ, List, [], ◌∷◌, ◌++◌, ◌≡◌, refl, Bool, true, false, ◌||◌, All, arith, ◌==◌, if◌then◌else◌,
}
use sigmax.Base.Text.{Text, codes}
use sigmax.BinanceApi.{add_instruments, message_head, message_tail, build_subscribe_message}

-- Inside a string literal or not, and after a backslash there.
pub data Mode : Type 0 where
  plain quoted escaped : Mode

-- What has been read: the closing brackets still due, the innermost first; or a mismatch.
pub data Scan : Type 0 where
  reading : List ℕ → Mode → Scan
  mismatch : Scan

close_bracket : ℕ → List ℕ → Scan
close_bracket c [] = mismatch
close_bracket c (due ∷ dues) = if due == c then reading dues plain else mismatch

read_plain : ℕ → List ℕ → Scan
read_plain c dues =
    if c == b'"'
    then reading dues quoted
    else (if c == b'{'
        then reading (b'}' ∷ dues) plain
        else (if c == b'['
            then reading (b']' ∷ dues) plain
            else (if c == b'}'
                then close_bracket c dues
                else (if c == b']' then close_bracket c dues else reading dues plain))))

unfoldable pub read_char : Scan → ℕ → Scan
unfolding read_plain close_bracket
read_char mismatch c = mismatch
read_char (reading dues plain) c = read_plain c dues
read_char (reading dues quoted) c =
    if c == b'"'
    then reading dues plain
    else (if c == b'\\' then reading dues escaped else reading dues quoted)
read_char (reading dues escaped) c = reading dues quoted

unfoldable pub scan : Scan → Text → Scan
scan s [] = s
scan s (c ∷ cs) = scan (read_char s c) cs

abbrev pub is_complete : Scan → Bool
is_complete (reading [] plain) = true
is_complete _ = false

-- What a JSON text has to pass.
unfoldable pub brackets_match : Text → Bool
brackets_match text = is_complete (scan (reading [] plain) text)

-- A text with no quotation mark and no backslash.
abbrev pub is_unquoted : Text → Bool
is_unquoted [] = true
is_unquoted (c ∷ cs) = if (c == b'"') || (c == b'\\') then false else is_unquoted cs

abbrev pub IsUnquoted : Text → Type 0
IsUnquoted text = is_unquoted text ≡ true

scan-append : (s : Scan) (xs ys : Text) → scan s (xs ++ ys) ≡ scan (scan s xs) ys
unfolding scan
scan-append s [] ys = refl
scan-append s (x ∷ xs) ys = scan-append (read_char s x) xs ys

scan-mismatch : (xs : Text) → scan mismatch xs ≡ mismatch
unfolding scan read_char
scan-mismatch [] = refl
scan-mismatch (x ∷ xs) = scan-mismatch xs

scan-unquoted :
    (dues : List ℕ) (xs : Text)
    → IsUnquoted xs
    → scan (reading dues quoted) xs ≡ reading dues quoted
unfolding scan read_char
scan-unquoted dues [] h = refl
scan-unquoted dues (x ∷ xs) h =
    ground (arith, λ (t : is_unquoted xs ≡ true). scan-unquoted dues xs t)

-- Inside the array of parameters.
abbrev in_params : Scan
in_params = reading (b']' ∷ b'}' ∷ []) plain

scan-head : scan (reading [] plain) message_head ≡ in_params
unfolding scan read_char
scan-head = refl

scan-tail : scan in_params message_tail ≡ mismatch
unfolding scan read_char
scan-tail = refl

scan-instrument :
    (instrument : Text)
    → IsUnquoted instrument
    → scan in_params (codes "\"" ++ (instrument ++ codes "@bookTicker\",")) ≡ in_params
unfolding scan read_char
scan-instrument instrument h =
    rw (scan-append, scan-append _ instrument _, scan-unquoted _ instrument h)

scan-add_instruments :
    (base : Text) (instruments : List Text)
    → All IsUnquoted instruments
    → scan (reading [] plain) base ≡ in_params
    → scan (reading [] plain) (add_instruments base instruments) ≡ in_params
unfolding add_instruments
scan-add_instruments base [] h e = e
scan-add_instruments base (i ∷ is) h e =
    scan-add_instruments _ is h.1 (rw (scan-append, e) (scan-instrument i h.0))

-- Whatever the instruments, if their names hold no quotation mark and no backslash, the brackets of
-- the subscription message do not match, so it is not a JSON text.
pub subscribe_message_malformed :
    (instruments : List Text)
    → All IsUnquoted instruments
    → brackets_match (build_subscribe_message instruments) ≡ false
unfolding brackets_match build_subscribe_message
subscribe_message_malformed instruments h =
    rw (scan-append, scan-add_instruments message_head instruments h scan-head, scan-tail)
