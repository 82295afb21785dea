-- ===== src/Notify/Template.antt =====
-- linkmint-backend/notification-service/app/templating/render.py: `string.Template.safe_substitute`
-- of Python's library, and the values of an event's `data`.
use Prim.Native.Char.{Char, code}
use Prim.Native.String.{◌++◌ as append}
use paylink.Prelude.{
  ℕ, String, Bool, true, false, ◌&&◌, ◌||◌, if◌then◌else◌, none, some, leb, nat_beq, select, map,
  Table, lookup, string_eq,
}

-- `None`, or a value with its `str`, its truth and whether it is a scalar
pub data EventValue : Type 0 where
  null : EventValue
  shown : (text : String) (truth scalar : Bool) → EventValue

abbrev pub EventData : Type 0
EventData = Table String EventValue

-- `str(value)`
abbrev pub str : EventValue → String
str null = "None"
str (shown text truth scalar) = text

-- `data.get(key)`, with `None` for a missing key
unfoldable pub get : String → EventData → EventValue
get key event_data = elim (lookup key event_data) [ none ↦ null | some value ↦ value ]

abbrev pub is_true : EventValue → Bool
is_true null = false
is_true (shown text truth scalar) = truth

abbrev pub is_null : EventValue → Bool
is_null null = true
is_null (shown text truth scalar) = false

-- `a or b` of two values
abbrev pub or_value : EventValue → EventValue → EventValue
or_value a b = if is_true a then a else b

-- `str(value or "")`
abbrev pub str_or_empty : EventValue → String
str_or_empty value = if is_true value then str value else ""

abbrev pub is_scalar_value : EventValue → Bool
is_scalar_value null = true
is_scalar_value (shown text truth scalar) = scalar

-- `safe_data_keys` of app/redaction.py
unfoldable pub safe_data_keys : EventData → EventData
safe_data_keys event_data = select (λ entry. is_scalar_value entry.1) event_data

-- `[_a-zA-Z]` and `[_a-zA-Z0-9]`
unfoldable pub starts_name : ℕ → Bool
starts_name c = nat_beq c 95 || leb 97 c && leb c 122 || leb 65 c && leb c 90

unfoldable pub continues_name : ℕ → Bool
unfolding starts_name
continues_name c = starts_name c || leb 48 c && leb c 57

-- Where the scan of a template stands: in plain text, after a `$`, in `$name` or in `${name`.
pub data Mode : Type 0 where
  plain after_dollar : Mode
  naming bracing : (name : String) → Mode

abbrev pub of_char : Char → String
of_char c = String.◌∷◌ c ""

-- the value of a placeholder, or the placeholder as it stands
unfoldable pub filled : (values : Table String String) (name literal : String) → String
filled values name literal = elim (lookup name values) [ none ↦ literal | some value ↦ value ]

-- what the end of the template, or a character that does not go on, leaves of a mode
unfoldable pub flush : Table String String → Mode → String
unfolding filled
flush values plain = ""
flush values after_dollar = "$"
flush values (naming name) = filled values name (append "$" name)
flush values (bracing name) = append "${" name

-- a character in plain text: what it adds, and the mode after it
abbrev pub in_plain : Char → String × Mode
in_plain c = if nat_beq (code c) 36 then ("", after_dollar) else (of_char c, plain)

-- `$$` is a dollar, `${` opens a name, a letter begins one.
unfoldable pub scan : Table String String → Mode → Char → String × Mode
unfolding flush filled starts_name continues_name
scan values plain c = in_plain c
scan values after_dollar c =
    if nat_beq (code c) 36
    then ("$", plain)
    else if nat_beq (code c) 123
    then ("", bracing "")
    else if starts_name (code c)
    then ("", naming (of_char c))
    else (append "$" (of_char c), plain)
scan values (naming name) c =
    if continues_name (code c)
    then ("", naming (append name (of_char c)))
    else let (text, mode) = in_plain c in (append (flush values (naming name)) text, mode)
scan values (bracing String.[]) c =
    if starts_name (code c)
    then ("", bracing (of_char c))
    else let (text, mode) = in_plain c in (append "${" text, mode)
scan values (bracing (String.◌∷◌ d name)) c =
    let name' = String.◌∷◌ d name in
    if continues_name (code c)
    then ("", bracing (append name' (of_char c)))
    else if nat_beq (code c) 125
    then (filled values name' (append "${" (append name' "}")), plain)
    else let (text, mode) = in_plain c in (append (append "${" name') text, mode)

unfoldable pub substitute : Table String String → Mode → String → String
unfolding scan flush
substitute values mode String.[] = flush values mode
substitute values mode (String.◌∷◌ c s) =
    let (text, mode') = scan values mode c in append text (substitute values mode' s)

unfoldable pub render : String → EventData → String
unfolding substitute
render body event_data = substitute (map (λ entry. (entry.0, str entry.1)) event_data) plain body
