-- ===== src/Json/Dumps.antt =====
-- `json.dumps(content, sort_keys=True, ensure_ascii=False, separators=(",", ":"))`, as code points.
use xieyi.Prelude.{
  ℕ, ◌+◌, ◌/◌, ◌%◌, String, true, false, [], ◌∷◌, ◌++◌, ltb, ◌==◌, if◌then◌else◌, Text, codes,
  text_before, str,
}
use xieyi.Json.{
  Json, null, boolean, number, negative, string, array, object, Items, nil, cons, Members, empty,
  member,
}

-- A hexadecimal digit, in lower case.
abbrev pub hex : ℕ → ℕ
hex d = if ltb d 10 then 48 + d else 87 + d

-- `ESCAPE_DCT` of json.encoder: the quote, the backslash and the control characters.
unfoldable pub escape : ℕ → Text
escape c =
    if c == 34
    then 92 ∷ 34 ∷ []
    else if c == 92
    then 92 ∷ 92 ∷ []
    else if c == 10
    then 92 ∷ 110 ∷ []
    else if c == 13
    then 92 ∷ 114 ∷ []
    else if c == 9
    then 92 ∷ 116 ∷ []
    else if c == 12
    then 92 ∷ 102 ∷ []
    else if c == 8
    then 92 ∷ 98 ∷ []
    else if ltb c 32
    then 92 ∷ 117 ∷ 48 ∷ 48 ∷ hex (c / 16) ∷ hex (c % 16) ∷ []
    else c ∷ []

unfoldable pub escape_all : Text → Text
unfolding escape
escape_all [] = []
escape_all (c ∷ s) = escape c ++ escape_all s

unfoldable pub quoted : Text → Text
unfolding escape_all
quoted s = 34 ∷ escape_all s ++ 34 ∷ []

-- A key goes before the first key that is greater.
unfoldable pub insert : String → Json → Members → Members
unfolding text_before
insert k v empty = member k v empty
insert k v (member j w ms) =
    if text_before (codes k) (codes j)
    then member k v (member j w ms)
    else member j w (insert k v ms)

-- The members of every object, sorted by key.
unfoldable mutual
  unfolding insert

  pub sort_keys : Json → Json
  sort_keys null = null
  sort_keys (boolean b) = boolean b
  sort_keys (number n) = number n
  sort_keys (negative n) = negative n
  sort_keys (string s) = string s
  sort_keys (array js) = array (sort_items js)
  sort_keys (object ms) = object (sort_members ms)

  pub sort_items : Items → Items
  sort_items nil = nil
  sort_items (cons j js) = cons (sort_keys j) (sort_items js)

  pub sort_members : Members → Members
  sort_members empty = empty
  sort_members (member k v ms) = insert k (sort_keys v) (sort_members ms)

-- `more_items` and `more_members` print what follows the first element, up to the bracket.
unfoldable mutual
  unfolding quoted

  pub print : Json → Text
  print null = codes "null"
  print (boolean true) = codes "true"
  print (boolean false) = codes "false"
  print (number n) = codes (str n)
  print (negative n) = 45 ∷ codes (str (n + 1))
  print (string s) = quoted s
  print (array nil) = codes "[]"
  print (array (cons j js)) = 91 ∷ (print j ++ more_items js)
  print (object empty) = codes "{}"
  print (object (member k v ms)) = 123 ∷ (quoted (codes k) ++ (58 ∷ (print v ++ more_members ms)))

  pub more_items : Items → Text
  more_items nil = codes "]"
  more_items (cons j js) = 44 ∷ (print j ++ more_items js)

  pub more_members : Members → Text
  more_members empty = codes "}"
  more_members (member k v ms) = 44 ∷ (quoted (codes k) ++ (58 ∷ (print v ++ more_members ms)))

unfoldable pub dumps : Json → Text
dumps j = print (sort_keys j)
