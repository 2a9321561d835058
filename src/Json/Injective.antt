-- ===== src/Json/Injective.antt =====
-- The printed text determines the JSON value.
use mathlib.Core.List.{append-nil, append_assoc}
use mathlib.Core.Path.{ap₂}
use xieyi.Prelude.{
  ℕ, ◌+◌, ◌≡◌, refl, ap, sym, ◌∙◌, true, false, [], ◌∷◌, ◌++◌, arith, ◌==◌, if◌then◌else◌, Text,
  codes, codes-inj, str,
}
use xieyi.Prelude.Decimal.Laws.{is_digit, starts_digit, str_starts, str-inj}
use xieyi.Json.{
  Json, null, boolean, number, negative, string, array, object, Items, nil, cons, Members, empty,
  member,
}
use xieyi.Json.Dumps.{quoted, print, more_items, more_members}
use xieyi.Json.Quoted.{quoted-inj}

-- The kind of a value, and how its first character shows it.
abbrev tag : Json → ℕ
tag null = 0
tag (boolean true) = 1
tag (boolean false) = 2
tag (number n) = 3
tag (negative n) = 4
tag (string s) = 5
tag (array js) = 6
tag (object ms) = 7

abbrev first_tag : ℕ → ℕ
first_tag c =
    if c == 110
    then 0
    else if c == 116
    then 1
    else if c == 102
    then 2
    else if is_digit c
    then 3
    else if c == 45
    then 4
    else if c == 34
    then 5
    else if c == 91
    then 6
    else if c == 123
    then 7
    else 8

abbrev tag_of : Text → ℕ
tag_of [] = 8
tag_of (c ∷ s) = first_tag c

digit_tag : (s : Text) → starts_digit s ≡ true → tag_of s ≡ 3
digit_tag [] h = absurd (ground arith)
digit_tag (c ∷ s) h = ground arith

tag-print : (j : Json) (s : Text) → tag_of (print j ++ s) ≡ tag j
unfolding print quoted
tag-print null s = refl
tag-print (boolean true) s = refl
tag-print (boolean false) s = refl
tag-print (number n) s = digit_tag (codes (str n) ++ s) (str_starts n s)
tag-print (negative n) s = refl
tag-print (string t) s = refl
tag-print (array nil) s = refl
tag-print (array (cons j js)) s = refl
tag-print (object empty) s = refl
tag-print (object (member k v ms)) s = refl

-- The text goes on with no digit, so a number ends where it is printed to end.
abbrev Stops : Text → Type 0
Stops s = starts_digit s ≡ false

more_items-Stops : (js : Items) (s : Text) → Stops (more_items js ++ s)
unfolding more_items
more_items-Stops nil s = refl
more_items-Stops (cons j js) s = refl

more_members-Stops : (ms : Members) (s : Text) → Stops (more_members ms ++ s)
unfolding more_members
more_members-Stops empty s = refl
more_members-Stops (member k v ms) s = refl

-- A value is not printed as the bracket that closes an empty list.
print_not_bracket : (j : Json) (s t : Text) → ¬ (print j ++ s ≡ 93 ∷ t)
print_not_bracket j s t e = ground (arith, tag-print j s, ap tag_of e)

regroup : (a b s c d t : Text) → (a ++ b) ++ s ≡ (c ++ d) ++ t → a ++ (b ++ s) ≡ c ++ (d ++ t)
regroup a b s c d t e = sym (append_assoc a b s) ∙ e ∙ append_assoc c d t

mutual
  unfolding print more_items more_members quoted

  print-inj :
      (j k : Json) (s t : Text)
      → Stops s
      → Stops t
      → print j ++ s ≡ print k ++ t
      → (j ≡ k) × (s ≡ t)
  print-inj null null s t hs ht e = (refl, ground arith)
  print-inj (boolean true) (boolean true) s t hs ht e = (refl, ground arith)
  print-inj (boolean false) (boolean false) s t hs ht e = (refl, ground arith)
  print-inj (number m) (number n) s t hs ht e =
      let parts = str-inj m n s t hs ht e in (ap number parts.0, parts.1)
  print-inj (negative m) (negative n) s t hs ht e =
      let parts = str-inj (m + 1) (n + 1) s t hs ht (cc) in
      (ap negative (omega (arith, parts.0)), parts.1)
  print-inj (string a) (string b) s t hs ht e =
      let parts = quoted-inj a b s t e in (ap string parts.0, parts.1)
  print-inj (array nil) (array nil) s t hs ht e = (refl, ground arith)
  print-inj (array nil) (array (cons k ks)) s t hs ht e = absurd (
      print_not_bracket k (more_items ks ++ t) s
        (sym (append_assoc (print k) (more_items ks) t) ∙ (cc)))
  print-inj (array (cons j js)) (array nil) s t hs ht e = absurd (
      print_not_bracket j (more_items js ++ s) t
        (sym (append_assoc (print j) (more_items js) s) ∙ (cc)))
  print-inj (array (cons j js)) (array (cons k ks)) s t hs ht e =
      let head =
        print-inj j k (more_items js ++ s) (more_items ks ++ t) (more_items-Stops js s)
          (more_items-Stops ks t)
          (regroup (print j) (more_items js) s (print k) (more_items ks) t (cc)) in
      let tail = more_items-inj js ks s t head.1 in (ap array (ap₂ cons head.0 tail.0), tail.1)
  print-inj (object empty) (object empty) s t hs ht e = (refl, ground arith)
  print-inj (object empty) (object (member l w ns)) s t hs ht e = absurd (ground arith)
  print-inj (object (member k v ms)) (object empty) s t hs ht e = absurd (ground arith)
  print-inj (object (member k v ms)) (object (member l w ns)) s t hs ht e =
      let key =
        quoted-inj (codes k) (codes l) (58 ∷ ((print v ++ more_members ms) ++ s))
          (58 ∷ ((print w ++ more_members ns) ++ t))
          (regroup (quoted (codes k)) (58 ∷ (print v ++ more_members ms)) s (quoted (codes l))
            (58 ∷ (print w ++ more_members ns)) t (cc)) in
      let value =
        print-inj v w (more_members ms ++ s) (more_members ns ++ t) (more_members-Stops ms s)
          (more_members-Stops ns t)
          (regroup (print v) (more_members ms) s (print w) (more_members ns) t (cc (key.1))) in
      let rest = more_members-inj ms ns s t value.1 in
      (cc (codes-inj k l key.0, value.0, rest.0), rest.1)
  print-inj j k s t hs ht e = absurd (ground (arith, tag-print j s, tag-print k t, ap tag_of e))

  more_items-inj :
      (js ks : Items) (s t : Text) → more_items js ++ s ≡ more_items ks ++ t → (js ≡ ks) × (s ≡ t)
  more_items-inj nil nil s t e = (refl, ground arith)
  more_items-inj (cons j js) (cons k ks) s t e =
      let head =
        print-inj j k (more_items js ++ s) (more_items ks ++ t) (more_items-Stops js s)
          (more_items-Stops ks t)
          (regroup (print j) (more_items js) s (print k) (more_items ks) t (cc)) in
      let tail = more_items-inj js ks s t head.1 in (ap₂ cons head.0 tail.0, tail.1)
  more_items-inj nil (cons k ks) s t e = absurd (ground arith)
  more_items-inj (cons j js) nil s t e = absurd (ground arith)

  more_members-inj :
      (ms ns : Members) (s t : Text)
      → more_members ms ++ s ≡ more_members ns ++ t
      → (ms ≡ ns) × (s ≡ t)
  more_members-inj empty empty s t e = (refl, ground arith)
  more_members-inj (member k v ms) (member l w ns) s t e =
      let key =
        quoted-inj (codes k) (codes l) (58 ∷ ((print v ++ more_members ms) ++ s))
          (58 ∷ ((print w ++ more_members ns) ++ t))
          (regroup (quoted (codes k)) (58 ∷ (print v ++ more_members ms)) s (quoted (codes l))
            (58 ∷ (print w ++ more_members ns)) t (cc)) in
      let value =
        print-inj v w (more_members ms ++ s) (more_members ns ++ t) (more_members-Stops ms s)
          (more_members-Stops ns t)
          (regroup (print v) (more_members ms) s (print w) (more_members ns) t (cc (key.1))) in
      let rest = more_members-inj ms ns s t value.1 in
      (cc (codes-inj k l key.0, value.0, rest.0), rest.1)
  more_members-inj empty (member l w ns) s t e = absurd (ground arith)
  more_members-inj (member k v ms) empty s t e = absurd (ground arith)

-- Equal texts are of equal values.
pub print-injective : (j k : Json) → print j ≡ print k → j ≡ k
print-injective j k e =
    (print-inj j k [] [] refl refl (append-nil (print j) ∙ e ∙ sym (append-nil (print k)))).0
