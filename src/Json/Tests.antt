-- ===== src/Json/Tests.antt =====
-- Runs of `json.dumps`.
use xieyi.Prelude.{◌≡◌, refl, codes, str, true}
use xieyi.Json.{null, boolean, number, string, array, object, nil, cons, empty, member}
use xieyi.Json.Dumps.{dumps, print, sort_keys}

dumps_sorted :
    dumps (object (member "b" (number 2) (member "a" (string (codes "案\"件\n")) empty)))
    ≡ codes "{\"a\":\"案\\\"件\\n\",\"b\":2}"
unfolding dumps print sort_keys str
dumps_sorted = refl

dumps_nested :
    dumps (array (cons null (cons (boolean true) (cons (object empty) (cons (number 1204) nil)))))
    ≡ codes "[null,true,{},1204]"
unfolding dumps print sort_keys str
dumps_nested = refl
