-- ===== src/Evidence/Keys.antt =====
-- The parts of an object's key in the bucket.
use xieyi.Prelude.{◌≡◌, ap, ◌∙◌, List, [], ◌∷◌, Text, codes, split, split-last, split-append, arith}
use xieyi.Models.{Uuid}
use xieyi.Security.FileNames.{slash}
use xieyi.Security.SafeNames.{IsSlashless}
use xieyi.Evidence.Parts.{object_key_of}

-- What stands between the separators of a key.
abbrev pub segments : Text → List Text
segments = split slash

-- Let the ids and the stored name have no "/". The key of an object has exactly five parts, and they
-- tell the case, the evidence and the stored name.
pub segments-object_key_of :
    (case_id evidence_id : Uuid) (cleaned_name : Text)
    → IsSlashless (codes case_id)
    → IsSlashless (codes evidence_id)
    → IsSlashless cleaned_name
    → segments (object_key_of case_id evidence_id cleaned_name)
      ≡ codes "cases" ∷ codes case_id ∷ codes "evidence" ∷ codes evidence_id ∷ cleaned_name ∷ []
segments-object_key_of case_id evidence_id cleaned_name hc he hn =
    split-append slash (codes "cases") _ (ground arith)
    ∙ ap (λ parts. codes "cases" ∷ parts)
        (split-append slash (codes case_id) _ hc
          ∙ ap (λ parts. codes case_id ∷ parts)
              (split-append slash (codes "evidence") _ (ground arith)
                ∙ ap (λ parts. codes "evidence" ∷ parts)
                    (split-append slash (codes evidence_id) _ he
                      ∙ ap (λ parts. codes evidence_id ∷ parts)
                          (split-last slash cleaned_name hn))))
