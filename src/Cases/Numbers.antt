-- ===== src/Cases/Numbers.antt =====
-- The case numbers of a table are distinct, because the sequence never goes back.
use xieyi.Prelude.{
  ℕ, suc, ◌≤◌, ◌≡◌, ◌≢◌, refl, sym, ap, subst, ◌∙◌, Bool, false, ◌||◌, List, [], ◌∷◌, str_eq,
  eq_iff, arith, All,
}
use xieyi.Errors.{ok}
use xieyi.Models.{Uuid, Case}
use xieyi.World.{World}
use xieyi.Repositories.CaseRepository.{conflicts}
use xieyi.Cases.Number.{format_case_no, format_case_no-inj}
use xieyi.Cases.Service.{CaseCreate, CaseService, create_case}
use xieyi.Cases.Creation.{create_case-Created}

-- The case has one of the first `n` numbers, of some year.
pub record HasNumber (n : ℕ) (case : Case) : Type 0 where
  pub value : ℕ
  pub year : ℕ
  pub issued : value ≤ n
  pub spelled : format_case_no value year ≡ ok case.case_no

-- Every case has a number that the sequence has given out, and no two have the same.
abbrev pub IsNumbered : ℕ → List Case → Type 0
IsNumbered n [] = Unit
IsNumbered n (case ∷ rows) =
    HasNumber n case × All (λ c. c.case_no ≢ case.case_no) rows × IsNumbered n rows

IsNumbered-suc : (n : ℕ) (rows : List Case) → IsNumbered n rows → IsNumbered (suc n) rows
IsNumbered-suc n [] h = tt
IsNumbered-suc n (case ∷ rows) h = (
  record {
    value = h.0.value;
    year = h.0.year;
    issued = omega (arith, h.0.issued);
    spelled = h.0.spelled;
  },
  h.1,
  IsNumbered-suc n rows h.2,
)

abbrev pub has_id : Uuid → List Case → Bool
has_id id [] = false
has_id id (case ∷ rows) = str_eq case.id id || has_id id rows

module _ (n year : ℕ) (new : Case) (next : format_case_no (suc n) year ≡ ok new.case_no) where
  next_is_new : (case : Case) → HasNumber n case → case.case_no ≢ new.case_no
  next_is_new case h e =
      let same =
        format_case_no-inj (suc n) h.value year h.year case.case_no (next ∙ ap ok (sym e))
          h.spelled in
      absurd (omega (arith, same.0, h.issued))

  all_other : (rows : List Case) → IsNumbered n rows → All (λ c. c.case_no ≢ new.case_no) rows
  all_other [] h = tt
  all_other (case ∷ rows) h = (next_is_new case h.0, all_other rows h.2)

  -- Let the cases have distinct numbers that the sequence has given out. A new case with the next
  -- number meets the constraints of the table if no case has its id: the unique case number is never
  -- the reason of a refusal.
  pub conflicts-has_id :
      (rows : List Case) → IsNumbered n rows → conflicts new rows ≡ has_id new.id rows
  conflicts-has_id [] h = refl
  conflicts-has_id (case ∷ rows) h =
      let other = next_is_new case h.0 in
      ground (arith, eq_iff case.case_no new.case_no, conflicts-has_id rows h.2)

-- Let the cases of the session have distinct numbers that the sequence has given out. If `create_case`
-- returns, the committed cases have distinct numbers that the sequence has given out.
pub create_case-IsNumbered :
    (self : CaseService) (data' : CaseCreate) (w w' : World) (case : Case)
    → IsNumbered w.sequence w.current.cases
    → create_case self data' w ≡ (ok case, w')
    → IsNumbered w'.sequence w'.committed.cases
create_case-IsNumbered self data' w w' case h e =
    let c = create_case-Created self data' w w' case e in
    subst (λ n. IsNumbered n w'.committed.cases) (sym c.sequence)
      (subst (λ t. IsNumbered (suc w.sequence) t.cases) (sym c.committed)
        (
          record {
            value = suc w.sequence;
            year = c.year;
            issued = omega arith;
            spelled = c.case_no;
          },
          all_other w.sequence c.year case c.case_no w.current.cases h,
          IsNumbered-suc w.sequence w.current.cases h,
        ))
