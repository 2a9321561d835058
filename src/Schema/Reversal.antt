-- ===== src/Schema/Reversal.antt =====
-- The first migration can be applied and taken back.
use xieyi.Prelude.{String, ◌≡◌, refl, ap, ◌∙◌, Bool, true, false, List, [], ◌∷◌, str_eq, arith}
use xieyi.Errors.{ok}
use xieyi.Schema.{Table, Index, Trigger, Schema, any, without, is_referrer, is_trigger}
use xieyi.Schema.Initial.{cases, evidence, audit_events, index, append_only, upgrade, downgrade}

-- The schema has no table of this name, and nothing that belongs or refers to one.
pub record HasNone (name : String) (s : Schema) : Type 0 where
  pub table : any (λ t. str_eq name t.name) s.tables ≡ false
  pub referrer : any (is_referrer name) s.tables ≡ false
  pub index : any (λ i. str_eq name i.table) s.indexes ≡ false
  pub trigger : any (λ t. str_eq name t.table) s.triggers ≡ false

abbrev pub has_index : Schema → String → Bool
has_index s name = any (λ i. str_eq name i.name) s.indexes

-- Nothing of the schema has a name that the migration uses.
pub record IsFresh (s : Schema) : Type 0 where
  pub sequence : any (str_eq "case_number_seq") s.sequences ≡ false
  pub cases : HasNone "cases" s
  pub evidence : HasNone "evidence" s
  pub audit_events : HasNone "audit_events" s
  pub cases_case_no : has_index s "ix_cases_case_no" ≡ false
  pub cases_status : has_index s "ix_cases_status" ≡ false
  pub evidence_case_id : has_index s "ix_evidence_case_id" ≡ false
  pub evidence_sha256 : has_index s "ix_evidence_sha256" ≡ false
  pub evidence_source_type : has_index s "ix_evidence_source_type" ≡ false
  pub audit_events_case_id : has_index s "ix_audit_events_case_id" ≡ false
  pub audit_events_created_at : has_index s "ix_audit_events_created_at" ≡ false
  pub audit_events_case_created : has_index s "ix_audit_events_case_created" ≡ false
  pub function : any (str_eq "reject_audit_mutation") s.functions ≡ false
  pub caller : any (λ t. str_eq "reject_audit_mutation" t.function) s.triggers ≡ false

without-none : {A : Type 0} (p : A → Bool) (xs : List A) → any p xs ≡ false → without p xs ≡ xs
without-none p [] h = refl
without-none p (x ∷ xs) h =
    let rest : any p xs ≡ false = ground (arith, h) in
    rw (without-none p xs rest) (ground (arith, h))

none-is_trigger :
    (name table : String) (ts : List Trigger)
    → any (λ t. str_eq table t.table) ts ≡ false
    → any (is_trigger name table) ts ≡ false
none-is_trigger name table [] h = refl
none-is_trigger name table (t ∷ ts) h =
    let rest : any (λ t. str_eq table t.table) ts ≡ false = ground (arith, h) in
    rw (none-is_trigger name table ts rest) (ground (arith, h))

module _ (s : Schema) (h : IsFresh s) where
  -- What the upgrade adds to the schema.
  abbrev pub upgraded : Schema
  upgraded = record {
    sequences = "case_number_seq" ∷ s.sequences;
    tables = audit_events ∷ evidence ∷ cases ∷ s.tables;
    indexes =
        index "ix_audit_events_case_created" "audit_events" ("case_id" ∷ "created_at" ∷ [])
        ∷ index "ix_audit_events_created_at" "audit_events" ("created_at" ∷ [])
        ∷ index "ix_audit_events_case_id" "audit_events" ("case_id" ∷ [])
        ∷ index "ix_evidence_source_type" "evidence" ("source_type" ∷ [])
        ∷ index "ix_evidence_sha256" "evidence" ("sha256" ∷ [])
        ∷ index "ix_evidence_case_id" "evidence" ("case_id" ∷ [])
        ∷ index "ix_cases_status" "cases" ("status" ∷ [])
        ∷ record (index "ix_cases_case_no" "cases" ("case_no" ∷ [])) { is_unique = true }
        ∷ s.indexes;
    functions = "reject_audit_mutation" ∷ s.functions;
    triggers = append_only ∷ s.triggers;
  }

  -- `CREATE OR REPLACE` takes away the function that it replaces.
  replacing : upgrade s ≡ (
    ok tt,
    record upgraded {
      functions = "reject_audit_mutation" ∷ without (str_eq "reject_audit_mutation") s.functions;
    },
  )
  unfolding upgrade
  replacing =
      rw
        (
          h.sequence, h.cases.table, h.cases_case_no, h.cases_status, h.evidence.table,
          h.evidence_case_id, h.evidence_sha256, h.evidence_source_type, h.audit_events.table,
          h.audit_events_case_id, h.audit_events_created_at, h.audit_events_case_created,
        )
        refl

  upgrades : upgrade s ≡ (ok tt, upgraded)
  upgrades =
      replacing
      ∙ ap (λ fs. (ok tt, record upgraded { functions = "reject_audit_mutation" ∷ fs }))
          (without-none (str_eq "reject_audit_mutation") s.functions h.function)

  goes_back : downgrade upgraded ≡ (ok tt, s)
  unfolding downgrade
  goes_back =
      rw
        (
          without-none (is_trigger "audit_events_append_only" "audit_events") s.triggers (
              none-is_trigger "audit_events_append_only" "audit_events" s.triggers
                h.audit_events.trigger),
          h.caller,
          h.audit_events.referrer,
          without-none (str_eq "reject_audit_mutation") s.functions h.function,
          without-none (λ (t : Table). str_eq "audit_events" t.name) s.tables h.audit_events.table,
          without-none (λ (i : Index). str_eq "audit_events" i.table) s.indexes
              h.audit_events.index,
          without-none (λ (t : Trigger). str_eq "audit_events" t.table) s.triggers
              h.audit_events.trigger,
          h.evidence.referrer,
          without-none (λ (t : Table). str_eq "evidence" t.name) s.tables h.evidence.table,
          without-none (λ (i : Index). str_eq "evidence" i.table) s.indexes h.evidence.index,
          without-none (λ (t : Trigger). str_eq "evidence" t.table) s.triggers h.evidence.trigger,
          h.cases.referrer,
          without-none (λ (t : Table). str_eq "cases" t.name) s.tables h.cases.table,
          without-none (λ (i : Index). str_eq "cases" i.table) s.indexes h.cases.index,
          without-none (λ (t : Trigger). str_eq "cases" t.table) s.triggers h.cases.trigger,
          without-none (str_eq "case_number_seq") s.sequences h.sequence,
        )
        refl

  -- Let nothing of a schema have a name that the first migration uses. Then the upgrade succeeds and
  -- adds the sequence, the three tables with their indexes, and the trigger with its function; and the
  -- downgrade after it succeeds and leaves the schema as it was before.
  pub downgrade-upgrade : (upgrade s ≡ (ok tt, upgraded)) × (downgrade upgraded ≡ (ok tt, s))
  downgrade-upgrade = (upgrades, goes_back)
