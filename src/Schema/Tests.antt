-- ===== src/Schema/Tests.antt =====
-- The first migration on an empty schema, and the third case number of a year.
use xieyi.Prelude.{◌≡◌, refl, String, [], ◌∷◌, str, arith, str_eq, false}
use xieyi.Prelude.Decimal.Padding.{zero_padded}
use xieyi.Errors.{ok}
use xieyi.Cases.Number.{format_case_no}
use xieyi.Schema.{Schema, any, is_referrer}
use xieyi.Schema.Initial.{cases, upgrade, downgrade}
use xieyi.Schema.Reversal.{HasNone, IsFresh, upgraded, downgrade-upgrade}
use xieyi.Schema.Widths.{Fits, case_no, Written-Fits}

-- A schema of another program.
abbrev other : Schema
other = record {
  sequences = "other_seq" ∷ [];
  tables = record { name = "other"; columns = []; constraints = [] } ∷ [];
  indexes = [];
  functions = [];
  triggers = [];
}

nothing :
    (name : String)
    → any (λ t. str_eq name t.name) other.tables ≡ false
    → any (is_referrer name) other.tables ≡ false
    → HasNone name other
nothing name h r = record { table = h; referrer = r; index = refl; trigger = refl }

other-IsFresh : IsFresh other
other-IsFresh = record {
  sequence = refl;
  cases = nothing "cases" refl refl;
  evidence = nothing "evidence" refl refl;
  audit_events = nothing "audit_events" refl refl;
  cases_case_no = refl;
  cases_status = refl;
  evidence_case_id = refl;
  evidence_sha256 = refl;
  evidence_source_type = refl;
  audit_events_case_id = refl;
  audit_events_created_at = refl;
  audit_events_case_created = refl;
  function = refl;
  caller = refl;
}

downgrade-upgrade_example :
    (upgrade other ≡ (ok tt, upgraded other other-IsFresh))
    × (downgrade (upgraded other other-IsFresh) ≡ (ok tt, other))
downgrade-upgrade_example = downgrade-upgrade other other-IsFresh

Written-Fits_example : Fits cases "case_no" "CASE-2026-000003"
unfolding format_case_no str zero_padded
Written-Fits_example =
    Written-Fits (case_no 3 2026 "CASE-2026-000003" (omega arith) (omega arith) refl)
