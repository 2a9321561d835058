-- ===== src/Audit/Tests.antt =====
-- Concrete audit chains, under a digest that tells texts of even and odd length apart.
use xieyi.Prelude.{
  ℕ, zero, suc, ◌%◌, ◌≡◌, ◌≢◌, ◌↔◌, ◌⊎◌, inl, inr, refl, String, Bool, true, false, Option, none,
  some, List, [], ◌∷◌, ◌++◌, map, arith, str, Text, codes, All, length, ◌==◌, if◌then◌else◌,
  Bool-cases,
}
use xieyi.Types.{evidence_created}
use xieyi.Json.{Members, empty, member, number, string}
use xieyi.Json.Dumps.{dumps, print, sort_keys}
use xieyi.Models.{AuditEvent, Tables}
use xieyi.World.{Environment, World}
use xieyi.Repositories.Order.{where_rows, order_by}
use xieyi.Repositories.AuditRepository
use xieyi.Repositories.AuditRepository.{precedes}
use xieyi.Repositories.AuditRepository.Laws.{IsChronological, IsLatest}
use xieyi.Audit.Hashing.{Platform, canonical_json, calculate_event_hash, event_content}
use xieyi.Audit.Service.{Entry, build_event, append, verify_events, first_broken}
use xieyi.Audit.Chain.{IsLinked, BreaksAt, verify-decides_chain, verify-names_break}
use xieyi.Audit.Growth.{append-extends_chain, append-unchained_breaks}
use xieyi.Audit.Content.{IsHex, DigestLaws}
use xieyi.Audit.Tampering.{Collision, content, tamper_evident}

abbrev even : String
even = "0000000000000000000000000000000000000000000000000000000000000000"

abbrev odd : String
odd = "aaaaaaaaaaaaaaaaaaaaaaaaaaaaaaaaaaaaaaaaaaaaaaaaaaaaaaaaaaaaaaaa"

abbrev repeat : ℕ → ℕ → Text
repeat zero c = []
repeat (suc n) c = c ∷ repeat n c

repeat-All : (n c : ℕ) → IsHex c → All IsHex (repeat n c)
repeat-All zero c h = tt
repeat-All (suc n) c h = (h, repeat-All n c h)

abbrev parity : Text → String
parity m = if length m % 2 == 0 then even else odd

abbrev pub platform : Platform
platform = record { sha256 = parity; isoformat = str }

parity-Digest : (m : Text) → All IsHex (codes (parity m)) × (length (codes (parity m)) ≡ 64)
parity-Digest m = elim (Bool-cases (length m % 2 == 0)) [
  | inl e ↦ rw e (repeat-All 64 48 (inl (omega arith, omega arith)), refl)
  | inr e ↦ rw e (repeat-All 64 97 (inr (omega arith, omega arith)), refl)
]

platform-laws : DigestLaws platform
platform-laws = record { hex = λ m. (parity-Digest m).0; width = λ m. (parity-Digest m).1 }

abbrev pub forwards : Members
forwards = member "b" (number 2) (member "a" (string (codes "案")) empty)

abbrev backwards : Members
backwards = member "a" (string (codes "案")) (member "b" (number 2) empty)

abbrev pub entry : Members → Entry
entry metadata = record {
  event_type = evidence_created;
  resource_type = "evidence";
  operation = "create";
  resource_id = some "v1";
  actor_id = none;
  input_hash = none;
  output_hash = some even;
  metadata = metadata;
}

abbrev pub first : Members → AuditEvent
first metadata = build_event platform "e1" 10 none "c1" (entry metadata)

abbrev pub second : Members → AuditEvent
second metadata = build_event platform "e2" 20 (some (first metadata)) "c1" (entry empty)

abbrev pub chain : Members → List AuditEvent
chain metadata = first metadata ∷ second metadata ∷ []

pub chain-IsLinked : (metadata : Members) → IsLinked platform none (chain metadata)
unfolding build_event event_content
chain-IsLinked metadata = ((refl, refl), ((refl, refl), tt))

tamper_evident_example :
    (map (content platform) (chain forwards) ≡ map (content platform) (chain backwards))
    ⊎ Collision platform (chain forwards) (chain backwards)
unfolding build_event event_content canonical_json dumps print sort_keys str calculate_event_hash
tamper_evident_example =
    tamper_evident platform platform-laws (chain forwards) (chain backwards)
      (chain-IsLinked forwards) (chain-IsLinked backwards) refl

verify-decides_chain_example :
    (((verify_events platform (chain forwards)).valid ≡ true)
      ↔ IsLinked platform none (chain forwards))
    × ((verify_events platform (chain forwards)).event_count ≡ length (chain forwards))
verify-decides_chain_example = verify-decides_chain platform (chain forwards)

abbrev broken : List AuditEvent
broken = first forwards ∷ record (second forwards) { previous_hash = none } ∷ []

verify-names_break_example : BreaksAt platform none broken "e2"
unfolding verify_events first_broken build_event event_content canonical_json dumps print sort_keys
    str calculate_event_hash
verify-names_break_example = verify-names_break platform broken "e2" refl

abbrev pub env : Environment
env = record { fault = λ n. none; uuid = λ n. "e3"; clock = λ n. 30 }

abbrev pub tables : Tables
tables = record { cases = []; evidence = []; audit_events = chain forwards }

abbrev pub world : World
world = record {
  committed = tables;
  current = tables;
  sequence = 0;
  objects = [];
  files = 0;
  closed = 0;
  calls = 0;
  logged = 0;
  unrecorded = 0;
  rollback_errors = 0;
  locals = record { temp_path = false; object_key = none; stored = false };
}

abbrev pub after : Bool → World
after chain_enabled = (append platform env chain_enabled "c1" (entry empty) world).1

abbrev pub added : Option AuditEvent → AuditEvent
added previous = build_event platform "e3" 30 previous "c1" (entry empty)

pub world-IsChronological : IsChronological "c1" world.current
unfolding where_rows precedes build_event
world-IsChronological = ((refl, tt), (tt, tt))

added-IsLatest : (previous : Option AuditEvent) → IsLatest "c1" (added previous) world.current
unfolding where_rows precedes build_event
added-IsLatest previous = (refl, (refl, tt))

world-IsLinked : IsLinked platform none (AuditRepository.list "c1" world.current)
unfolding AuditRepository.list where_rows order_by precedes build_event event_content
world-IsLinked = ((refl, refl), ((refl, refl), tt))

append-extends_chain_example :
    IsLinked platform none (AuditRepository.list "c1" (after true).current)
    × (AuditRepository.list "c1" (after true).current
        ≡ AuditRepository.list "c1" world.current ++ added (some (second forwards)) ∷ [])
    × IsChronological "c1" (after true).current
unfolding append AuditRepository.latest where_rows order_by precedes build_event
append-extends_chain_example =
    append-extends_chain platform env "c1" (entry empty) world (after true)
      (added (some (second forwards))) world-IsChronological
      (added-IsLatest (some (second forwards))) refl world-IsLinked

some_event : AuditRepository.list "c1" world.current ≢ []
unfolding AuditRepository.list where_rows order_by precedes build_event
some_event e = absurd (ground arith)

append-unchained_breaks_example :
    BreaksAt platform none (AuditRepository.list "c1" (after false).current) "e3"
unfolding append build_event
append-unchained_breaks_example =
    append-unchained_breaks platform env "c1" (entry empty) world (after false) (added none)
      world-IsChronological (added-IsLatest none) refl world-IsLinked some_event
