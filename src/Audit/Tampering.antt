-- ===== src/Audit/Tampering.antt =====
-- Two chains that end in the same hash hold the same events, or hold a collision of SHA-256.
use mathlib.Core.List.{Memᴰ, reverse, reverse_aux, reverse-reverse}
use mathlib.Core.Path.{ap₂}
use native.Mathlib.Decide.{ℕ_discrete}
use xieyi.Prelude.{
  ℕ, zero, suc, arith, ◌≡◌, ◌≢◌, ◌⊎◌, refl, ap, sym, ◌∙◌, inl, inr, String, Option, none, some,
  List, [], ◌∷◌, map, Text, codes, codes-inj, str_eq, if◌then◌else◌,
}
use xieyi.Types.{
  AuditEventType, event_type_value, case_created, case_updated, evidence_upload_started,
  evidence_hashed, evidence_stored, evidence_created, evidence_upload_failed, evidence_deleted,
  audit_chain_verified,
}
use xieyi.Json.{Json, null, string, object, Members, empty, member}
use xieyi.Json.Dumps.{sort_members, sort_keys}
use xieyi.Models.{AuditEvent}
use xieyi.Audit.Hashing.{Platform, optional, calculate_event_hash, event_content}
use xieyi.Audit.Chain.{Fits, IsLinked, tip}
use xieyi.Audit.Content.{DigestLaws, IsDigest, material, material-inj}

Text-discrete : Discrete Text
Text-discrete = hlevel ℕ_discrete

module _ (platform : Platform) where
  -- The text whose digest is the event's hash.
  abbrev pub hashed : AuditEvent → Text
  hashed event = material event.previous_hash (event_content platform event)

  -- An event of each list, whose hashed texts differ and have the same digest.
  pub record Collision (xs ys : List AuditEvent) : Type 0 where
    pub x : AuditEvent
    pub y : AuditEvent
    pub of_xs : Memᴰ x xs
    pub of_ys : Memᴰ y ys
    pub differ : hashed x ≢ hashed y
    pub collide : platform.sha256 (hashed x) ≡ platform.sha256 (hashed y)

  later :
      {xs ys : List AuditEvent} (a b : AuditEvent) → Collision xs ys → Collision (a ∷ xs) (b ∷ ys)
  later a b c = record {
    x = c.x;
    y = c.y;
    of_xs = Memᴰ.tail c.of_xs;
    of_ys = Memᴰ.tail c.of_ys;
    differ = c.differ;
    collide = c.collide;
  }

  -- The content that is hashed, with its keys sorted.
  abbrev pub content : AuditEvent → Members
  content event = sort_members (event_content platform event)

  -- Chains with the newest event first.
  abbrev top : List AuditEvent → Option String
  top [] = none
  top (event ∷ older) = some event.event_hash

  abbrev IsStacked : List AuditEvent → Type 0
  IsStacked [] = Unit
  IsStacked (event ∷ older) = Fits platform (top older) event × IsStacked older

  stack-tip :
      (acc events : List AuditEvent) → tip platform (top acc) events ≡ top (reverse_aux events acc)
  stack-tip acc [] = refl
  stack-tip acc (event ∷ events) = stack-tip (event ∷ acc) events

  IsLinked-IsStacked :
      (acc events : List AuditEvent)
      → IsStacked acc
      → IsLinked platform (top acc) events
      → IsStacked (reverse_aux events acc)
  IsLinked-IsStacked acc [] h l = h
  IsLinked-IsStacked acc (event ∷ events) h l = IsLinked-IsStacked (event ∷ acc) events (l.0, h) l.1

  module _ (laws : DigestLaws platform) where
    top-IsDigest : (older : List AuditEvent) → IsStacked older → IsDigest (top older)
    unfolding calculate_event_hash
    top-IsDigest [] h = tt
    top-IsDigest (event ∷ older) h = rw (h.0.1) (laws.hex _, laws.width _)

    same_or_Collision :
        (xs ys : List AuditEvent)
        → IsStacked xs
        → IsStacked ys
        → top xs ≡ top ys
        → (map content xs ≡ map content ys) ⊎ Collision xs ys
    unfolding calculate_event_hash
    same_or_Collision [] [] hx hy e = inl refl
    same_or_Collision [] (y ∷ ys) hx hy e = absurd (ground arith)
    same_or_Collision (x ∷ xs) [] hx hy e = absurd (ground arith)
    same_or_Collision (x ∷ xs) (y ∷ ys) hx hy e =
        let mx = material (top xs) (event_content platform x) in
        let my = material (top ys) (event_content platform y) in
        elim (Text-discrete mx my) [
          | yes same ↦
              let parts =
                material-inj (top xs) (top ys) (event_content platform x) (event_content platform y)
                  (top-IsDigest xs hx.1) (top-IsDigest ys hy.1) same in
              elim (same_or_Collision xs ys hx.1 hy.1 parts.0) [
                | inl older ↦ inl (ap₂ (λ (c : Members) (cs : List Members). c ∷ cs) parts.1 older)
                | inr collision ↦ inr (later x y collision)
              ]
          | no differ ↦
              let material_of : (e : AuditEvent) (p : Option String)
                  → e.previous_hash ≡ p
                  → hashed e ≡ material p (event_content platform e) =
                λ e p q. ap (λ o. material o (event_content platform e)) q in
              let tx = material_of x (top xs) hx.0.0 in
              let ty = material_of y (top ys) hy.0.0 in
              inr (record {
                x = x;
                y = y;
                of_xs = Memᴰ.head refl;
                of_ys = Memᴰ.head refl;
                differ = λ same. differ (sym tx ∙ same ∙ ty);
                collide =
                    ap platform.sha256 tx
                    ∙ sym hx.0.1
                    ∙ ground arith
                    ∙ hy.0.1
                    ∙ sym (ap platform.sha256 ty);
              })
        ]

map-reverse_aux :
    (f : AuditEvent → Members) (xs acc : List AuditEvent)
    → map f (reverse_aux xs acc) ≡ reverse_aux (map f xs) (map f acc)
map-reverse_aux f [] acc = refl
map-reverse_aux f (x ∷ xs) acc = map-reverse_aux f xs (x ∷ acc)

map_of_reverse :
    (f : AuditEvent → Members) (xs ys : List AuditEvent)
    → map f (reverse xs) ≡ map f (reverse ys)
    → map f xs ≡ map f ys
map_of_reverse f xs ys e =
    sym (reverse-reverse (map f xs))
    ∙ ap reverse (sym (map-reverse_aux f xs []) ∙ e ∙ map-reverse_aux f ys [])
    ∙ reverse-reverse (map f ys)

Memᴰ-reverse_aux :
    {x : AuditEvent} (xs acc : List AuditEvent)
    → Memᴰ x (reverse_aux xs acc)
    → Memᴰ x xs ⊎ Memᴰ x acc
Memᴰ-reverse_aux [] acc h = inr h
Memᴰ-reverse_aux (y ∷ xs) acc h = elim (Memᴰ-reverse_aux xs (y ∷ acc) h) [
  | inl t ↦ inl (Memᴰ.tail t)
  | inr (Memᴰ.head e) ↦ inl (Memᴰ.head e)
  | inr (Memᴰ.tail t) ↦ inr t
]

Memᴰ-reverse : {x : AuditEvent} (xs : List AuditEvent) → Memᴰ x (reverse xs) → Memᴰ x xs
Memᴰ-reverse xs h = elim (Memᴰ-reverse_aux xs [] h) [
  | inl t ↦ t
  | inr none_left ↦ elim none_left [ ]
]

-- Let the digests be 64 hexadecimal digits. Two hash chains of a case that end in the same hash have
-- the same contents, event by event, or there is an event of each whose hashed texts differ and have
-- the same digest.
pub tamper_evident :
    (platform : Platform)
    → DigestLaws platform
    → (xs ys : List AuditEvent) → IsLinked platform none xs
    → IsLinked platform none ys
    → tip platform none xs ≡ tip platform none ys
    → (map (content platform) xs ≡ map (content platform) ys) ⊎ Collision platform xs ys
tamper_evident platform laws xs ys hx hy e =
    elim (same_or_Collision platform laws (reverse xs) (reverse ys)
      (IsLinked-IsStacked platform [] xs tt hx) (IsLinked-IsStacked platform [] ys tt hy)
      (sym (stack-tip platform [] xs) ∙ e ∙ stack-tip platform [] ys)) [
        | inl same ↦ inl (map_of_reverse (content platform) xs ys same)
        | inr c ↦ inr (record {
          x = c.x;
          y = c.y;
          of_xs = Memᴰ-reverse xs c.of_xs;
          of_ys = Memᴰ-reverse ys c.of_ys;
          differ = c.differ;
          collide = c.collide;
        })
      ]

-- The value of the n-th member.
abbrev value_at : ℕ → Members → Json
value_at n empty = null
value_at zero (member k v ms) = v
value_at (suc n) (member k v ms) = value_at n ms

string-inj : (a b : String) → string (codes a) ≡ string (codes b) → a ≡ b
string-inj a b h = codes-inj a b (cc)

object-inj : {a b : Members} → object a ≡ object b → a ≡ b
object-inj h = cc

optional-inj : (a b : Option String) → sort_keys (optional a) ≡ sort_keys (optional b) → a ≡ b
unfolding sort_keys
optional-inj none none h = refl
optional-inj (some a) (some b) h = ap some (string-inj a b h)
optional-inj none (some b) h = absurd (ground arith)
optional-inj (some a) none h = absurd (ground arith)

event_type_of : String → AuditEventType
event_type_of s =
    if str_eq s "CASE_CREATED"
    then case_created
    else if str_eq s "CASE_UPDATED"
    then case_updated
    else if str_eq s "EVIDENCE_UPLOAD_STARTED"
    then evidence_upload_started
    else if str_eq s "EVIDENCE_HASHED"
    then evidence_hashed
    else if str_eq s "EVIDENCE_STORED"
    then evidence_stored
    else if str_eq s "EVIDENCE_CREATED"
    then evidence_created
    else if str_eq s "EVIDENCE_UPLOAD_FAILED"
    then evidence_upload_failed
    else if str_eq s "EVIDENCE_DELETED"
    then evidence_deleted
    else audit_chain_verified

event_type_of-value : (t : AuditEventType) → event_type_of (event_type_value t) ≡ t
unfolding event_type_of
event_type_of-value case_created = refl
event_type_of-value _ = refl

event_type-inj : (a b : AuditEventType) → event_type_value a ≡ event_type_value b → a ≡ b
event_type-inj a b h = cc (event_type_of-value a, event_type_of-value b, ap event_type_of h)

-- Events with equal contents have equal fields, all but the two hashes: the metadata up to the order
-- of its keys, and the time by its text.
pub content-fields :
    (platform : Platform) (e f : AuditEvent)
    → content platform e ≡ content platform f
    → (e.id ≡ f.id)
      × (e.case_id ≡ f.case_id)
      × (e.event_type ≡ f.event_type)
      × (e.actor_id ≡ f.actor_id)
      × (e.resource_type ≡ f.resource_type)
      × (e.resource_id ≡ f.resource_id)
      × (e.operation ≡ f.operation)
      × (e.input_hash ≡ f.input_hash)
      × (e.output_hash ≡ f.output_hash)
      × (sort_members e.metadata_json ≡ sort_members f.metadata_json)
      × (platform.isoformat e.created_at ≡ platform.isoformat f.created_at)
unfolding sort_members sort_keys event_content
content-fields platform e f h = (
  string-inj e.id f.id (ap (value_at 4) h),
  optional-inj e.case_id f.case_id (ap (value_at 1) h),
  event_type-inj e.event_type f.event_type (string-inj _ _ (ap (value_at 3) h)),
  optional-inj e.actor_id f.actor_id (ap (value_at 0) h),
  string-inj e.resource_type f.resource_type (ap (value_at 10) h),
  optional-inj e.resource_id f.resource_id (ap (value_at 9) h),
  string-inj e.operation f.operation (ap (value_at 7) h),
  optional-inj e.input_hash f.input_hash (ap (value_at 5) h),
  optional-inj e.output_hash f.output_hash (ap (value_at 8) h),
  object-inj (ap (value_at 6) h),
  string-inj _ _ (ap (value_at 2) h),
)
