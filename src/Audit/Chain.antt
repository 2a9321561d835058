-- ===== src/Audit/Chain.antt =====
-- What `verify` decides: that the events of a case form a hash chain.
use xieyi.Prelude.{
  ◌≡◌, refl, ◌↔◌, ◌⊎◌, inl, inr, String, true, Option, none, some, List, [], ◌∷◌, ◌++◌, arith,
  str_eq, eq_iff, length, Option-cases, Bool-cases, ap,
}
use xieyi.Models.{Uuid, AuditEvent}
use xieyi.Audit.Hashing.{Platform, calculate_event_hash, event_content}
use xieyi.Audit.Service.{optional_eq, first_broken, verify_events}

pub optional_eq_iff : (a b : Option String) → (optional_eq a b ≡ true) ↔ (a ≡ b)
optional_eq_iff none none = ground arith
optional_eq_iff (some a) (some b) = ground (arith, eq_iff a b)
optional_eq_iff none (some b) = ground arith
optional_eq_iff (some a) none = ground arith

module _ (platform : Platform) where
  -- An event carries the hash of the event before it, and its own.
  abbrev pub Fits : Option String → AuditEvent → Type 0
  Fits previous event =
      (event.previous_hash ≡ previous)
      × (event.event_hash ≡ calculate_event_hash platform previous (event_content platform event))

  abbrev pub IsLinked : Option String → List AuditEvent → Type 0
  IsLinked previous [] = Unit
  IsLinked previous (event ∷ events) = Fits previous event × IsLinked (some event.event_hash) events

  -- The hash that the next event has to carry.
  abbrev pub tip : Option String → List AuditEvent → Option String
  tip previous [] = previous
  tip previous (event ∷ events) = tip (some event.event_hash) events

  -- `event` is the first one that does not fit.
  pub record BreaksAt (previous : Option String) (events : List AuditEvent) (id : Uuid)
      : Type 0 where
    pub before : List AuditEvent
    pub event : AuditEvent
    pub after : List AuditEvent
    pub split : events ≡ before ++ event ∷ after
    pub linked_before : IsLinked previous before
    pub unfit : ¬ Fits (tip previous before) event
    pub id_eq : id ≡ event.id

  pub first_broken-none :
      (previous : Option String) (events : List AuditEvent)
      → (first_broken platform previous events ≡ none) ↔ IsLinked previous events
  unfolding first_broken
  first_broken-none previous [] = ground arith
  first_broken-none previous (event ∷ events) =
      let expected = calculate_event_hash platform previous (event_content platform event) in
      ground (
        arith,
        optional_eq_iff event.previous_hash previous,
        eq_iff event.event_hash expected,
        first_broken-none (some event.event_hash) events,
      )

  Fits-cases :
      (previous : Option String) (event : AuditEvent)
      → Fits previous event ⊎ (¬ Fits previous event)
  Fits-cases previous event =
      let expected = calculate_event_hash platform previous (event_content platform event) in
      elim (Bool-cases (optional_eq event.previous_hash previous)) [
        | inl same ↦ elim (Bool-cases (str_eq event.event_hash expected)) [
          | inl hashed ↦ inl (
            (optional_eq_iff event.previous_hash previous).0 same,
            (eq_iff event.event_hash expected).0 hashed,
          )
          | inr wrong ↦ inr (λ f. cc ((eq_iff event.event_hash expected).1 f.1))
        ]
        | inr other ↦ inr (λ f. cc ((optional_eq_iff event.previous_hash previous).1 f.0))
      ]

  BreaksAt-cons :
      {previous : Option String} (event : AuditEvent) {events : List AuditEvent} {id : Uuid}
      → Fits previous event
      → BreaksAt (some event.event_hash) events id
      → BreaksAt previous (event ∷ events) id
  BreaksAt-cons event f b = record {
    before = event ∷ b.before;
    event = b.event;
    after = b.after;
    split = ap (λ es. event ∷ es) b.split;
    linked_before = (f, b.linked_before);
    unfit = b.unfit;
    id_eq = b.id_eq;
  }

  -- The id that `verify` reports is that of the first event that does not fit.
  pub first_broken-some :
      (previous : Option String) (events : List AuditEvent) (id : Uuid)
      → first_broken platform previous events ≡ some id
      → BreaksAt previous events id
  unfolding first_broken
  first_broken-some previous [] id h = absurd (ground arith)
  first_broken-some previous (event ∷ events) id h =
      let expected = calculate_event_hash platform previous (event_content platform event) in
      elim (Fits-cases previous event) [
        | inl f ↦ BreaksAt-cons event f (
            first_broken-some (some event.event_hash) events id (
              ground (
                arith,
                optional_eq_iff event.previous_hash previous,
                eq_iff event.event_hash expected,
              )))
        | inr unfit ↦ record {
          before = [];
          event = event;
          after = events;
          split = refl;
          linked_before = tt;
          unfit = unfit;
          id_eq = ground (
            arith,
            optional_eq_iff event.previous_hash previous,
            eq_iff event.event_hash expected,
          );
        }
      ]

  valid-IsLinked :
      (events : List AuditEvent)
      → ((verify_events platform events).valid ≡ true) ↔ IsLinked none events
  unfolding verify_events
  valid-IsLinked events = elim (Option-cases (first_broken platform none events)) [
    | inl e ↦ rw e (λ _. (first_broken-none none events).0 e, λ _. refl)
    | inr (id, e) ↦ rw e (λ v. cc, λ linked. cc ((first_broken-none none events).1 linked))
  ]

  counts_events :
      (events : List AuditEvent) → (verify_events platform events).event_count ≡ length events
  unfolding verify_events
  counts_events events = ground arith

  -- The verdict on a list of events is valid exactly if they form a hash chain, and it counts them
  -- all.
  pub verify-decides_chain :
      (events : List AuditEvent)
      → (((verify_events platform events).valid ≡ true) ↔ IsLinked none events)
        × ((verify_events platform events).event_count ≡ length events)
  verify-decides_chain events = (valid-IsLinked events, counts_events events)

  -- If the verdict names a broken event, the events before it form a hash chain, and it is the first
  -- one that does not fit.
  pub verify-names_break :
      (events : List AuditEvent) (id : Uuid)
      → (verify_events platform events).broken_event_id ≡ some id
      → BreaksAt none events id
  unfolding verify_events
  verify-names_break events id h = first_broken-some none events id (ground arith)
