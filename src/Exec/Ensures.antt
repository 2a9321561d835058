-- ===== src/Exec/Ensures.antt =====
-- Rules for pre- and postconditions of an action, in the terms of what is seen of its state.
use xieyi.Prelude.{◌≡◌, refl, sym, ap, subst, ◌∙◌, Bool, true, false, if◌then◌else◌}
use xieyi.Errors.{Exception, Result, ok, err}
use xieyi.Exec.{Exec, pure, raise, lift, gets, modify, ◌>>=◌, except, finally, caught}
use xieyi.Exec.Calm.{Calm}

-- How an action ended: `Q` holds of its value and of what is seen of the
-- state, or `G` of this at a raise.
abbrev pub Post : {V A : Type 0} → (A → V → Type 0) → (V → Type 0) → Result A → V → Type 0
Post Q G (ok a) l = Q a l
Post Q G (err e) l = G l

-- From a state that is seen as `l` the action ends as `Post` says.
pub record Ensures {S V A : Type 0} (view : S → V) (l : V) (m : Exec S A) (Q : A → V → Type 0)
    (G : V → Type 0) : Type 0 where
  pub at : (w : S) → view w ≡ l → Post Q G (m w).0 (view (m w).1)

Post-rest :
    {S V A B : Type 0} (view : S → V) {Q : A → V → Type 0} {T : B → V → Type 0} {G : V → Type 0}
    (r : Result A) (f : A → Exec S B) (w : S)
    → ((a : A) (l' : V) → Q a l' → Ensures view l' (f a) T G)
    → Post Q G r (view w)
    → Post T G ((lift r >>= f) w).0 (view ((lift r >>= f) w).1)
Post-rest view (ok a) f w k h = (k a (view w) h).at w refl
Post-rest view (err e) f w k h = h

pub Ensures-bind :
    {S V A B : Type 0} {view : S → V} {l : V} {m : Exec S A} {f : A → Exec S B} {Q : A → V → Type 0}
    {T : B → V → Type 0} {G : V → Type 0}
    → Ensures view l m Q G
    → ((a : A) (l' : V) → Q a l' → Ensures view l' (f a) T G)
    → Ensures view l (m >>= f) T G
Ensures-bind {view = view} {m = m} {f = f} h k = record {
  at = λ w e. Post-rest view (m w).0 f (m w).1 k (h.at w e);
}

Post-calm :
    {V A : Type 0} (G : V → Type 0) (l l' : V) (r : Result A)
    → l' ≡ l
    → G l
    → Post (λ _ k. k ≡ l) G r l'
Post-calm G l l' (ok a) e g = e
Post-calm G l l' (err x) e g = subst G (sym e) g

pub Calm-Ensures :
    {S V A : Type 0} {view : S → V} {l : V} {m : Exec S A} {G : V → Type 0}
    → Calm view m
    → G l
    → Ensures view l m (λ _ k. k ≡ l) G
Calm-Ensures {view = view} {l = l} {m = m} {G = G} c g = record {
  at = λ w e. Post-calm G l (view (m w).1) (m w).0 (c.same w ∙ e) g;
}

pub at_view :
    {S V A : Type 0} {view : S → V} {l l' : V} {m : Exec S A} {Q : A → V → Type 0} {G : V → Type 0}
    → l' ≡ l
    → Ensures view l m Q G
    → Ensures view l' m Q G
at_view {view = view} {m = m} {Q = Q} {G = G} e h = subst (λ k. Ensures view k m Q G) (sym e) h

-- Behind a calm action the state is seen as before it.
pub calmly :
    {S V A B : Type 0} {view : S → V} {l : V} {m : Exec S A} {f : A → Exec S B} {T : B → V → Type 0}
    {G : V → Type 0}
    → Calm view m
    → G l
    → ((a : A) → Ensures view l (f a) T G)
    → Ensures view l (m >>= f) T G
calmly {view = view} {f = f} {T = T} {G = G} c g k =
    Ensures-bind (Calm-Ensures c g) (λ a l' e. subst (λ x. Ensures view x (f a) T G) (sym e) (k a))

-- Behind a step that moves what is seen to `l'`.
pub moving :
    {S V A B : Type 0} {view : S → V} {l l' : V} {m : Exec S A} {f : A → Exec S B}
    {T : B → V → Type 0} {G : V → Type 0}
    → Ensures view l m (λ _ k. k ≡ l') G
    → ((a : A) → Ensures view l' (f a) T G)
    → Ensures view l (m >>= f) T G
moving {view = view} {f = f} {T = T} {G = G} h k =
    Ensures-bind h (λ a l'' e. subst (λ x. Ensures view x (f a) T G) (sym e) (k a))

-- A change of the state that is a change `g` of what is seen.
pub modify-Ensures :
    {S V : Type 0} {view : S → V} {l : V} {G : V → Type 0} {f : S → S} (g : V → V)
    → ((w : S) → view (f w) ≡ g (view w))
    → Ensures view l (modify f) (λ _ k. k ≡ g l) G
modify-Ensures g law = record { at = λ w e. law w ∙ ap g e }

pub pure-Ensures :
    {S V A : Type 0} {view : S → V} {l : V} {G : V → Type 0} (a : A)
    → Ensures view l (pure a) (λ b k. (b ≡ a) × (k ≡ l)) G
pure-Ensures a = record { at = λ w e. (refl, e) }

-- A read `f` of the state that is a read `g` of what is seen.
pub gets-Ensures :
    {S V A : Type 0} {view : S → V} {l : V} {G : V → Type 0} {f : S → A} (g : V → A)
    → ((w : S) → f w ≡ g (view w))
    → Ensures view l (gets f) (λ a k. (a ≡ g l) × (k ≡ l)) G
gets-Ensures g law = record { at = λ w e. (law w ∙ ap g e, e) }

pub lift-Ensures :
    {S V A : Type 0} {view : S → V} {l : V} {G : V → Type 0} (r : Result A)
    → G l
    → Ensures view l (lift r) (λ a k. (r ≡ ok a) × (k ≡ l)) G
lift-Ensures (ok a) g = record { at = λ w e. (refl, e) }
lift-Ensures {G = G} (err x) g = record { at = λ w e. subst G (sym e) g }

pub raise-Ensures :
    {S V A : Type 0} {view : S → V} {l : V} {Q : A → V → Type 0} {G : V → Type 0} (e : Exception)
    → G l
    → Ensures view l (raise e) Q G
raise-Ensures {G = G} e g = record { at = λ w h. subst G (sym h) g }

pub if-Ensures :
    {S V A : Type 0} {view : S → V} {l : V} {Q : A → V → Type 0} {G : V → Type 0} {m n : Exec S A}
    (b : Bool)
    → Ensures view l m Q G
    → Ensures view l n Q G
    → Ensures view l (if b then m else n) Q G
if-Ensures true h k = h
if-Ensures false h k = k

pub weaken :
    {S V A : Type 0} {view : S → V} {l : V} {m : Exec S A} {Q Q' : A → V → Type 0}
    {G G' : V → Type 0}
    → Ensures view l m Q G
    → ((a : A) (k : V) → Q a k → Q' a k)
    → ((k : V) → G k → G' k)
    → Ensures view l m Q' G'
weaken {V = O} {A = A} {view = view} {m = m} {Q = Q} {Q' = Q'} {G = G} {G' = G'} h q g = record {
  at = λ w e. go (m w).0 (view (m w).1) (h.at w e);
}
  where
    go : (r : Result A) (k : O) → Post Q G r k → Post Q' G' r k
    go (ok a) k p = q a k p
    go (err e) k p = g k p

caught-Post :
    {S V A : Type 0} (view : S → V) {Q : A → V → Type 0} {G G' : V → Type 0}
    (handler : Exception → Exec S A) (r : Result A) (w : S)
    → ((e : Exception) (k : V) → G k → Ensures view k (handler e) Q G')
    → Post Q G r (view w)
    → Post Q G' (caught handler r w).0 (view (caught handler r w).1)
caught-Post view handler (ok a) w h p = p
caught-Post view handler (err e) w h p = (h e (view w) p).at w refl

pub except-Ensures :
    {S V A : Type 0} {view : S → V} {l : V} {m : Exec S A} {handler : Exception → Exec S A}
    {Q : A → V → Type 0} {G G' : V → Type 0}
    → Ensures view l m Q G
    → ((e : Exception) (k : V) → G k → Ensures view k (handler e) Q G')
    → Ensures view l (except m handler) Q G'
except-Ensures {view = view} {m = m} {handler = handler} h k = record {
  at = λ w e. caught-Post view handler (m w).0 (m w).1 k (h.at w e);
}

-- A cleanup in a `finally` that changes what is seen by `g`.
pub finally-Ensures :
    {S V A : Type 0} {view : S → V} {l : V} {m : Exec S A} {Q Q' : A → V → Type 0}
    {G G' : V → Type 0} (cleanup : S → S) (g : V → V)
    → ((w : S) → view (cleanup w) ≡ g (view w))
    → Ensures view l m Q G
    → ((a : A) (k : V) → Q a k → Q' a (g k))
    → ((k : V) → G k → G' (g k))
    → Ensures view l (finally m cleanup) Q' G'
finally-Ensures {S = S} {A = A} {view = view} {m = m} {Q = Q} {Q' = Q'} {G = G} {G' = G'} cleanup g
      law h q p =
    record { at = λ w e. go (m w).0 (m w).1 (h.at w e) }
  where
    go : (r : Result A) (w : S) → Post Q G r (view w) → Post Q' G' r (view (cleanup w))
    go (ok a) w k = subst (Q' a) (sym (law w)) (q a (view w) k)
    go (err e) w k = subst G' (sym (law w)) (p (view w) k)
