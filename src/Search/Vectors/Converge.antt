-- ===== src/Search/Vectors/Converge.antt =====
-- Concurrent calls of `semanticVectors` for one text, in any order of their steps, with a store that
-- answers and whose entry does not expire.
use mathlib.Core.Path.{subst}
use app_catalogo.Common.{
  ℕ, String, ◌≡◌, refl, sym, ◌⊎◌, Bool, true, false, Option, none, some, List, [], ◌∷◌, ◌==◌,
  Bool-cases, inl, inr, if◌then◌else◌,
}
use app_catalogo.Common.Go.{Result, ok, err, Error, message}
use app_catalogo.Search.Vectors.{
  SearchVectors, generate_search_vectors, Phase, asking, generating, storing, rereading, returned,
  gave_up, is_usable, on_first_get, on_generated, on_set_nx, on_second_get,
}

-- The store's entry for the text, and the phase of each call.
pub record World : Type 0 where
  pub stored : Option SearchVectors
  pub phase : ℕ → Phase

unfoldable pub get : Option SearchVectors → Result Error SearchVectors
get none = err (message "miss")
get (some v) = ok v

-- SetNX: whether it stored, and the entry after it.
unfoldable pub set_nx : Option SearchVectors → SearchVectors → Bool × Option SearchVectors
set_nx none v = (true, some v)
set_nx (some w) v = (false, some w)

-- One step of a call with its generated vectors: the phase and the entry after it.
unfoldable pub step :
    Result Error SearchVectors → Phase → Option SearchVectors → Phase × Option SearchVectors
unfolding get set_nx
step generated asking stored = (on_first_get (get stored), stored)
step generated generating stored = (on_generated generated, stored)
step generated (storing v) stored =
    let (fresh, after) = set_nx stored v in (on_set_nx (ok fresh) v, after)
step generated (rereading v) stored = (on_second_get (get stored) v, stored)
step generated (returned v) stored = (returned v, stored)
step generated (gave_up e) stored = (gave_up e, stored)

abbrev pub update : (ℕ → Phase) → ℕ → Phase → ℕ → Phase
update phase i p j = if j == i then p else phase j

unfoldable pub advance : (ℕ → Result Error SearchVectors) → ℕ → World → World
advance gen i w =
    let (p, stored) = step (gen i) (w.phase i) w.stored in
    record { stored = stored; phase = update w.phase i p }

-- The calls take their steps in any order.
unfoldable pub run : (ℕ → Result Error SearchVectors) → List ℕ → World → World
run gen [] w = w
run gen (i ∷ schedule) w = run gen schedule (advance gen i w)

abbrev pub all_asking : Option SearchVectors → World
all_asking stored = record { stored = stored; phase = λ i. asking }

-- An entry that is there counts.
abbrev pub Usable : Option SearchVectors → Type 0
Usable none = Unit
Usable (some v) = is_usable v ≡ true

-- What holds of a call, given the entry.
abbrev Agrees : Option SearchVectors → Phase → Type 0
Agrees stored asking = Unit
Agrees stored generating = Unit
Agrees stored (storing v) = is_usable v ≡ true
Agrees stored (rereading v) = (w : SearchVectors) × (stored ≡ some w)
Agrees stored (returned v) = stored ≡ some v
Agrees stored (gave_up e) = Unit

record Converges (w : World) : Type 0 where
  pub entry : Usable w.stored
  pub calls : (i : ℕ) → Agrees w.stored (w.phase i)

-- What is generated counts.
abbrev Sound : Result Error SearchVectors → Type 0
Sound (err e) = Unit
Sound (ok v) = is_usable v ≡ true

generate-Sound : (query hyde : Result Error String) → Sound (generate_search_vectors query hyde)
unfolding generate_search_vectors
generate-Sound (err e) hyde = tt
generate-Sound (ok String.[]) hyde = tt
generate-Sound (ok (String.◌∷◌ c s)) (err e) = refl
generate-Sound (ok (String.◌∷◌ c s)) (ok h) = refl

-- An entry, once there, stays.
abbrev Grows : Option SearchVectors → Option SearchVectors → Type 0
Grows before after = (after ≡ before) ⊎ (before ≡ none)

Agrees-Grows :
    (before after : Option SearchVectors) (p : Phase)
    → Grows before after
    → Agrees before p
    → Agrees after p
Agrees-Grows before after p (inl same) h = subst (λ o. Agrees o p) (sym same) h
Agrees-Grows before after asking (inr empty) h = tt
Agrees-Grows before after generating (inr empty) h = tt
Agrees-Grows before after (storing v) (inr empty) h = h
Agrees-Grows before after (rereading v) (inr empty) (w, h) = absurd (cc (empty, h))
Agrees-Grows before after (returned v) (inr empty) h = absurd (cc (empty, h))
Agrees-Grows before after (gave_up e) (inr empty) h = tt

step-Agrees :
    (generated : Result Error SearchVectors) (p : Phase) (stored : Option SearchVectors)
    → Sound generated
    → Usable stored
    → Agrees stored p
    → Agrees (step generated p stored).1 (step generated p stored).0
      × Usable (step generated p stored).1
      × Grows stored (step generated p stored).1
unfolding step on_first_get on_generated on_set_nx on_second_get
step-Agrees generated asking none g u h = (tt, tt, inl refl)
step-Agrees generated asking (some v) g u h =
    let read : Agrees (some v) (on_first_get (ok v)) = rw u refl in (read, u, inl refl)
step-Agrees (err e) generating stored g u h = (tt, u, inl refl)
step-Agrees (ok v) generating stored g u h = (g, u, inl refl)
step-Agrees generated (storing v) none g u h = (refl, h, inr refl)
step-Agrees generated (storing v) (some w) g u h = ((w, refl), u, inl refl)
step-Agrees generated (rereading v) none g u (w, h) = absurd (cc h)
step-Agrees generated (rereading v) (some x) g u (w, h) =
    let read : Agrees (some x) (on_second_get (ok x) v) = rw u refl in (read, u, inl refl)
step-Agrees generated (returned v) stored g u h = (h, u, inl refl)
step-Agrees generated (gave_up e) stored g u h = (tt, u, inl refl)

advance-Converges :
    (gen : ℕ → Result Error SearchVectors) (i : ℕ) (w : World)
    → Sound (gen i)
    → Converges w
    → Converges (advance gen i w)
unfolding advance
advance-Converges gen i w g c =
    let (agrees, usable, grows) = step-Agrees (gen i) (w.phase i) w.stored g c.entry (c.calls i) in
    let after = step (gen i) (w.phase i) w.stored in
    record {
      entry = usable;
      calls = λ j. elim (Bool-cases (j == i)) [
        | inl same ↦ rw same agrees
        | inr other ↦ rw other (Agrees-Grows w.stored after.1 (w.phase j) grows (c.calls j))
      ];
    }

run-Converges :
    (gen : ℕ → Result Error SearchVectors) (schedule : List ℕ) (w : World)
    → ((i : ℕ) → Sound (gen i))
    → Converges w
    → Converges (run gen schedule w)
unfolding run
run-Converges gen [] w g c = c
run-Converges gen (i ∷ schedule) w g c =
    run-Converges gen schedule (advance gen i w) g (advance-Converges gen i w (g i) c)

same_returned :
    (stored : Option SearchVectors) (p q : Phase) (v w : SearchVectors)
    → Agrees stored p
    → Agrees stored q
    → p ≡ returned v
    → q ≡ returned w
    → v ≡ w
same_returned stored p q v w h k e f =
    let first : stored ≡ some v = subst (Agrees stored) e h in
    let second : stored ≡ some w = subst (Agrees stored) f k in cc

-- Two calls for the same text that return have returned the same vectors, whatever the encoder
-- generated for each and whatever the order in which the calls read and wrote the store, as long as
-- the store answers and its entry, if it had one, is usable and does not expire: every page of a
-- search uses the same vectors.
pub semantic_vectors_agree :
    (query hyde : ℕ → Result Error String) (schedule : List ℕ) (stored : Option SearchVectors)
    (i j : ℕ) (v w : SearchVectors)
    → Usable stored
    → (run (λ k. generate_search_vectors (query k) (hyde k)) schedule (all_asking stored)).phase i
      ≡ returned v
    → (run (λ k. generate_search_vectors (query k) (hyde k)) schedule (all_asking stored)).phase j
      ≡ returned w
    → v ≡ w
semantic_vectors_agree query hyde schedule stored i j v w u e f =
    let gen = λ (k : ℕ). generate_search_vectors (query k) (hyde k) in
    let c =
      run-Converges gen schedule (all_asking stored) (λ k. generate-Sound (query k) (hyde k))
        (record { entry = u; calls = λ k. tt }) in
    let end = run gen schedule (all_asking stored) in
    same_returned end.stored (end.phase i) (end.phase j) v w (c.calls i) (c.calls j) e f
