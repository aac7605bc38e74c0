-- ===== src/Sources/Registry.antt =====
-- The registry of the sources and the manual triggers.
use app_catalogo.Common.{
  String, ◌≡◌, refl, ap, ◌⊎◌, inl, inr, Bool, true, ◌||◌, Option, none, some, List, [], ◌∷◌, ◌++◌,
  map, str_eq, eq_iff, if◌then◌else◌, All, or_elim, or_intro, Bool-cases,
}
use app_catalogo.Sources.Mode.{SyncMode, sync_mode_delta}
use app_catalogo.Sources.Policy.{RetryPolicy, default_retry_policy, normalized}

-- What the manager asks of a source: its name, its kind, and whether it has a full synchronisation.
pub record DataSource : Type 0 where
  pub name : String
  pub source : String
  pub full_syncer : Bool

pub record Manager : Type 0 where
  pub sources : List DataSource
  pub retry : RetryPolicy

unfoldable pub with_retry_policy : RetryPolicy → Manager → Manager
with_retry_policy p m = record m { retry = normalized p }

abbrev with_options : List RetryPolicy → Manager → Manager
with_options [] m = m
with_options (p ∷ ps) m = with_options ps (with_retry_policy p m)

-- `NewManager`; each option is a `WithRetryPolicy`.
unfoldable pub new_manager : List RetryPolicy → Manager
new_manager options =
    with_options options (record { sources = []; retry = normalized default_retry_policy })

unfoldable pub register : DataSource → Manager → Manager
register s m = record m { sources = m.sources ++ s ∷ [] }

unfoldable pub source_names : Manager → List String
source_names m = map (λ (s : DataSource). s.name) m.sources

unfoldable pub is_named : String → DataSource → Bool
is_named n s = str_eq s.name n || str_eq s.source n

unfoldable pub first_named : String → List DataSource → Option DataSource
first_named n [] = none
first_named n (s ∷ sources) =
    let rest = first_named n sources in if is_named n s then some s else rest

-- `TriggerSyncMode`: the source whose synchronisation it starts; `none` is false.
unfoldable pub trigger_sync_mode : Manager → String → SyncMode → Option (DataSource × SyncMode)
trigger_sync_mode m n mode = elim (first_named n m.sources) [
  | none ↦ none
  | some s ↦ some (s, mode)
]

-- `TriggerSync`
unfoldable pub trigger_sync : Manager → String → Option (DataSource × SyncMode)
trigger_sync m n = trigger_sync_mode m n sync_mode_delta

-- `TriggerAllMode`: the synchronisations that it starts.
unfoldable pub trigger_all_mode : Manager → SyncMode → List (DataSource × SyncMode)
trigger_all_mode m mode = map (λ s. (s, mode)) m.sources

-- The source has the name, as its own or as its kind.
abbrev pub Named : String → DataSource → Type 0
Named n s = (s.name ≡ n) ⊎ (s.source ≡ n)

Named-sound : (n : String) (s : DataSource) → is_named n s ≡ true → Named n s
unfolding is_named
Named-sound n s h = elim (or_elim (str_eq s.name n) (str_eq s.source n) h) [
  | inl e ↦ inl ((eq_iff s.name n).0 e)
  | inr e ↦ inr ((eq_iff s.source n).0 e)
]

Named-complete : (n : String) (s : DataSource) → Named n s → is_named n s ≡ true
unfolding is_named
Named-complete n s (inl e) =
    or_intro (str_eq s.name n) (str_eq s.source n) (inl ((eq_iff s.name n).1 e))
Named-complete n s (inr e) =
    or_intro (str_eq s.name n) (str_eq s.source n) (inr ((eq_iff s.source n).1 e))

-- The first source of a list that has the name, if any.
abbrev pub IsFirst : String → List DataSource → Option DataSource → Type 0
IsFirst n sources none = All (λ s. ¬ Named n s) sources
IsFirst n sources (some s) =
    (before : List DataSource) × (after : List DataSource) × (sources ≡ before ++ s ∷ after)
    × All (λ x. ¬ Named n x) before
    × Named n s

first_named-IsFirst :
    (n : String) (sources : List DataSource) → IsFirst n sources (first_named n sources)
unfolding first_named
first_named-IsFirst n [] = tt
first_named-IsFirst n (s ∷ sources) = elim (Bool-cases (is_named n s)) [
  | inl here ↦ rw here ([], sources, refl, tt, Named-sound n s here)
  | inr skip ↦ rw skip (
      past n s sources (first_named n sources) (λ h. cc (Named-complete n s h, skip))
        (first_named-IsFirst n sources))
]
  where
    past :
        (n : String) (s : DataSource) (sources : List DataSource) (o : Option DataSource)
        → ¬ Named n s
        → IsFirst n sources o
        → IsFirst n (s ∷ sources) o
    past n s sources none other h = (other, h)
    past n s sources (some x) other (before, after, e, h, named) =
        (s ∷ before, after, ap (λ l. s ∷ l) e, (other, h), named)

-- What fits an answer of a trigger.
abbrev pub Starts : Manager → String → SyncMode → Option (DataSource × SyncMode) → Type 0
Starts m n mode none = IsFirst n m.sources none
Starts m n mode (some (s, started)) = IsFirst n m.sources (some s) × (started ≡ mode)

-- A manual trigger starts nothing where no source has the name, as its own or as its kind; else it
-- starts one synchronisation, in the mode asked for, of the first registered source that has it.
pub trigger_sync_mode-Starts :
    (m : Manager) (n : String) (mode : SyncMode) → Starts m n mode (trigger_sync_mode m n mode)
unfolding trigger_sync_mode
trigger_sync_mode-Starts m n mode =
    chosen (first_named n m.sources) (first_named-IsFirst n m.sources)
  where
    chosen :
        (o : Option DataSource)
        → IsFirst n m.sources o
        → Starts m n mode (elim o [ none ↦ none | some s ↦ some (s, mode) ])
    chosen none h = h
    chosen (some s) h = (h, refl)
