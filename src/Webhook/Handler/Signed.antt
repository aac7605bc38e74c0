-- ===== src/Webhook/Handler/Signed.antt =====
-- What reaches the queue through the endpoint.
use app_catalogo.Common.{
  String, ◌≡◌, ◌≢◌, ◌≤◌, refl, sym, ◌∙◌, ◌⊎◌, inl, inr, false, Option, none, some, ltb, str_eq,
  eq_iff, arith, Bool-cases,
}
use app_catalogo.Common.Text.{is_empty, trim_space, rune_count}
use app_catalogo.Webhook.Service.Config.{WebhookConfig}
use app_catalogo.Webhook.Service.{State, enqueue}
use app_catalogo.Webhook.Handler.{
  Payload, Libraries, Body, read, too_large, unreadable, Call, Reply, validate_hmac, has_control,
  chosen_slug, answer, store, check_slug, decode, check_signature, sales_force, maximum_slug_chars,
}

-- The request changed nothing and started nothing.
abbrev pub Refused : State → Reply → Type 0
Refused s r = (r.state ≡ s) × (r.started ≡ none)

-- A slug that fits the column and has no control character.
abbrev pub IsSlug : String → Type 0
IsSlug slug = (slug ≢ "") × (rune_count slug ≤ maximum_slug_chars) × (has_control slug ≡ false)

-- The body was signed with the secret, and what it names was handed to the service's queue.
abbrev pub Admitted :
    Libraries → Call → Option WebhookConfig → String → String → Body → State → Reply → Type 0
Admitted l c events secret header body s r =
    (text : String) × (cfg : WebhookConfig) × (p : Payload) × (body ≡ read text)
    × (events ≡ some cfg)
    × (l.to_lower (trim_space header) ≡ l.hmac_hex secret text)
    × (l.unmarshal text ≡ some p)
    × IsSlug (chosen_slug p)
    × (r
        ≡ answer (
            enqueue c.hashing cfg c.now c.nonce c.nonce_error c.store_error text (chosen_slug p)
              p.event_type p.event_created s))

empty_sound : (s : String) → is_empty s ≡ false → s ≢ ""
empty_sound String.[] h = cc
empty_sound (String.◌∷◌ c s) h = λ e. cc

module _ (c : Call) (body : String) (p : Payload) (s : State) where
  store_cases :
      (events : Option WebhookConfig) (slug : String)
      → Refused s (store c events body p slug s)
        ⊎ ((cfg : WebhookConfig) × (events ≡ some cfg)
            × (store c events body p slug s
                ≡ answer (
                    enqueue c.hashing cfg c.now c.nonce c.nonce_error c.store_error body slug
                      p.event_type p.event_created s)))
  unfolding store
  store_cases none slug = inl (refl, refl)
  store_cases (some cfg) slug = inr (cfg, refl, refl)

  IsSlug-cases :
      (events : Option WebhookConfig) (slug : String)
      → Refused s (check_slug c events body p slug s)
        ⊎ (IsSlug slug × (check_slug c events body p slug s ≡ store c events body p slug s))
  unfolding check_slug
  IsSlug-cases events slug = elim (Bool-cases (is_empty slug)) [
    | inl empty ↦ inl (rw empty (refl, refl))
    | inr some_slug ↦ elim (Bool-cases (ltb maximum_slug_chars (rune_count slug))) [
      | inl long ↦ inl (rw (some_slug, long) (refl, refl))
      | inr fits ↦ elim (Bool-cases (has_control slug)) [
        | inl control ↦ inl (rw (some_slug, fits, control) (refl, refl))
        | inr plain ↦
            inr
              ((empty_sound slug some_slug, ground arith, plain), rw (some_slug, fits, plain) refl)
      ]
    ]
  ]

module _ (l : Libraries) (c : Call) (events : Option WebhookConfig) (secret header : String)
    (s : State) where
  decode_cases :
      (text : String) (o : Option Payload)
      → l.to_lower (trim_space header) ≡ l.hmac_hex secret text
      → l.unmarshal text ≡ o
      → Refused s (decode l c events text o s)
        ⊎ Admitted l c events secret header (read text) s (decode l c events text o s)
  unfolding decode
  decode_cases text none signed parsed = inl (refl, refl)
  decode_cases text (some p) signed parsed = elim (IsSlug-cases c text p s events (chosen_slug p)) [
    | inl refused ↦ inl refused
    | inr (is_slug, same) ↦ elim (store_cases c text p s events (chosen_slug p)) [
      | inl refused ↦ inl (rw same refused)
      | inr (cfg, given, stored) ↦
          inr (text, cfg, p, refl, given, signed, parsed, is_slug, same ∙ stored)
    ]
  ]

  signature_cases :
      (body : Body)
      → Refused s (check_signature l c events secret header body s)
        ⊎ Admitted l c events secret header body s (check_signature l c events secret header body s)
  unfolding check_signature validate_hmac
  signature_cases too_large = inl (refl, refl)
  signature_cases unreadable = inl (refl, refl)
  signature_cases (read text) =
      let sent = l.to_lower (trim_space header) in
      elim (Bool-cases (str_eq (l.hmac_hex secret text) sent)) [
        | inl valid ↦ rw valid (
            decode_cases text (l.unmarshal text)
              (sym ((eq_iff (l.hmac_hex secret text) sent).0 valid)) refl)
        | inr invalid ↦ inl (rw invalid (refl, refl))
      ]

-- A request to the endpoint changes nothing and starts nothing, or its secret is configured, its
-- body was read whole and signed with the secret, it names a service by an identifier of 1 to 255
-- characters without control characters, and the answer is the one to the enqueuing of that event.
pub sales_force_admits :
    (l : Libraries) (c : Call) (events : Option WebhookConfig) (secret header : String)
    (body : Body) (s : State)
    → Refused s (sales_force l c events secret header body s)
      ⊎ ((secret ≢ "")
          × Admitted l c events secret header body s (sales_force l c events secret header body s))
unfolding sales_force
sales_force_admits l c events secret header body s = elim (Bool-cases (is_empty secret)) [
  | inl unset ↦ inl (rw unset (refl, refl))
  | inr set ↦ rw set (elim (signature_cases l c events secret header s body) [
    | inl refused ↦ inl refused
    | inr admitted ↦ inr (empty_sound secret set, admitted)
  ])
]
