-- ===== src/Webhook/Handler.antt =====
-- internal/api/handlers/v1/webhook_handler.go: the endpoint that receives the events. Reading the
-- body, the HMAC, the decoding of JSON and strings.ToLower are parameters.
pub mod Signed
pub mod Stored
use app_catalogo.Common.{
  ℕ, String, Bool, true, false, not, ◌||◌, Option, none, some, ltb, str_eq, if◌then◌else◌,
}
use Prim.Native.Char.{code}
use Prim.Native.String.{[], ◌∷◌}
use app_catalogo.Common.Go.{Error}
use app_catalogo.Common.Text.{is_empty, trim_space, rune_count, is_control}
use app_catalogo.Webhook.Queue.{SalesForceWebhookEvent}
use app_catalogo.Webhook.Service.Config.{WebhookConfig}
use app_catalogo.Webhook.Service.{State, Hashing, Enqueued, failed, duplicate, created, enqueue}

abbrev pub maximum_slug_chars : ℕ
maximum_slug_chars = 255

pub record Payload : Type 0 where
  pub event_type : String
  pub event_created : String
  pub id : String
  pub slug : String

-- The libraries that the handler calls: hex(HMAC-SHA256(secret, body)), json.Unmarshal, ToLower.
pub record Libraries : Type 0 where
  pub hmac_hex : String → String → String
  pub unmarshal : String → Option Payload
  pub to_lower : String → String

-- What reading the body through the MaxBytesReader gives.
pub data Body : Type 0 where
  read : String → Body
  too_large unreadable : Body

-- What `Enqueue` of the service meets: NOW(), rand.Read with its error, and the store's error.
pub record Call : Type 0 where
  pub hashing : Hashing
  pub now : ℕ
  pub nonce : Option String
  pub nonce_error : Error
  pub store_error : Option Error

-- The answer, the service's state after it, and the event that a goroutine processes.
pub record Reply : Type 0 where
  pub status : ℕ
  pub text : String
  pub state : State
  pub started : Option SalesForceWebhookEvent

abbrev pub refuse : ℕ → String → State → Reply
refuse status text s = record { status = status; text = text; state = s; started = none }

unfoldable pub validate_hmac : Libraries → String → String → String → Bool
validate_hmac l secret body signature = str_eq (l.hmac_hex secret body) signature

unfoldable pub has_control : String → Bool
has_control [] = false
has_control (c ∷ s) = is_control (code c) || has_control s

abbrev pub chosen_slug : Payload → String
chosen_slug p = if is_empty p.slug then p.id else p.slug

unfoldable pub answer : Enqueued × State → Reply
answer (failed e, s) = refuse 503 "falha ao registrar o evento; reenvie o evento" s
answer (duplicate, s) = refuse 200 "duplicate" s
answer (created ev, s) = record { status = 200; text = "queued"; state = s; started = some ev }

unfoldable pub store : Call → Option WebhookConfig → String → Payload → String → State → Reply
store c none body p slug s = refuse 503 "fila de eventos indisponível; reenvie o evento" s
store c (some cfg) body p slug s = answer (
    enqueue c.hashing cfg c.now c.nonce c.nonce_error c.store_error body slug p.event_type
      p.event_created s)

unfoldable pub check_slug : Call → Option WebhookConfig → String → Payload → String → State → Reply
check_slug c events body p slug s =
    if is_empty slug
    then refuse 200 "ignored" s
    else if ltb maximum_slug_chars (rune_count slug)
    then refuse 400 "identificador do serviço excede o limite permitido" s
    else if has_control slug
    then refuse 400 "identificador do serviço inválido" s
    else store c events body p slug s

unfoldable pub decode :
    Libraries → Call → Option WebhookConfig → String → Option Payload → State → Reply
decode l c events body none s = refuse 400 "payload inválido" s
decode l c events body (some p) s = check_slug c events body p (chosen_slug p) s

unfoldable pub check_signature :
    Libraries → Call → Option WebhookConfig → String → String → Body → State → Reply
check_signature l c events secret header too_large s =
    refuse 413 "payload excede o limite permitido" s
check_signature l c events secret header unreadable s = refuse 400 "falha ao ler body" s
check_signature l c events secret header (read body) s =
    if validate_hmac l secret body (l.to_lower (trim_space header))
    then decode l c events body (l.unmarshal body) s
    else refuse 401 "assinatura inválida" s

-- `SalesForce`; `events` is the configuration of the service, or nil.
unfoldable pub sales_force :
    Libraries → Call → Option WebhookConfig → String → String → Body → State → Reply
sales_force l c events secret header body s =
    if is_empty secret
    then refuse 401 "webhook não configurado" s
    else check_signature l c events secret header body s
