-- ===== src/Integrations/Delivery.antt =====
-- One pass of the worker, backend/app/workers/integration_delivery.py, and the `deliver` functions
-- of the adapters in backend/app/integrations/. The network is a parameter: `post` says what comes
-- of a request that is sent at some time, and when. A commit expires the objects of the session,
-- so each event is read from its row again when its turn comes.
use Prim.Native.Char.{Char, code}
use Prim.Native.String.{◌++◌ as text_append}
use campo_sig.Common.{
  ℕ, zero, suc, ◌+◌, String, true, false, Option, none, some, List, [], ◌∷◌, ◌++◌, ◌==◌,
  if◌then◌else◌, str_eq, first, exists, truthy,
}
use campo_sig.Common.Json.{Fields}
use campo_sig.Integrations.Ledger.{
  IntegrationEvent, Ledger, DeliveryError, work_order_system, call_centre, erp, oms,
  connector_value, is_delivered, due_events, mark_delivered, mark_failed,
}

-- What a request comes to: a response, a `TransportError`, or any other exception.
pub data Reply : Type 0 where
  answered : Fields → Reply
  refused : DeliveryError → Reply
  raised : String → Reply

pub record Network : Type 0 where
  pub post : String → Fields → ℕ → Reply × ℕ

-- The URLs of the settings; empty where a connector is not configured.
pub record Settings : Type 0 where
  pub work_order_system_url : String
  pub call_centre_url : String
  pub erp_url : String
  pub oms_url : String
  pub integration_batch_size : ℕ

-- `connector_urls().get(connector, "")`
unfoldable pub url_of : Settings → String → String
unfolding connector_value
url_of settings connector =
    if str_eq connector (connector_value work_order_system)
    then settings.work_order_system_url
    else if str_eq connector (connector_value call_centre)
    then settings.call_centre_url
    else if str_eq connector (connector_value erp)
    then settings.erp_url
    else if str_eq connector (connector_value oms)
    then settings.oms_url
    else ""

abbrev keep_slash : Char → String → String
keep_slash c String.[] = if code c == 47 then String.[] else String.◌∷◌ c String.[]
keep_slash c (String.◌∷◌ d s) = String.◌∷◌ c (String.◌∷◌ d s)

-- `base_url.rstrip("/")`
unfoldable pub rstrip_slash : String → String
rstrip_slash String.[] = String.[]
rstrip_slash (String.◌∷◌ c s) = keep_slash c (rstrip_slash s)

-- A delivery returns, or an exception leaves it.
pub data Attempt : Type 0 where
  returned : IntegrationEvent → Ledger → Attempt
  threw : DeliveryError → Ledger → Attempt

abbrev pub not_retryable : String → DeliveryError
not_retryable message = record { message = message; retryable = false }

unfoldable pub settle : IntegrationEvent → Reply → Ledger → Attempt
unfolding mark_delivered mark_failed
settle e (answered body) db = let (e', db') = mark_delivered e (some body) db in returned e' db'
settle e (refused error) db = let (e', db') = mark_failed e error db in returned e' db'
settle e (raised message) db = threw record { message = message; retryable = true } db

unfoldable pub send : Network → IntegrationEvent → String → Ledger → Attempt
unfolding settle
send network e url db =
    let (reply, at) = network.post url e.payload db.now in settle e reply (record db { now = at })

-- What the four adapters have in common: the path of a kind, or a failure that is final.
unfoldable pub deliver :
    Network → Option String → String → IntegrationEvent → String → Ledger → Attempt
unfolding send rstrip_slash mark_failed
deliver network none message e base db =
    let (e', db') =
      mark_failed e (not_retryable (text_append message (text_append e.kind "'"))) db in
    returned e' db'
deliver network (some path) message e base db =
    send network e (text_append (rstrip_slash base) path) db

unfoldable pub work_order_path : String → Option String
work_order_path kind =
    if str_eq kind "estado_ot"
    then some "/work-orders/status"
    else if str_eq kind "resultado_ot"
    then some "/work-orders/status"
    else none

unfoldable pub call_centre_path : String → Option String
call_centre_path kind = if str_eq kind "reclamo_cerrado" then some "/claims/close" else none

unfoldable pub erp_path : String → Option String
erp_path kind =
    if str_eq kind "consumo_material"
    then some "/movements/consumption"
    else if str_eq kind "devolucion_material"
    then some "/movements/return"
    else none

unfoldable pub oms_path : String → Option String
oms_path kind = if str_eq kind "interrupcion_reportada" then some "/outages" else none

abbrev pub no_adapter : String → DeliveryError
no_adapter connector =
    not_retryable
      (text_append "no hay adaptador de entrega para el conector '" (text_append connector "'"))

unfoldable pub deliver_one : Network → IntegrationEvent → String → Ledger → Attempt
unfolding connector_value deliver work_order_path call_centre_path erp_path oms_path mark_failed
deliver_one network e base db =
    if str_eq e.connector (connector_value work_order_system)
    then deliver network (work_order_path e.kind)
        "el adaptador de OT no sabe entregar eventos de tipo '" e base db
    else if str_eq e.connector (connector_value call_centre)
    then deliver network (call_centre_path e.kind)
        "el adaptador de call center no entrega eventos de tipo '" e base db
    else if str_eq e.connector (connector_value erp)
    then deliver network (erp_path e.kind) "el adaptador del ERP no sabe entregar eventos de tipo '"
        e base db
    else if str_eq e.connector (connector_value oms)
    then deliver network (oms_path e.kind) "el adaptador del OMS no sabe entregar eventos de tipo '"
        e base db
    else let (e', db') = mark_failed e (no_adapter e.connector) db in returned e' db'

-- The attempt of the pass: an exception that an adapter lets through is a failure too.
unfoldable pub caught : IntegrationEvent → Attempt → IntegrationEvent × Ledger
unfolding mark_failed
caught e (returned e' db) = (e', db)
caught e (threw error db) = mark_failed e error db

unfoldable pub attempt : Network → String → IntegrationEvent → Ledger → IntegrationEvent × Ledger
unfolding caught deliver_one
attempt network base e db = caught e (deliver_one network e base db)

pub record DeliveryReport : Type 0 where
  pub delivered : ℕ
  pub failed : ℕ
  pub skipped : ℕ
  pub unconfigured : List String
  pub errors : List String

abbrev pub no_deliveries : DeliveryReport
no_deliveries = record { delivered = 0; failed = 0; skipped = 0; unconfigured = []; errors = [] }

-- A set of texts, in the order of their first insertion.
unfoldable pub with_text : String → List String → List String
unfolding exists
with_text s texts = if exists (str_eq s) texts then texts else texts ++ s ∷ []

abbrev pub report_skipped : IntegrationEvent → DeliveryReport → DeliveryReport
report_skipped e report = record report {
  skipped = report.skipped + 1;
  unconfigured = with_text e.connector report.unconfigured;
}

abbrev error_lines : IntegrationEvent → Option String → List String
error_lines e none = []
error_lines e (some message) =
    if truthy (some message)
    then text_append e.connector (text_append "/" (text_append e.kind (text_append ": " message)))
      ∷ []
    else []

unfoldable pub report_attempt : IntegrationEvent → DeliveryReport → DeliveryReport
report_attempt e report =
    if is_delivered e.status
    then record report { delivered = report.delivered + 1 }
    else record report {
      failed = report.failed + 1;
      errors = report.errors ++ error_lines e e.last_error;
    }

unfoldable pub get_event : ℕ → Ledger → Option IntegrationEvent
unfolding first
get_event id db = first (λ e. e.id == id) db.events

-- One event of the pass, as its row says it is.
unfoldable pub pass_row :
    Network → Settings → Option IntegrationEvent → DeliveryReport × Ledger → DeliveryReport × Ledger
unfolding url_of with_text report_attempt attempt
pass_row network settings none (report, db) = (report, db)
pass_row network settings (some e) (report, db) =
    if str_eq (url_of settings e.connector) ""
    then (report_skipped e report, db)
    else let (e', db') = attempt network (url_of settings e.connector) e db in
      (report_attempt e' report, db')

unfoldable pub pass :
    Network → Settings → List IntegrationEvent → DeliveryReport × Ledger → DeliveryReport × Ledger
unfolding pass_row get_event
pass network settings [] (report, db) = (report, db)
pass network settings (e ∷ events) (report, db) =
    pass network settings events (pass_row network settings (get_event e.id db) (report, db))

-- `limit or settings.integration_batch_size`
abbrev pub batch : Settings → Option ℕ → ℕ
batch settings none = settings.integration_batch_size
batch settings (some zero) = settings.integration_batch_size
batch settings (some (suc n)) = suc n

unfoldable pub run_once :
    Network → Settings → Option ℕ → Option ℕ → Ledger → DeliveryReport × Ledger
unfolding pass due_events
run_once network settings unit limit db =
    pass network settings (due_events unit none (batch settings limit) db.now db)
      (no_deliveries, db)
