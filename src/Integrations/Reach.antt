-- ===== src/Integrations/Reach.antt =====
-- The histories of the outbox: the operations of backend/app/integrations/service.py and the passes
-- of the worker, in any order.
use mathlib.Core.List.{Memᴰ}
use campo_sig.Common.{ℕ, String, Option}
use campo_sig.Common.Json.{Fields}
use campo_sig.Integrations.Ledger.{
  IntegrationEvent, Ledger, Publication, DeliveryError, publish, mark_delivered, mark_failed,
  retry_now, abandon,
}
use campo_sig.Integrations.Sound.{
  IsSound, mark_delivered-IsSound, mark_failed-IsSound, retry_now-IsSound, abandon-IsSound,
}
use campo_sig.Integrations.Publishing.{publish-IsSound}
use campo_sig.Integrations.Attempts.{IsForward}
use campo_sig.Integrations.Delivery.{Network, Settings, run_once}
use campo_sig.Integrations.Pass.{at_time-IsSound}
use campo_sig.Integrations.Pass.Settles.{run_once_settles}

-- One operation on the ledger. Those on an event are given a row that the ledger holds.
pub data Step (db : Ledger) : Ledger → Type 0 where
  published : (p : Publication) → Step db (publish p db).1
  confirmed :
      (e : IntegrationEvent) (body : Option Fields)
      → Memᴰ e db.events
      → Step db (mark_delivered e body db).1
  refused :
      (e : IntegrationEvent) (error : DeliveryError)
      → Memᴰ e db.events
      → Step db (mark_failed e error db).1
  retried :
      (e : IntegrationEvent) (by : Option String) → Memᴰ e db.events → Step db (retry_now e by db).1
  given_up :
      (e : IntegrationEvent) (reason by : String)
      → Memᴰ e db.events
      → Step db (abandon e reason by db).1
  passed :
      (network : Network) (settings : Settings) (unit limit : Option ℕ)
      → IsForward network
      → Step db (run_once network settings unit limit db).1
  waited : (t : ℕ) → Step db (record db { now = t })

pub data Reach (db : Ledger) : Ledger → Type 0 where
  here : Reach db db
  next : {db' db'' : Ledger} → Reach db db' → Step db' db'' → Reach db db''

step-IsSound : {db db' : Ledger} → IsSound db → Step db db' → IsSound db'
step-IsSound {db} sound (Step.published p) = publish-IsSound p db sound
step-IsSound {db} sound (Step.confirmed e body m) = mark_delivered-IsSound db e body sound m
step-IsSound {db} sound (Step.refused e error m) = mark_failed-IsSound db e error sound m
step-IsSound {db} sound (Step.retried e by m) = retry_now-IsSound db e by sound m
step-IsSound {db} sound (Step.given_up e reason by m) = abandon-IsSound db e reason by sound m
step-IsSound {db} sound (Step.passed network settings unit limit forward) =
    (run_once_settles network settings forward unit limit db sound).0
step-IsSound {db} sound (Step.waited t) = at_time-IsSound db t sound

-- Whatever the operations and the passes, and whatever the network answers: a ledger that was sound
-- stays sound. Each exchange has one row, a row has a next attempt exactly while it is pending, and
-- a delivered row has been attempted and has its time of delivery.
pub Reach-IsSound : {db db' : Ledger} → IsSound db → Reach db db' → IsSound db'
Reach-IsSound sound Reach.here = sound
Reach-IsSound sound (Reach.next run step) = step-IsSound (Reach-IsSound sound run) step
