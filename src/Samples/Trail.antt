-- ===== src/Samples/Trail.antt =====
-- A trail of two events, verified and cut.
use campo_sig.Common.{
  String, ◌≡◌, refl, ap, ◌↔◌, true, none, List, [], map, length, select, order_by,
}
use campo_sig.Common.Json.{end}
use campo_sig.Audit.{
  Hashing, Entry, AuditEvent, canonical, append_event, tail, greatest, verify, intact, events_of,
  of_unit, created, person, key, genesis,
}
use campo_sig.Audit.Chain.{
  Recorded, empty, append, Linked, end_hash, verify-Recorded, verify-intact_iff,
}
use campo_sig.Audit.Tamper.{NoCollision, verify_tamper_evident}

-- A digest for the samples: the text before the event.
abbrev pub hashing : Hashing
hashing = record { dumps = λ p c. c.actor; sha256 = λ s. s }

abbrev entry : String → Entry
entry actor = record {
  kind = created;
  subject_type = "orden_trabajo";
  subject_id = key "1";
  actor = actor;
  actor_kind = person;
  work_order_id = none;
  asset_code = none;
  device_key = none;
  payload = end;
  reason = none;
}

abbrev one : List AuditEvent
one = append_event hashing 7 100 (entry "ana") []

abbrev two : List AuditEvent
two = append_event hashing 7 200 (entry "luis") one

two-Recorded : Recorded hashing two
two-Recorded = append 7 200 (entry "luis") (append 7 100 (entry "ana") empty)

verify-Recorded_example :
    verify hashing two 7
    ≡ record { events = length (select (of_unit 7) two); broken_at = none; problem = none }
verify-Recorded_example = verify-Recorded hashing {trail = two} 7 two-Recorded

two_events : length (select (of_unit 7) two) ≡ 2
unfolding append_event tail greatest select
two_events = refl

verify-intact_iff_example :
    (intact (verify hashing two 7) ≡ true) ↔ Linked hashing genesis 1 (events_of two 7)
verify-intact_iff_example = verify-intact_iff hashing two 7

two-intact : intact (verify hashing two 7) ≡ true
two-intact = ap intact verify-Recorded_example

-- The same two events, recorded other microseconds of the same second.
abbrev later_one : List AuditEvent
later_one = append_event hashing 7 101 (entry "ana") []

abbrev later_two : List AuditEvent
later_two = append_event hashing 7 999 (entry "luis") later_one

later-intact : intact (verify hashing later_two 7) ≡ true
later-intact = ap intact (
    verify-Recorded hashing {trail = later_two} 7
      (append 7 999 (entry "luis") (append 7 101 (entry "ana") empty)))

apart : NoCollision hashing (events_of two 7) (events_of later_two 7)
unfolding append_event tail greatest events_of select order_by canonical
apart = ((λ h. (refl, refl)), ((λ h. (refl, refl)), tt))

sized : length (events_of two 7) ≡ length (events_of later_two 7)
unfolding append_event tail greatest events_of select order_by
sized = refl

ends : end_hash hashing genesis (events_of two 7) ≡ end_hash hashing genesis (events_of later_two 7)
unfolding append_event tail greatest events_of select order_by
ends = refl

verify_tamper_evident_example :
    map canonical (events_of two 7) ≡ map canonical (events_of later_two 7)
verify_tamper_evident_example =
    verify_tamper_evident hashing two later_two 7 two-intact later-intact sized ends apart
