-- ===== src/Audit.antt =====
-- backend/app/audit/service.py and models.py: appending to a unit's hash chain, and verifying it.
-- The digests are the libraries': `json.dumps` and SHA-256 are parameters.
pub mod Chain
pub mod Tamper
use campo_sig.Common.{
  ℕ, suc, ◌+◌, ◌/◌, String, ◌≡◌, Bool, true, false, Option, none, some, List, [], ◌∷◌, ◌++◌, leb,
  ltb, ◌==◌, if◌then◌else◌, str_eq, select, order_by, length, ◌&&◌, is_none, is_id, is_text, take,
  drop,
}
use campo_sig.Common.Json.{Fields, end}

-- audit/models.py `EventKind`
pub data EventKind : Type 0 where
  created field_changed transitioned evidence_read exported decided : EventKind

-- audit/models.py `ActorKind`
pub data ActorKind : Type 0 where
  person system model : ActorKind

-- What `subject_id` is the text of: the identifier of a row, or a key that is text already.
pub data SubjectId : Type 0 where
  row_id : ℕ → SubjectId
  key : String → SubjectId

-- What `_canonical` prints: every column inside the digest.
pub record Canonical : Type 0 where
  pub business_unit_id : ℕ
  pub sequence : ℕ
  pub kind : EventKind
  pub subject_type : String
  pub subject_id : SubjectId
  pub work_order_id : Option ℕ
  pub asset_code : Option String
  pub actor_kind : ActorKind
  pub actor : String
  pub device_key : Option String
  pub payload : Fields
  pub reason : Option String
  pub occurred_at : ℕ

-- audit/models.py `AuditEvent`; `occurred_at` counts microseconds.
pub record AuditEvent : Type 0 where
  pub business_unit_id : ℕ
  pub sequence : ℕ
  pub kind : EventKind
  pub subject_type : String
  pub subject_id : SubjectId
  pub work_order_id : Option ℕ
  pub asset_code : Option String
  pub actor_kind : ActorKind
  pub actor : String
  pub device_key : Option String
  pub payload : Fields
  pub reason : Option String
  pub occurred_at : ℕ
  pub prev_hash : String
  pub hash : String

-- `json.dumps(..., sort_keys=True)` of the canonical fields after the previous digest and a bar,
-- and `hashlib.sha256(...).hexdigest()` of that text.
pub record Hashing : Type 0 where
  pub dumps : String → Canonical → String
  pub sha256 : String → String

abbrev pub genesis : String
genesis = ""

-- Seconds and not microseconds: `occurred_at.replace(microsecond=0)`.
unfoldable pub canonical : AuditEvent → Canonical
canonical e = record {
  business_unit_id = e.business_unit_id;
  sequence = e.sequence;
  kind = e.kind;
  subject_type = e.subject_type;
  subject_id = e.subject_id;
  work_order_id = e.work_order_id;
  asset_code = e.asset_code;
  actor_kind = e.actor_kind;
  actor = e.actor;
  device_key = e.device_key;
  payload = e.payload;
  reason = e.reason;
  occurred_at = e.occurred_at / 1000000;
}

-- The arguments of `record`.
pub record Entry : Type 0 where
  pub kind : EventKind
  pub subject_type : String
  pub subject_id : SubjectId
  pub actor : String
  pub actor_kind : ActorKind
  pub work_order_id : Option ℕ
  pub asset_code : Option String
  pub device_key : Option String
  pub payload : Fields
  pub reason : Option String

abbrev pub of_unit : ℕ → AuditEvent → Bool
of_unit unit e = e.business_unit_id == unit

-- The greater of two rows by their sequence, for `order_by(sequence.desc()).limit(1)`.
unfoldable pub later : AuditEvent → Option AuditEvent → AuditEvent
later e none = e
later e (some f) = if ltb e.sequence f.sequence then f else e

unfoldable pub greatest : List AuditEvent → Option AuditEvent
unfolding later
greatest [] = none
greatest (e ∷ es) = some (later e (greatest es))

unfoldable pub tail : List AuditEvent → ℕ → Option AuditEvent
tail trail unit = greatest (select (of_unit unit) trail)

abbrev pub sequence_of : Option AuditEvent → ℕ
sequence_of none = 0
sequence_of (some e) = e.sequence

abbrev pub hash_of : Option AuditEvent → String
hash_of none = genesis
hash_of (some e) = e.hash

module _ (hashing : Hashing) where
  unfoldable pub digest : String → Canonical → String
  digest prev_hash c = hashing.sha256 (hashing.dumps prev_hash c)

  unfoldable pub recompute : AuditEvent → String
  unfolding digest canonical
  recompute e = digest e.prev_hash (canonical e)

  abbrev draft : ℕ → ℕ → Entry → Option AuditEvent → AuditEvent
  draft unit now entry previous = record {
    business_unit_id = unit;
    sequence = sequence_of previous + 1;
    kind = entry.kind;
    subject_type = entry.subject_type;
    subject_id = entry.subject_id;
    work_order_id = entry.work_order_id;
    asset_code = entry.asset_code;
    actor_kind = entry.actor_kind;
    actor = entry.actor;
    device_key = entry.device_key;
    payload = entry.payload;
    reason = entry.reason;
    occurred_at = now;
    prev_hash = hash_of previous;
    hash = "";
  }

  -- The new row: its digest is computed over the others of its columns.
  unfoldable pub next_event : ℕ → ℕ → Entry → Option AuditEvent → AuditEvent
  unfolding recompute
  next_event unit now entry previous =
      let e = draft unit now entry previous in record e { hash = recompute e }

  -- `record` without an explicit `occurred_at`: no caller in the model gives one. The advisory
  -- lock orders the appends, which are one after the other here.
  unfoldable pub append_event : ℕ → ℕ → Entry → List AuditEvent → List AuditEvent
  unfolding next_event
  append_event unit now entry trail = trail ++ next_event unit now entry (tail trail unit) ∷ []

-- What a verification says of the first event that breaks the chain.
pub data Problem : Type 0 where
  missing : (expected found : ℕ) → Problem
  unlinked : ℕ → Problem
  altered : ℕ → Problem

pub record ChainCheck : Type 0 where
  pub events : ℕ
  pub broken_at : Option ℕ
  pub problem : Option Problem

abbrev pub intact : ChainCheck → Bool
intact c = is_none c.broken_at

unfoldable pub events_of : List AuditEvent → ℕ → List AuditEvent
events_of trail unit = order_by (λ a b. leb a.sequence b.sequence) (select (of_unit unit) trail)

module _ (hashing : Hashing) where
  -- The loop of `verify`; `total` is `len(events)`.
  unfoldable pub walk : ℕ → String → ℕ → List AuditEvent → ChainCheck
  walk total prev_hash sequence [] = record { events = total; broken_at = none; problem = none }
  walk total prev_hash sequence (e ∷ es) =
      let rest = walk total e.hash (sequence + 1) es in
      if e.sequence == sequence
      then (if str_eq e.prev_hash prev_hash
          then (if str_eq (recompute hashing e) e.hash then rest else record {
            events = total;
            broken_at = some e.sequence;
            problem = some (altered e.sequence);
          })
          else record {
            events = total;
            broken_at = some e.sequence;
            problem = some (unlinked e.sequence);
          })
      else record {
        events = total;
        broken_at = some e.sequence;
        problem = some (missing sequence e.sequence);
      }

  unfoldable pub verify : List AuditEvent → ℕ → ChainCheck
  unfolding walk events_of
  verify trail unit = let events = events_of trail unit in walk (length events) genesis 1 events
