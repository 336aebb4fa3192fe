-- ===== src/Samples/Pulls.antt =====
-- A phone with two orders that pulls them one by one, with the cursor written in strokes.
use Prim.Native.Char.{code}
use campo_sig.Common.{
  ℕ, zero, suc, ◌<◌, ◌≡◌, ◌≢◌, refl, ap, arith, String, Option, none, some, [], ◌∷◌, ◌==◌,
  if◌then◌else◌, length, is_text,
}
use campo_sig.WorkOrders.State.{assigned, downloaded}
use campo_sig.WorkOrders.Store.{WorkOrder, Device, active}
use campo_sig.Sync.Pull.{Codec, Shelf, encode_cursor, decode_cursor}
use campo_sig.WorkOrders.Own.{OwnRows}
use campo_sig.Sync.Delta.{IsCodec, due, decode_cursor-encode_cursor}
use campo_sig.Sync.Rounds.{pull_rounds, parted, pull_rounds_whole}
use campo_sig.Samples.Orders.{order_at, session}

abbrev strokes : ℕ → String → String
strokes zero s = s
strokes (suc n) s = String.◌∷◌ "i" (strokes n s)

abbrev size : String → ℕ
size String.[] = 0
size (String.◌∷◌ c s) = suc (size s)

abbrev one_more : Option (ℕ × ℕ) → Option (ℕ × ℕ)
one_more none = none
one_more (some (a, b)) = some (suc a, b)

abbrev read : String → Option (ℕ × ℕ)
read String.[] = none
read (String.◌∷◌ c s) =
    let rest = read s in if code c == 124 then some (0, size s) else one_more rest

abbrev codec : Codec
codec = record { write = λ (a, b). strokes a (String.◌∷◌ "|" (strokes b "")); read = read }

size-strokes : (n : ℕ) → size (strokes n "") ≡ n
size-strokes zero = refl
size-strokes (suc n) = ap suc (size-strokes n)

read-strokes : (a b : ℕ) → read (strokes a (String.◌∷◌ "|" (strokes b ""))) ≡ some (a, b)
read-strokes zero b = ap (λ n. some (0, n)) (size-strokes b)
read-strokes (suc a) b = ap one_more (read-strokes a b)

written : (a b : ℕ) → strokes a (String.◌∷◌ "|" (strokes b "")) ≢ ""
written zero b h = cc
written (suc a) b h = cc

codec-IsCodec : IsCodec codec
codec-IsCodec = record { reads = λ (a, b). read-strokes a b; written = λ (a, b). written a b }

abbrev phone : Device
phone = record {
  id = 3;
  business_unit_id = 7;
  device_key = "tel-1";
  user_sub = some "luis";
  model = none;
  android_version = none;
  app_version = none;
  crew_id = none;
  status = active;
  blocked_at = none;
  blocked_reason = none;
  last_sync_at = none;
}

abbrev first : WorkOrder
first = record (order_at 1 none assigned) { assigned_user_sub = some "luis" }

abbrev second : WorkOrder
second = record (order_at 2 none downloaded) { assigned_user_sub = some "luis" }

abbrev shelf : Shelf
shelf = record { db = session (first ∷ second ∷ []); updated_at = λ id. 50; deliveries = [] }

own : OwnRows shelf.db.orders
own = ((λ h. cc, tt), (tt, tt))

short : length (due phone shelf) < 3
unfolding pull_rounds is_text
short = omega arith

decode_cursor-encode_cursor_example :
    decode_cursor codec (some (encode_cursor codec 2 3)) ≡ some (2, 3)
decode_cursor-encode_cursor_example = decode_cursor-encode_cursor codec 2 3 codec-IsCodec

-- Pages of one row, on a tie of the times.
pull_rounds_whole_example :
    pull_rounds codec phone 1 3 none shelf ≡ some (parted phone shelf (due phone shelf))
pull_rounds_whole_example = pull_rounds_whole codec codec-IsCodec phone 0 shelf own 3 short
