-- ===== src/Outages/Window.antt =====
-- `window_check` of backend/app/outages/service.py.
use campo_sig.Common.{ℕ, ◌≡◌, ◌≤◌, ◌-◌, ◌/◌, ◌↔◌, arith, true}
use campo_sig.Outages.Rows.{OutageRequest}
use campo_sig.Outages.Reading.{window_check}

-- For a window that does not end before it starts: a moment is inside exactly if it is between both
-- ends, these included. Otherwise the minutes that are missing before the start, or that have
-- passed since the end, are counted whole, and those of the other side are none.
pub window_check_lem :
    (r : OutageRequest) (at : ℕ)
    → r.window_start ≤ r.window_end
    → ((window_check r at).inside ≡ true ↔ (r.window_start ≤ at) × (at ≤ r.window_end))
      × ((window_check r at).minutes_early ≡ (r.window_start - at) / 60000000)
      × ((window_check r at).minutes_late ≡ (at - r.window_end) / 60000000)
unfolding window_check
window_check_lem r at ordered = ground arith
