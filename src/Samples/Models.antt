-- ===== src/Samples/Models.antt =====
-- A server of 16 units of memory with a judge and a transcriber, and a queue of three tasks.
use mathlib.Core.List.{Memᴰ}
use campo_sig.Common.{ℕ, ◌≡◌, ◌≤◌, refl, arith, true, false, some, [], ◌∷◌}
use campo_sig.Inference.Registry.{
  interactive, training, pre_review, night_batch, skip, ModelAlias, ServerProfile, Windows,
  InferenceRegistry, alias, profile, usable_vram, validate, rank,
}
use campo_sig.Inference.Admission.{admit, admitted, used_vram}
use campo_sig.Inference.Placed.{load, admit-validated, admit_fits}
use campo_sig.Inference.Queue.{AllListed, Serves, order_queue-Serves}
use campo_sig.Inference.Nights.{Trains, slot_for-Trains}

abbrev judge : ModelAlias
judge = record {
  name = "llm-judge";
  purpose = "informe";
  model = "m-9b";
  runtime = "llama.cpp";
  priority = pre_review;
  vram = 9;
  runs_on_cpu = false;
  supports_grammar = true;
  when_unsupported = skip;
  when_busy = night_batch;
}

abbrev windows : Windows
windows = record { day_starts_at = 25200000000; day_ends_at = 68400000000; weekend_is_night = true }

abbrev server : ServerProfile
server = record {
  name = "B";
  label = "16 GB";
  vram = 16;
  vram_headroom = 2;
  interactive_aliases = "llm-judge" ∷ [];
}

abbrev registry : InferenceRegistry
registry = record {
  windows = windows;
  priorities = interactive ∷ pre_review ∷ training ∷ [];
  aliases = judge ∷ [];
  profiles = server ∷ [];
}

admit-validated_example :
    (a : ModelAlias) × (alias registry "llm-judge" ≡ some a)
    × (admit registry "llm-judge" "B" true [] ≡ some (admitted a))
unfolding validate profile
admit-validated_example = admit-validated registry server "llm-judge" "B" refl refl (Memᴰ.head refl)

runs_at_once : admit registry "llm-judge" "B" true [] ≡ some (admitted judge)
unfolding admit
runs_at_once = refl

admit_fits_example :
    (w : ℕ) × (used_vram (load "llm-judge" []) registry ≡ some w) × (w ≤ usable_vram server)
unfolding used_vram alias profile
admit_fits_example =
    admit_fits registry judge server "llm-judge" "B" true [] 0 (admitted judge) refl refl refl refl
      (omega arith) runs_at_once refl

listed : AllListed registry (("t1", training) ∷ ("t2", interactive) ∷ ("t3", training) ∷ [])
unfolding rank
listed = (λ h. cc, (λ h. cc, (λ h. cc, tt)))

order_queue-Serves_example :
    Serves registry (("t1", training) ∷ ("t2", interactive) ∷ ("t3", training) ∷ [])
order_queue-Serves_example =
    order_queue-Serves registry (("t1", training) ∷ ("t2", interactive) ∷ ("t3", training) ∷ [])
      listed

-- A Wednesday at three in the afternoon.
slot_for-Trains_example : Trains (record { day = 739000; time = 54000000000 }) windows
slot_for-Trains_example = slot_for-Trains record { day = 739000; time = 54000000000 } windows
