-- ===== src/Samples/Lasso.antt =====
-- A selection of one planned order and an identifier that no order has.
use campo_sig.Common.{true, none, some, [], ◌∷◌}
use campo_sig.WorkOrders.Store.{Crew}
use campo_sig.WorkOrders.Sound.Many.{Done, assign_many-Done}
use campo_sig.Samples.Orders.{platform, session, work, nil-IsCustody}

abbrev crew : Crew
crew = record {
  id = 5;
  business_unit_id = 7;
  code = "C-03";
  name = "Norte";
  leader_name = none;
  members = [];
  vehicle = none;
  competencies = [];
  zone = none;
  agency = none;
  contractor = none;
  active = true;
  created_by = none;
  updated_by = none;
}

assign_many-Done_example :
    Done platform (λ o. true) 7 (1 ∷ 9 ∷ []) crew none (some "ana") (session (work ∷ []))
assign_many-Done_example =
    assign_many-Done platform (λ o. true) 7 (1 ∷ 9 ∷ []) crew none (some "ana")
      (session (work ∷ [])) (tt, tt) nil-IsCustody
