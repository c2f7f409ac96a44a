-- ===== src/Tests/Showing.antt =====
-- The table of the statuses at two replicas and another service.
use curveadm.Prelude.{String, ◌≡◌, ◌↔◌, refl, List, [], ◌∷◌, All, ok}
use curveadm.Display.{ServiceStatus, Line, normal, merged_status, second_part, merge_statues}
use curveadm.Display.Summary.{merged_status-IsCommon}
use curveadm.Display.Groups.{
  Group, IsGroup, flat, AreParted, HasTotal, AreLines, merge_statues-AreLines,
}
use curveadm.Topology.DeployConfig.{role_chunkserver}
use curveadm.Tests.{chunkserver}

abbrev replica : String → String → String → ServiceStatus
replica id parent status = record {
  id = id;
  parent_id = parent;
  role = role_chunkserver;
  host = "h1";
  replica = "1/2";
  container_id = "abc";
  ports = "8200";
  status = status;
  log_dir = "/data/logs";
  data_dir = "/data";
  config = chunkserver "h1" "c0";
}

abbrev statuses : List ServiceStatus
statuses =
    replica "c0_0" "c0" "Up 3 days"
    ∷ replica "c0_1" "c0" "Exited (1)"
    ∷ replica "c1" "c1" "Losed"
    ∷ []

abbrev no_prefix : List String → String
no_prefix items = ""

statuses-total : All HasTotal statuses
unfolding second_part
statuses-total = (("2", refl), (("2", refl), (("2", refl), tt)))

merge_statues-AreLines_example :
    (gs : List Group) × (ls : List Line) × (merge_statues no_prefix statuses ≡ ok ls)
    × (flat gs ≡ statuses)
    × All IsGroup gs
    × AreParted gs
    × AreLines gs ls
merge_statues-AreLines_example = merge_statues-AreLines no_prefix statuses statuses-total

merged_status-IsCommon_example :
    (merged_status ("Up 3 days" ∷ "Up 1 hour" ∷ []) ≡ "RUNNING")
    ↔ All (λ i. normal i ≡ "RUNNING") ("Up 3 days" ∷ "Up 1 hour" ∷ [])
merged_status-IsCommon_example = merged_status-IsCommon "Up 3 days" "Up 1 hour" [] "RUNNING" refl
