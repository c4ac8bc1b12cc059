-- ===== src/IpIndex/Examples.antt =====
-- Overlapping resources looked up both ways.
use distrust_core.NetIp.{NetIp, to4, ipv4_uint32}
use distrust_core.Client.{IpResource}
use distrust_core.IpIndex.{
  new, match_index, match_node, build_fuel, sort_by_start, insert_by_start, index_from, index_entry,
  covers, improves, pick, match_first, match_last,
}
use distrust_core.IpIndex.Lookup.{match_index-chosen, serves, chosen, first_such, last_such}
use distrust_core.Base.{
  ◌≡◌, refl, true, false, none, some, List, [], ◌∷◌, Comparable_nat, Comparable_string, pos,
}

abbrev wide : IpResource
wide = record {
  ip_min = 10 ∷ 0 ∷ 0 ∷ 0 ∷ [];
  ip_max = 10 ∷ 0 ∷ 255 ∷ 255 ∷ [];
  port_min = pos 1;
  port_max = pos 1000;
  protocol = "all";
  app_id = "wide";
  node_group_id = "g";
  enable_tcp_pref_l3 = false;
}

abbrev narrow : IpResource
narrow = record wide {
  ip_min = 10 ∷ 0 ∷ 0 ∷ 4 ∷ [];
  ip_max = 10 ∷ 0 ∷ 0 ∷ 9 ∷ [];
  app_id = "narrow";
}

abbrev other : IpResource
other = record wide { ip_min = 9 ∷ 0 ∷ 0 ∷ 4 ∷ []; ip_max = 9 ∷ 0 ∷ 0 ∷ 9 ∷ []; app_id = "other" }

abbrev issued : List IpResource
issued = narrow ∷ other ∷ wide ∷ []

abbrev target : NetIp
target = 10 ∷ 0 ∷ 0 ∷ 5 ∷ []

first_is_narrow : match_first (new issued) target "tcp" (pos 80) ≡ some narrow
unfolding match_first match_index new build_fuel sort_by_start insert_by_start index_from
    index_entry covers improves pick match_node ipv4_uint32 to4
first_is_narrow = refl

last_is_wide : match_last (new issued) target "tcp" (pos 80) ≡ some wide
unfolding match_last match_index new build_fuel sort_by_start insert_by_start index_from index_entry
    covers improves pick match_node ipv4_uint32 to4
last_is_wide = refl

match_index-chosen_example : match_index (new issued) target "tcp" (pos 80) true none ≡ some wide
unfolding chosen serves first_such last_such ipv4_uint32 to4
match_index-chosen_example = match_index-chosen issued target "tcp" (pos 80) true none
