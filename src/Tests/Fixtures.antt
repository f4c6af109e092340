-- ===== src/Tests/Fixtures.antt =====
-- A small map of one area, and frame lists of it, whole and partial.
use py_mammotion.Base.{ℕ, [], ◌∷◌}
use py_mammotion.HashList.Frames.{FrameList, RootHashList, NavGetCommData, NavGetHashListData}
use py_mammotion.HashList.Store.{HashList}

abbrev pub no_map : HashList
no_map = record {
  root_hash_lists = [];
  area = [];
  path = [];
  obstacle = [];
  dump = [];
  svg = [];
  line = [];
  visual_safety_zone = [];
  visual_obstacle_zone = [];
  corridor_line = [];
  corridor_point = [];
  transfer_zone = [];
  virtual_wall = [];
  no_go_zone_variant = [];
  no_go_zone = [];
  plan = [];
  area_name = [];
  current_mow_path = [];
  last_ub_path_hash = 0;
  edge_points = [];
  dynamics_line = [];
  unknown_type_frames = [];
}

-- A boundary frame of an area.
abbrev pub boundary : ℕ → ℕ → ℕ → NavGetCommData
boundary id total current = record {
  pver = 1;
  sub_cmd = 1;
  result = 0;
  action = 8;
  type = 0;
  hash = id;
  paternal_hash_a = 0;
  paternal_hash_b = 0;
  total_frame = total;
  current_frame = current;
  data_hash = 0;
  data_len = 0;
  data_couple = record { x = 3; y = 4 } ∷ [];
  reserved = "";
  name_time = record { name = ""; create_time = 0; modify_time = 0 };
}

abbrev pub manifest : NavGetHashListData
manifest = record {
  pver = 1;
  sub_cmd = 0;
  total_frame = 1;
  current_frame = 1;
  data_hash = 0;
  hash_len = 1;
  reserved = "";
  result = 0;
  data_couple = 7 ∷ [];
}

abbrev pub manifest_list : RootHashList
manifest_list = record { total_frame = 1; sub_cmd = 0; data' = manifest ∷ [] }

abbrev pub whole : FrameList
whole = record { total_frame = 2; sub_cmd = 0; data' = boundary 7 2 1 ∷ boundary 7 2 2 ∷ [] }

abbrev pub partial : FrameList
partial = record { total_frame = 3; sub_cmd = 0; data' = boundary 7 3 1 ∷ boundary 7 3 3 ∷ [] }

abbrev pub one_area : HashList
one_area = record no_map { root_hash_lists = manifest_list ∷ []; area = (7, whole) ∷ [] }
