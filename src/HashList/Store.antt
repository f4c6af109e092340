-- ===== src/HashList/Store.antt =====
-- pymammotion/data/model/hash_list.py, class `HashList`: its state and how a frame type selects a
-- dictionary. The generated GeoJSON, its cache key and the plan-fetch flags are derived data that no
-- operation here reads, and are left out.
use py_mammotion.Base.{ℕ, String, Option, none, some, List, [], ◌∷◌, ◌==◌, nat_keys, if◌then◌else◌}
use py_mammotion.Base.Dict.{Dict}
use py_mammotion.HashList.Frames.{CommDataCouple, FrameList, SvgFrameList, RootHashList}

-- `reserved` is its latin-1 bytes; the other settings of a plan are not read here.
pub record Plan : Type 0 where
  pub plan_id : String
  pub task_name : String
  pub total_plan_num : ℕ
  pub zone_hashs : List ℕ
  pub reserved : List ℕ

pub record MowPathPacket : Type 0 where
  pub path_hash : ℕ
  pub path_type : ℕ
  pub path_total : ℕ
  pub path_cur : ℕ
  pub zone_hash : ℕ
  pub data_couple : List CommDataCouple

pub record MowPath : Type 0 where
  pub area : ℕ
  pub total_frame : ℕ
  pub current_frame : ℕ
  pub transaction_id : ℕ
  pub path_packets : List MowPathPacket

pub record EdgePoints : Type 0 where
  pub hash : ℕ
  pub action : ℕ
  pub type : ℕ
  pub total_frame : ℕ
  pub frames : Dict ℕ (List CommDataCouple)

pub record AreaHashNameList : Type 0 where
  pub name : String
  pub hash : ℕ

pub record HashList : Type 0 where
  pub root_hash_lists : List RootHashList
  pub area : Dict ℕ FrameList
  pub path : Dict ℕ FrameList
  pub obstacle : Dict ℕ FrameList
  pub dump : Dict ℕ FrameList
  pub svg : Dict ℕ SvgFrameList
  pub line : Dict ℕ FrameList
  pub visual_safety_zone : Dict ℕ FrameList
  pub visual_obstacle_zone : Dict ℕ FrameList
  pub corridor_line : Dict ℕ FrameList
  pub corridor_point : Dict ℕ FrameList
  pub transfer_zone : Dict ℕ FrameList
  pub virtual_wall : Dict ℕ FrameList
  pub no_go_zone_variant : Dict ℕ FrameList
  pub no_go_zone : Dict ℕ FrameList
  pub plan : Dict String Plan
  pub area_name : List AreaHashNameList
  pub current_mow_path : Dict ℕ (Dict ℕ MowPath)
  pub last_ub_path_hash : ℕ
  pub edge_points : Dict ℕ EdgePoints
  pub dynamics_line : List CommDataCouple
  pub unknown_type_frames : Dict ℕ (Dict ℕ FrameList)

-- The keys of `_get_path_type_mapping`, in its order.
pub data PathType : Type 0 where
  area_type obstacle_type path_type transfer_zone_type line_type dump_type : PathType
  visual_safety_zone_type visual_obstacle_zone_type corridor_line_type : PathType
  corridor_point_type virtual_wall_type no_go_zone_variant_type no_go_zone_type : PathType

abbrev pub path_types : List PathType
path_types =
    area_type ∷ obstacle_type ∷ path_type ∷ transfer_zone_type ∷ line_type ∷ dump_type
    ∷ visual_safety_zone_type ∷ visual_obstacle_zone_type ∷ corridor_line_type ∷ corridor_point_type
    ∷ virtual_wall_type ∷ no_go_zone_variant_type ∷ no_go_zone_type ∷ []

-- The wire values; 13 and 18 have no dictionary of `FrameList`s.
abbrev pub value : PathType → ℕ
value area_type = 0
value obstacle_type = 1
value path_type = 2
value transfer_zone_type = 3
value line_type = 10
value dump_type = 12
value corridor_line_type = 19
value corridor_point_type = 20
value virtual_wall_type = 21
value no_go_zone_variant_type = 22
value no_go_zone_type = 23
value visual_safety_zone_type = 25
value visual_obstacle_zone_type = 26

abbrev pub svg_value : ℕ
svg_value = 13

abbrev pub dynamics_line_value : ℕ
dynamics_line_value = 18

unfoldable pub bucket : PathType → HashList → Dict ℕ FrameList
bucket area_type h = h.area
bucket obstacle_type h = h.obstacle
bucket path_type h = h.path
bucket transfer_zone_type h = h.transfer_zone
bucket line_type h = h.line
bucket dump_type h = h.dump
bucket visual_safety_zone_type h = h.visual_safety_zone
bucket visual_obstacle_zone_type h = h.visual_obstacle_zone
bucket corridor_line_type h = h.corridor_line
bucket corridor_point_type h = h.corridor_point
bucket virtual_wall_type h = h.virtual_wall
bucket no_go_zone_variant_type h = h.no_go_zone_variant
bucket no_go_zone_type h = h.no_go_zone

-- The dictionaries are mutated in place through the mapping.
unfoldable pub set_bucket : PathType → Dict ℕ FrameList → HashList → HashList
set_bucket area_type d h = record h { area = d }
set_bucket obstacle_type d h = record h { obstacle = d }
set_bucket path_type d h = record h { path = d }
set_bucket transfer_zone_type d h = record h { transfer_zone = d }
set_bucket line_type d h = record h { line = d }
set_bucket dump_type d h = record h { dump = d }
set_bucket visual_safety_zone_type d h = record h { visual_safety_zone = d }
set_bucket visual_obstacle_zone_type d h = record h { visual_obstacle_zone = d }
set_bucket corridor_line_type d h = record h { corridor_line = d }
set_bucket corridor_point_type d h = record h { corridor_point = d }
set_bucket virtual_wall_type d h = record h { virtual_wall = d }
set_bucket no_go_zone_variant_type d h = record h { no_go_zone_variant = d }
set_bucket no_go_zone_type d h = record h { no_go_zone = d }

find_type : List PathType → ℕ → Option PathType
find_type [] t = none
find_type (p ∷ ps) t = if value p == t then some p else find_type ps t

-- `_get_path_type_mapping().get(t)`
unfoldable pub path_type_of : ℕ → Option PathType
unfolding find_type
path_type_of t = find_type path_types t
