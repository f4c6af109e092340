-- ===== src/HashList/Frames.antt =====
-- pymammotion/data/model/hash_list.py: the frames that the device streams, the lists that collect
-- them, and the three operations on one such list. Coordinates are kept as their bit patterns:
-- the code stores and compares them, and computes nothing from them here.
pub mod Missing
pub mod Adding
pub mod FirstArrival
use py_mammotion.Base.{
  ℕ, zero, suc, ◌+◌, String, Bool, true, false, ◌&&◌, not, Option, none, some, List, [], ◌∷◌, ◌++◌,
  map, Eq, ◌==◌, nat_keys, string_keys, if◌then◌else◌, length, filter, any, elem,
}
use py_mammotion.Base.Dict.{Dict, lookup, insert}

pub record CommDataCouple : Type 0 where
  pub x : ℕ
  pub y : ℕ

pub record NavNameTime : Type 0 where
  pub name : String
  pub create_time : ℕ
  pub modify_time : ℕ

pub record NavGetCommData : Type 0 where
  pub pver : ℕ
  pub sub_cmd : ℕ
  pub result : ℕ
  pub action : ℕ
  pub type : ℕ
  pub hash : ℕ
  pub paternal_hash_a : ℕ
  pub paternal_hash_b : ℕ
  pub total_frame : ℕ
  pub current_frame : ℕ
  pub data_hash : ℕ
  pub data_len : ℕ
  pub data_couple : List CommDataCouple
  pub reserved : String
  pub name_time : NavNameTime

-- The tile's transform and its drawing are one value, which the store only carries.
pub record SvgMessage : Type 0 where
  pub pver : ℕ
  pub sub_cmd : ℕ
  pub total_frame : ℕ
  pub current_frame : ℕ
  pub data_hash : ℕ
  pub paternal_hash_a : ℕ
  pub type : ℕ
  pub result : ℕ
  pub svg_message : String

pub record NavGetHashListData : Type 0 where
  pub pver : ℕ
  pub sub_cmd : ℕ
  pub total_frame : ℕ
  pub current_frame : ℕ
  pub data_hash : ℕ
  pub hash_len : ℕ
  pub reserved : String
  pub result : ℕ
  pub data_couple : List ℕ

-- What the code reads of any frame by its attribute.
pub record HasFrame (A : Type 0) : Type 0 where
  pub frame_number : A → ℕ

instance abbrev pub comm_frame : HasFrame NavGetCommData
comm_frame = record { frame_number = λ d. d.current_frame }

instance abbrev pub svg_frame : HasFrame SvgMessage
svg_frame = record { frame_number = λ d. d.current_frame }

instance abbrev pub hash_frame : HasFrame NavGetHashListData
hash_frame = record { frame_number = λ d. d.current_frame }

-- `FrameList`, `SvgFrameList` and `RootHashList` differ in the type of their frames alone.
pub record Frames (A : Type 0) : Type 0 where
  pub total_frame : ℕ
  pub sub_cmd : ℕ
  pub data' : List A

abbrev pub FrameList : Type 0
FrameList = Frames NavGetCommData

abbrev pub SvgFrameList : Type 0
SvgFrameList = Frames SvgMessage

abbrev pub RootHashList : Type 0
RootHashList = Frames NavGetHashListData

-- `list(range(start, start + count))`
unfoldable pub range : ℕ → ℕ → List ℕ
range start zero = []
range start (suc count) = start ∷ range (start + 1) count

-- The `current_frame` of each frame that has arrived.
abbrev pub numbers : {A : Type 0} ⦃f : HasFrame A⦄ → Frames A → List ℕ
numbers ⦃f⦄ fl = map f.frame_number fl.data'

abbrev pub missing_of : {A : Type 0} ⦃f : HasFrame A⦄ → Frames A → List ℕ
missing_of ⦃f⦄ fl =
    if fl.total_frame == length fl.data'
    then []
    else filter (λ num. not (elem num (numbers fl))) (range 1 fl.total_frame)

unfoldable pub find_missing_frames : {A : Type 0} ⦃f : HasFrame A⦄ → Option (Frames A) → List ℕ
find_missing_frames none = []
find_missing_frames (some fl) = missing_of fl

-- The comparison that `@dataclass` writes, field by field.
couple_eq : CommDataCouple → CommDataCouple → Bool
couple_eq a b = a.x == b.x && a.y == b.y

couples_eq : List CommDataCouple → List CommDataCouple → Bool
couples_eq [] [] = true
couples_eq (a ∷ as') (b ∷ bs) = couple_eq a b && couples_eq as' bs
couples_eq _ _ = false

name_time_eq : NavNameTime → NavNameTime → Bool
name_time_eq a b =
    a.name == b.name && (a.create_time == b.create_time && a.modify_time == b.modify_time)

unfoldable pub comm_eq : NavGetCommData → NavGetCommData → Bool
unfolding couple_eq couples_eq name_time_eq
comm_eq a b =
    a.current_frame == b.current_frame
    && (a.pver == b.pver
        && (a.sub_cmd == b.sub_cmd
            && (a.result == b.result
                && (a.action == b.action
                    && (a.type == b.type
                        && (a.hash == b.hash
                            && (a.paternal_hash_a == b.paternal_hash_a
                                && (a.paternal_hash_b == b.paternal_hash_b
                                    && (a.total_frame == b.total_frame
                                        && (a.data_hash == b.data_hash
                                            && (a.data_len == b.data_len
                                                && (couples_eq a.data_couple b.data_couple
                                                    && (a.reserved == b.reserved
                                                        && name_time_eq a.name_time
                                                            b.name_time)))))))))))))

-- `any(f.current_frame == number for f in data)`
unfoldable pub has_number : {A : Type 0} ⦃f : HasFrame A⦄ → ℕ → List A → Bool
unfolding any
has_number ⦃f⦄ number = any (λ d. f.frame_number d == number)

-- `FrameList(total_frame=..., data=[d])`; `sub_cmd` has the default.
abbrev pub first_frame : {A : Type 0} → ℕ → A → Frames A
first_frame total d = record { total_frame = total; sub_cmd = 0; data' = d ∷ [] }

abbrev pub append_frame : {A : Type 0} → Frames A → A → Frames A
append_frame fl d = record fl { data' = fl.data' ++ d ∷ [] }

-- The new dictionary, and whether anything was stored.
unfoldable pub add_hash_data : Dict ℕ FrameList → NavGetCommData → Dict ℕ FrameList × Bool
unfolding any has_number
add_hash_data hash_dict d = elim (lookup d.hash hash_dict) [
  | none ↦ (insert d.hash (first_frame d.total_frame d) hash_dict, true)
  | some fl ↦
      if any (comm_eq d) fl.data'
      then (hash_dict, false)
      else if has_number d.current_frame fl.data'
      then (hash_dict, true)
      else (insert d.hash (append_frame fl d) hash_dict, true)
]

unfoldable pub add_svg_data : Dict ℕ SvgFrameList → SvgMessage → Dict ℕ SvgFrameList × Bool
unfolding has_number
add_svg_data svg_dict d = elim (lookup d.data_hash svg_dict) [
  | none ↦ (insert d.data_hash (first_frame d.total_frame d) svg_dict, true)
  | some fl ↦
      if has_number d.current_frame fl.data'
      then (svg_dict, true)
      else (insert d.data_hash (append_frame fl d) svg_dict, true)
]
