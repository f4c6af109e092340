-- ===== src/HashList.antt =====
-- pymammotion/data/model/hash_list.py
pub mod Frames
pub mod Store
pub mod Update
pub mod Receive
pub mod Queries
pub mod MowPaths
