-- ===== src/Utils/Nested.antt =====
-- utils/map.go: the maps of maps.
pub mod IntIntSetMap
pub mod IntIntInt64SetMap
pub mod IntIntDoubleSetMap
pub mod IntIntMapArr
pub mod IntBytesMapArr
pub mod IntIntBytesMapArr
