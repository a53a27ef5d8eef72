-- ===== src/Utils.antt =====
-- utils/: the maps, sets and values that the other packages share.
pub mod Map
pub mod Values
pub mod Text
pub mod Sets
pub mod IntByteMap
pub mod StringIntMap
pub mod StringBoolMap
pub mod IntIntMap
pub mod IntBytesMap
pub mod IntStringMap
pub mod IntSet
pub mod IntBoolMap
pub mod ByteSet
pub mod IntSetMap
pub mod Int64SetMap
pub mod DoubleSetMap
pub mod Nested
pub mod Containers
