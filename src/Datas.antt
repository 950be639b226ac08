-- ===== src/Datas.antt =====
-- The data structures of ioriot/src/datas.
pub mod RBuffer
pub mod BTree
pub mod HMap
pub mod Key
pub mod NamedList
pub mod AMap
pub mod Stack
